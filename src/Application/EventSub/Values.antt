-- ===== src/Application/EventSub/Values.antt =====
-- internal/application/eventsub.go: the helpers on the values of an event and on texts.
use Prim.Native.Char.{code}
use Prim.Native.String.{◌++◌ as ◌<>◌}
use ferventio_backend.Base.{
  ℕ, zero, suc, String, Bool, true, false, not, ◌&&◌, ◌||◌, Option, none, some, List, [], ◌∷◌, leb,
  eqb, ◌==◌, if◌then◌else◌,
}
use ferventio_backend.Base.Text.{trim_space, cut_prefix, has_prefix, byte_length}
use ferventio_backend.Base.GoMap.{GoMap, get}
use ferventio_backend.Domain.Json.{JsonValue, boolean, number, text, object, JsonFields, end, field}

-- An event of a message: map[string]any.
abbrev pub Event : Type 0
Event = GoMap JsonValue

-- The text of a value, trimmed, or no text.
abbrev pub trimmed_text : Option JsonValue → String
trimmed_text (some (text s)) = trim_space s
trimmed_text _ = ""

unfoldable pub string_value : Event → String → String
string_value event key = trimmed_text (get key event)

-- The last field of a name, as in the map that `encoding/json` fills.
unfoldable pub field_value : String → JsonFields → Option JsonValue
field_value key end = none
field_value key (field name v fields) = elim (field_value key fields) [
  | some w ↦ some w
  | none ↦ if name == key then some v else none
]

abbrev pub inner_text : String → Option JsonValue → String
inner_text inner (some (object fields)) = trimmed_text (field_value inner fields)
inner_text inner _ = ""

unfoldable pub nested_string : Event → String → String → String
nested_string event outer inner = inner_text inner (get outer event)

abbrev pub truth_of : Option JsonValue → Bool
truth_of (some (boolean b)) = b
truth_of _ = false

unfoldable pub bool_value : Event → String → Bool
bool_value event key = truth_of (get key event)

-- numberString; `format` prints a number with no decimals.
abbrev pub number_string : (String → String) → Option JsonValue → String
number_string format (some (number n)) = format n
number_string format (some (text s)) = s
number_string format _ = "0"

unfoldable pub first_non_blank : List String → String
first_non_blank [] = ""
first_non_blank (value ∷ values) =
    let rest = first_non_blank values in if trim_space value == "" then rest else trim_space value

unfoldable pub non_blank : List String → List String
non_blank [] = []
non_blank (value ∷ values) =
    let rest = non_blank values in if trim_space value == "" then rest else trim_space value ∷ rest

-- strings.Join
unfoldable pub join_with : String → List String → String
join_with sep [] = ""
join_with sep (part ∷ []) = part
join_with sep (part ∷ next ∷ parts) = part <> sep <> join_with sep (next ∷ parts)

unfoldable pub contains_string : List String → String → Bool
contains_string [] target = false
contains_string (value ∷ values) target =
    let rest = contains_string values target in if value == target then true else rest

-- strings.Contains
unfoldable pub contains_text : String → String → Bool
contains_text part String.[] = has_prefix part ""
contains_text part (String.◌∷◌ c s) =
    let rest = contains_text part s in if has_prefix part (String.◌∷◌ c s) then true else rest

-- A byte of a text; one of a character beyond ASCII fails the test as its character does.
unfoldable pub is_twitch_login_character : ℕ → Bool
is_twitch_login_character c = eqb c 95 || (leb 97 c && leb c 122) || (leb 48 c && leb c 57)

-- What follows an occurrence does not go on with a login.
abbrev pub ends_login : String → Bool
ends_login String.[] = true
ends_login (String.◌∷◌ c s) = not (is_twitch_login_character (code c))

abbrev pub tail_text : String → String
tail_text String.[] = ""
tail_text (String.◌∷◌ c s) = s

-- The loop of containsMention: past an occurrence that a login goes on, the search continues at its
-- end. Each round takes a character at least.
unfoldable pub mention_within : ℕ → String → String → Bool
mention_within zero needle s = false
mention_within (suc fuel) needle s =
    let next = mention_within fuel needle (tail_text s) in
    elim (cut_prefix needle s) [
      | none ↦ if s == "" then false else next
      | some rest ↦ if ends_login rest then true else mention_within fuel needle rest
    ]

-- `strings.ToLower` and `strings.EqualFold`, which stand on the tables of Unicode, are parameters.
module _ (to_lower : String → String) (equal_fold : String → String → Bool) where
  unfoldable pub contains_mention : String → String → Bool
  contains_mention s login =
      if trim_space login == ""
      then false
      else mention_within (suc (byte_length (to_lower s))) ("@" <> to_lower (trim_space login))
          (to_lower s)

  unfoldable pub contains_any_phrase : String → List String → Bool
  contains_any_phrase s [] = false
  contains_any_phrase s (phrase ∷ phrases) =
      let rest = contains_any_phrase s phrases in
      if not (trim_space phrase == "") && contains_text (to_lower (trim_space phrase)) (to_lower s)
      then true
      else rest

  unfoldable pub contains_fold : List String → String → Bool
  contains_fold [] target = false
  contains_fold (value ∷ values) target =
      let rest = contains_fold values target in
      if equal_fold (trim_space value) (trim_space target) then true else rest
