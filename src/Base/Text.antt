-- ===== src/Base/Text.antt =====
-- Texts: `strings.TrimSpace` and the order of `sort.Strings`.
use Prim.Native.Char.{Char, code}
use Prim.Native.String.{String, slice, ◌++◌ as ◌<>◌}
use Prim.Native.Nat.{ℕ, zero, suc, ◌+◌, ◌/◌, ◌%◌}
use mathlib.Core.Path.{◌≡◌, refl, ap}
use mathlib.Core.List.{List, [], ◌∷◌, ◌++◌}
use mathlib.Core.Option.{Option, none, some}
use mathlib.Core.Logic.{inl, inr}
use mathlib.Core.Bool.{Bool, true, false, ◌&&◌, ◌||◌}
use native.Mathlib.Omega.{arith}
use text.Mathlib.TextLemmas.{nil-append, cons-append}
use text.Mathlib.Text.{◌==◌}
use ferventio_backend.Base.Tests.{ltb, leb, eqb, if◌then◌else◌, Bool-cases, is_some}

-- `unicode.IsSpace`: the code points with the property White_Space.
unfoldable pub is_space : Char → Bool
is_space c =
    (leb 9 (code c) && leb (code c) 13)
    || eqb (code c) 32
    || eqb (code c) 0x85
    || eqb (code c) 0xa0
    || eqb (code c) 0x1680
    || (leb 0x2000 (code c) && leb (code c) 0x200a)
    || eqb (code c) 0x2028
    || eqb (code c) 0x2029
    || eqb (code c) 0x202f
    || eqb (code c) 0x205f
    || eqb (code c) 0x3000

unfoldable pub trim_left : String → String
trim_left String.[] = ""
trim_left (String.◌∷◌ c s) = if is_space c then trim_left s else String.◌∷◌ c s

unfoldable pub trim_right : String → String
trim_right String.[] = ""
trim_right (String.◌∷◌ c s) =
    let rest = trim_right s in if is_space c && rest == "" then "" else String.◌∷◌ c rest

unfoldable pub trim_space : String → String
unfolding trim_left trim_right is_space
trim_space s = trim_left (trim_right s)

-- `strings.Trim` with a set of characters.
unfoldable pub trim_left_by : (Char → Bool) → String → String
trim_left_by p String.[] = ""
trim_left_by p (String.◌∷◌ c s) =
    let rest = trim_left_by p s in if p c then rest else String.◌∷◌ c s

unfoldable pub trim_right_by : (Char → Bool) → String → String
trim_right_by p String.[] = ""
trim_right_by p (String.◌∷◌ c s) =
    let rest = trim_right_by p s in if p c && rest == "" then "" else String.◌∷◌ c rest

unfoldable pub trim_by : (Char → Bool) → String → String
unfolding trim_left_by trim_right_by
trim_by p s = trim_left_by p (trim_right_by p s)

-- The first of the parts gains a character.
abbrev pub cons_part : Char → List String → List String
cons_part c [] = String.◌∷◌ c "" ∷ []
cons_part c (part ∷ parts) = String.◌∷◌ c part ∷ parts

-- `strings.Split` at a character.
unfoldable pub split_at : Char → String → List String
split_at d String.[] = "" ∷ []
split_at d (String.◌∷◌ c s) =
    let rest = split_at d s in if eqb (code c) (code d) then "" ∷ rest else cons_part c rest

pub split_at-cons :
    (d : Char) (s : String) → (h : String) × (t : List String) × (split_at d s ≡ h ∷ t)
unfolding split_at
split_at-cons d String.[] = ("", [], refl)
split_at-cons d (String.◌∷◌ c s) = elim (Bool-cases (eqb (code c) (code d))) [
  | inl e ↦ ("", split_at d s, rw (e, if◌then◌else◌))
  | inr e ↦
      let (h, t, q) = split_at-cons d s in (String.◌∷◌ c h, t, rw (e, if◌then◌else◌, q, cons_part))
]

cons_part-append :
    (c : Char) (h : String) (t parts : List String)
    → cons_part c ((h ∷ t) ++ parts) ≡ cons_part c (h ∷ t) ++ parts
cons_part-append c h t parts = refl

split_at_hit :
    (d c : Char) (s : String)
    → eqb (code c) (code d) ≡ true
    → split_at d (String.◌∷◌ c s) ≡ "" ∷ split_at d s
unfolding split_at
split_at_hit d c s e = rw (e, if◌then◌else◌)

-- A separator splits a text in two.
pub split_at-append :
    (d : Char) (s t : String) → split_at d (s <> String.◌∷◌ d t) ≡ split_at d s ++ split_at d t
unfolding split_at
split_at-append d String.[] t = rw (nil-append (String.◌∷◌ d t)) (split_at_hit d d t (ground arith))
split_at-append d (String.◌∷◌ c s) t =
    let (h, r, q) = split_at-cons d s in
    elim (Bool-cases (eqb (code c) (code d))) [
      | inl e ↦
          rw (cons-append c s (String.◌∷◌ d t), split_at, e, if◌then◌else◌)
            (ap (λ x. "" ∷ x) (split_at-append d s t))
      | inr e ↦
          rw
            (cons-append c s (String.◌∷◌ d t), split_at, e, if◌then◌else◌, split_at-append d s t, q)
    ]

-- `strings.CutPrefix`: what follows the prefix, if it is there.
unfoldable pub cut_prefix : String → String → Option String
cut_prefix String.[] s = some s
cut_prefix (String.◌∷◌ c p) String.[] = none
cut_prefix (String.◌∷◌ c p) (String.◌∷◌ d s) =
    let rest = cut_prefix p s in if eqb (code c) (code d) then rest else none

-- `strings.HasPrefix`
unfoldable pub has_prefix : String → String → Bool
unfolding cut_prefix
has_prefix p s = is_some (cut_prefix p s)

-- `len` of a text: its UTF-8 bytes.
unfoldable pub byte_length : String → ℕ
byte_length String.[] = 0
byte_length (String.◌∷◌ c s) =
    (if ltb (code c) 0x80
      then 1
      else if ltb (code c) 0x800
      then 2
      else if ltb (code c) 0x10000
      then 3
      else 4)
    + byte_length s

-- `<` on texts. The order of UTF-8 bytes is that of code points.
abbrev pub str_lt : String → String → Bool
str_lt String.[] String.[] = false
str_lt String.[] (String.◌∷◌ d t) = true
str_lt (String.◌∷◌ c s) String.[] = false
str_lt (String.◌∷◌ c s) (String.◌∷◌ d t) =
    let rest = str_lt s t in
    if ltb (code c) (code d) then true else if ltb (code d) (code c) then false else rest

pub str_lt_asym : (s t : String) → str_lt s t ≡ true → str_lt t s ≡ false
str_lt_asym String.[] String.[] h = refl
str_lt_asym String.[] (String.◌∷◌ d t) h = refl
str_lt_asym (String.◌∷◌ c s) String.[] h = cc
str_lt_asym (String.◌∷◌ c s) (String.◌∷◌ d t) h = ground (arith, str_lt_asym s t)

-- What is not below is transitive: the order is total up to ties.
pub str_lt_ge_trans :
    (s t u : String) → str_lt t s ≡ false → str_lt u t ≡ false → str_lt u s ≡ false
str_lt_ge_trans String.[] String.[] String.[] h k = refl
str_lt_ge_trans String.[] t (String.◌∷◌ e u) h k = refl
str_lt_ge_trans String.[] (String.◌∷◌ d t) String.[] h k = refl
str_lt_ge_trans (String.◌∷◌ c s) String.[] u h k = ground arith
str_lt_ge_trans (String.◌∷◌ c s) (String.◌∷◌ d t) String.[] h k = ground arith
str_lt_ge_trans (String.◌∷◌ c s) (String.◌∷◌ d t) (String.◌∷◌ e u) h k =
    ground (arith, str_lt_ge_trans s t u)

trim_space_test : trim_space " \tpe 1\n" ≡ "pe 1"
unfolding trim_space
trim_space_test = refl

abbrev pub digit : ℕ → String
digit n = slice "0123456789" n (n + 1)

unfoldable pub decimal_within : ℕ → ℕ → String
decimal_within zero n = ""
decimal_within (suc fuel) n =
    let rest = decimal_within fuel (n / 10) in if ltb n 10 then digit n else rest <> digit (n % 10)

-- `%d` of fmt. A number has fewer digits than it counts.
unfoldable pub decimal : ℕ → String
unfolding decimal_within
decimal n = decimal_within (suc n) n

decimal_test : decimal 1_204 ≡ "1204"
unfolding decimal
decimal_test = refl
