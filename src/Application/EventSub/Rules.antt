-- ===== src/Application/EventSub/Rules.antt =====
-- internal/application/eventsub.go: which notifications a registration wants. The time is that of
-- `time.Now().UTC().UnixMilli()`.
use ferventio_backend.Base.{
  ℕ, String, Bool, true, false, not, ◌&&◌, none, some, List, [], ◌∷◌, ltb, ◌==◌, if◌then◌else◌,
}
use ferventio_backend.Base.Text.{trim_space}
use ferventio_backend.Base.GoMap.{get}
use ferventio_backend.Domain.Registration.{Registration}
use ferventio_backend.Application.EventSub.Values.{contains_string}

abbrev pub is_empty : List String → Bool
is_empty [] = true
is_empty (x ∷ xs) = false

unfoldable pub rule_enabled : Registration → String → Bool
rule_enabled r rule =
    if is_empty r.notification_rules then true else contains_string r.notification_rules rule

-- A map that is nil has no key.
unfoldable pub rule_configured_for_channel : Registration → String → String → Bool
rule_configured_for_channel r rule channel_id =
    let id = trim_space channel_id in
    elim (get id r.notification_channel_rules) [
      | none ↦ rule_enabled r rule
      | some rules ↦ if id == "" then rule_enabled r rule else contains_string rules rule
    ]

abbrev pub muted_until : Registration → String → ℕ
muted_until r id = elim (get id r.notification_channel_muted_until_epoch_millis) [
  | none ↦ 0
  | some until ↦ until
]

unfoldable pub rule_enabled_for_channel : ℕ → Registration → String → String → Bool
rule_enabled_for_channel now r rule channel_id =
    let id = trim_space channel_id in
    if not (id == "") && ltb now (muted_until r id)
    then false
    else rule_configured_for_channel r rule channel_id
