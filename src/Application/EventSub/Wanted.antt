-- ===== src/Application/EventSub/Wanted.antt =====
-- internal/application/eventsub.go: what holds of a notification that a registration gets.

use ferventio_backend.Base.{
  ℕ, ◌<◌, ◌≡◌, refl, subst, ap, String, Bool, true, false, not, ◌&&◌, ◌||◌, ◌⊎◌, inl, inr, Option,
  none, some, arith, lt→ltb, ◌==◌, eq_iff, if◌then◌else◌, Bool-cases, Option-cases, and_right,
}
use ferventio_backend.Base.Text.{trim_space}
use ferventio_backend.Domain.Delivery.{Notification}
use ferventio_backend.Domain.Registration.{Registration}
use ferventio_backend.Application.EventSub.Values.{
  Event, nested_string, string_value, contains_string, bool_value,
}
use ferventio_backend.Application.EventSub.Rules.{rule_enabled_for_channel, muted_until}
use ferventio_backend.Application.EventSub.Routing.{
  channel_of, if_wanted, with_body, auto_mod_notification, ban_notification, moderate_notification,
  online_notification, changed_notification, update_notification, raid_notification,
  reward_notification, subscription_notification, is_subscription_event, base_notification,
  chat_kind, chat_message_notification, typed_notification, event_notification_for_registration,
}

-- A notification of the base's event and channel, whose rule the registration has enabled there.
pub record IsWanted (now : ℕ) (r : Registration) (base n : Notification) : Type 0 where
  pub enabled : rule_enabled_for_channel now r n.type_name n.channel_id ≡ true
  pub same_channel : n.channel_id ≡ base.channel_id
  pub same_event : n.event_id ≡ base.event_id

-- What holds of a notification, if there is one.
data AllOf {A : Type 0} (P : A → Type 0) : Option A → Type 0 where
  nothing : AllOf P none
  just : (a : A) → P a → AllOf P (some a)

some_inj : {A : Type 0} (a b : A) → some a ≡ some b → a ≡ b
some_inj a b e = ap (λ o. elim o [ none ↦ a | some c ↦ c ]) e

all_of : {A : Type 0} (P : A → Type 0) (o : Option A) (b : A) → AllOf P o → o ≡ some b → P b
all_of P none b nothing e = cc
all_of P (some a) b (just _ p) e = subst P (some_inj a b e) p

abbrev AreWanted : ℕ → Registration → Notification → Option Notification → Type 0
AreWanted now r base o = AllOf (IsWanted now r base) o

module _ (now : ℕ) (r : Registration) (base : Notification) where
  if_wanted-AreWanted :
      (n : Notification)
      → n.channel_id ≡ base.channel_id
      → n.event_id ≡ base.event_id
      → AreWanted now r base (if_wanted now r n)
  unfolding if_wanted
  if_wanted-AreWanted n c e =
      elim (Bool-cases (rule_enabled_for_channel now r n.type_name n.channel_id)) [
        | inl on ↦
            rw (on, if◌then◌else◌)
              (just n (record { enabled = on; same_channel = c; same_event = e }))
        | inr off ↦ rw (off, if◌then◌else◌) nothing
      ]

  with_body-AreWanted :
      (o : Option Notification) → AreWanted now r base o → AreWanted now r base (with_body o)
  with_body-AreWanted none h = nothing
  with_body-AreWanted (some n) h = elim (Bool-cases (n.body == "")) [
    | inl e ↦ rw (e, if◌then◌else◌) nothing
    | inr e ↦ rw (e, if◌then◌else◌) h
  ]

  wanted_just :
      (n : Notification)
      → rule_enabled_for_channel now r n.type_name n.channel_id ≡ true
      → n.channel_id ≡ base.channel_id
      → n.event_id ≡ base.event_id
      → AreWanted now r base (some n)
  wanted_just n on c e = just n (record { enabled = on; same_channel = c; same_event = e })

  changed-AreWanted : (event : Event) → AreWanted now r base (changed_notification now r base event)
  unfolding changed_notification
  changed-AreWanted event =
      let title_on = rule_enabled_for_channel now r "title_change" base.channel_id in
      let game_on = rule_enabled_for_channel now r "game_change" base.channel_id in
      let titled = bool_value event "_ferventio_title_changed" in
      let played = bool_value event "_ferventio_game_changed" in
      elim (Bool-cases (titled && title_on)) [
        | inl e ↦ elim (Bool-cases (played && game_on)) [
          | inl f ↦ rw (e, f, if◌then◌else◌) (wanted_just _ (and_right titled title_on e) refl refl)
          | inr f ↦ rw (e, f, if◌then◌else◌) (wanted_just _ (and_right titled title_on e) refl refl)
        ]
        | inr e ↦ elim (Bool-cases (played && game_on)) [
          | inl f ↦ rw (e, f, if◌then◌else◌) (wanted_just _ (and_right played game_on f) refl refl)
          | inr f ↦ rw (e, f, if◌then◌else◌) nothing
        ]
      ]

  update-AreWanted : (event : Event) → AreWanted now r base (update_notification now r base event)
  unfolding update_notification
  update-AreWanted event =
      with_body-AreWanted (changed_notification now r base event) (changed-AreWanted event)

muted_off :
    (now : ℕ) (r : Registration) (rule channel : String)
    → (trim_space channel == "") ≡ false
    → now < muted_until r (trim_space channel)
    → rule_enabled_for_channel now r rule channel ≡ false
unfolding rule_enabled_for_channel
muted_off now r rule channel named later =
    rw (named, lt→ltb now (muted_until r (trim_space channel)) later)

followed :
    (r : Registration) (channel : String)
    → (not (channel == "") && not (contains_string r.channel_ids channel)) ≡ false
    → (channel ≡ "") ⊎ (contains_string r.channel_ids channel ≡ true)
followed r channel e = elim (Bool-cases (channel == "")) [
  | inl q ↦ inl ((eq_iff channel "").0 q)
  | inr q ↦ inr (ground arith)
]

module _ (to_lower : String → String) (equal_fold : String → String → Bool)
    (format : String → String) (now : ℕ) (r : Registration) where
  abbrev AreEnabled : String → Option (String × String) → Type 0
  AreEnabled channel_id o = AllOf (λ k. rule_enabled_for_channel now r k.0 channel_id ≡ true) o

  -- The rule of a chat message is enabled.
  chat_kind-enabled :
      (channel_id : String) (event : Event) (body : String) (k : String × String)
      → chat_kind to_lower equal_fold format now r channel_id event body ≡ some k
      → rule_enabled_for_channel now r k.0 channel_id ≡ true
  unfolding chat_kind
  chat_kind-enabled channel_id event body k h = ground arith

  chat-AreWanted :
      (base : Notification) (event : Event)
      → AreWanted now r base (chat_message_notification to_lower equal_fold format now r base event)
  unfolding chat_message_notification
  chat-AreWanted base event =
      let body = nested_string event "message" "text" in
      let own = not (r.user_id == "") && string_value event "chatter_user_id" == r.user_id in
      let kind = chat_kind to_lower equal_fold format now r base.channel_id event body in
      elim (Bool-cases (body == "" || own)) [
        | inl e ↦ rw (e, if◌then◌else◌) nothing
        | inr e ↦ elim (Option-cases kind) [
          | inl q ↦ rw (e, q, if◌then◌else◌) nothing
          | inr (k, q) ↦
              rw (e, q, if◌then◌else◌)
                (wanted_just now r base _ (chat_kind-enabled base.channel_id event body k q) refl
                  refl)
        ]
      ]

  typed-AreWanted :
      (type_name : String) (base : Notification) (event : Event)
      → AreWanted now r base
          (typed_notification to_lower equal_fold format now type_name r base event)
  unfolding typed_notification auto_mod_notification ban_notification moderate_notification
      online_notification raid_notification reward_notification subscription_notification
  typed-AreWanted type_name base event =
      let plain = if_wanted-AreWanted now r base in
      elim (Bool-cases (type_name == "channel.chat.message")) [
        | inl e0 ↦ rw (e0, if◌then◌else◌) (chat-AreWanted base event)
        | inr e0 ↦ elim (Bool-cases (type_name == "automod.message.hold")) [
          | inl e1 ↦
              rw (e0, e1, if◌then◌else◌)
                (with_body-AreWanted now r base (if_wanted now r (auto_mod_notification base event))
                  (plain (auto_mod_notification base event) refl refl))
          | inr e1 ↦ elim (Bool-cases (type_name == "channel.ban")) [
            | inl e2 ↦
                rw (e0, e1, e2, if◌then◌else◌) (plain (ban_notification base event) refl refl)
            | inr e2 ↦ elim (Bool-cases (type_name == "channel.moderate")) [
              | inl e3 ↦
                  rw (e0, e1, e2, e3, if◌then◌else◌)
                    (plain (moderate_notification base event) refl refl)
              | inr e3 ↦ elim (Bool-cases (type_name == "stream.online")) [
                | inl e4 ↦
                    rw (e0, e1, e2, e3, e4, if◌then◌else◌)
                      (plain (online_notification base event) refl refl)
                | inr e4 ↦ elim (Bool-cases (type_name == "channel.update")) [
                  | inl e5 ↦
                      rw (e0, e1, e2, e3, e4, e5, if◌then◌else◌) (update-AreWanted now r base event)
                  | inr e5 ↦ elim (Bool-cases (type_name == "channel.raid")) [
                    | inl e6 ↦
                        rw (e0, e1, e2, e3, e4, e5, e6, if◌then◌else◌)
                          (plain (raid_notification format base event) refl refl)
                    | inr e6 ↦
                        elim (Bool-cases
                          (type_name == "channel.channel_points_custom_reward_redemption.add")) [
                            | inl e7 ↦
                                rw (e0, e1, e2, e3, e4, e5, e6, e7, if◌then◌else◌)
                                  (plain (reward_notification base event) refl refl)
                            | inr e7 ↦ elim (Bool-cases (is_subscription_event type_name)) [
                              | inl e8 ↦
                                  rw (e0, e1, e2, e3, e4, e5, e6, e7, e8, if◌then◌else◌)
                                    (plain (subscription_notification base event) refl refl)
                              | inr e8 ↦
                                  rw (e0, e1, e2, e3, e4, e5, e6, e7, e8, if◌then◌else◌) nothing
                            ]
                          ]
                  ]
                ]
              ]
            ]
          ]
        ]
      ]

  notification-IsWanted :
      (event_id type_name : String) (event : Event) (n : Notification)
      → event_notification_for_registration to_lower equal_fold format now event_id type_name event
          r
        ≡ some n
      → IsWanted now r (base_notification now event_id event) n
        × ((channel_of event ≡ "") ⊎ (contains_string r.channel_ids (channel_of event) ≡ true))
  unfolding event_notification_for_registration
  notification-IsWanted event_id type_name event n h =
      let channel = channel_of event in
      elim (Bool-cases (not (channel == "") && not (contains_string r.channel_ids channel))) [
        | inl e ↦ cc (rw (event_notification_for_registration, e, if◌then◌else◌) at h)
        | inr e ↦
            let base = base_notification now event_id event in
            (
              all_of (IsWanted now r base) _ n (typed-AreWanted type_name base event)
                  (rw (event_notification_for_registration, e, if◌then◌else◌) at h),
              followed r channel e,
            )
      ]

  -- Each notification that an event gives to a registration is of this event, and of a channel that the
  -- registration follows, or of no channel; and its type is a rule that the registration has enabled
  -- for the channel, which is not muted there now.
  pub notification_is_wanted :
      (event_id type_name : String) (event : Event) (n : Notification)
      → event_notification_for_registration to_lower equal_fold format now event_id type_name event
          r
        ≡ some n
      → (n.event_id ≡ event_id)
        × (rule_enabled_for_channel now r n.type_name n.channel_id ≡ true)
        × ((n.channel_id ≡ "") ⊎ (contains_string r.channel_ids n.channel_id ≡ true))
  notification_is_wanted event_id type_name event n h =
      let w = notification-IsWanted event_id type_name event n h in
      (w.0.same_event, w.0.enabled, rw w.0.same_channel w.1)

  -- While a channel is muted, no event of it gives the registration a notification.
  muted_channel_silent :
      (event_id type_name : String) (event : Event)
      → (trim_space (channel_of event) == "") ≡ false
      → now < muted_until r (trim_space (channel_of event))
      → event_notification_for_registration to_lower equal_fold format now event_id type_name event
          r
        ≡ none
  muted_channel_silent event_id type_name event named later =
      elim (Option-cases (
        event_notification_for_registration to_lower equal_fold format now event_id type_name event
          r)) [
            | inl e ↦ e
            | inr (n, e) ↦ absurd (
                let w = (notification-IsWanted event_id type_name event n e).0 in
                cc (
                  rw w.same_channel at w.enabled,
                  muted_off now r n.type_name (channel_of event) named later,
                ))
          ]
