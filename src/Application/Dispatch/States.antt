-- ===== src/Application/Dispatch/States.antt =====
-- internal/application/eventsub.go: when the processing of an event saves the state of a channel.
use ferventio_backend.Base.{
  ℕ, ◌≡◌, refl, ◌∙◌, ap, String, Bool, true, false, not, ◌&&◌, inl, inr, Option, none, some, List,
  [], ◌∷◌, arith, ◌==◌, eq_refl, if◌then◌else◌, Bool-cases, Option-cases, ok, Result-cases,
}
use ferventio_backend.Base.GoMap.{get-put_self}
use ferventio_backend.Domain.Clock.{Time}
use ferventio_backend.Domain.EventSub.{EventSubEnvelope}
use ferventio_backend.Memory.Delivery.{DeliveryStore, DeliveryError}
use ferventio_backend.Memory.Delivery.Channels.Kept.{
  enqueue-channels, sent-channels, failed-channels, ack-channels,
}
use ferventio_backend.Memory.Delivery.Channels.{Changes, channel_state_changes, save_channel_state}
use ferventio_backend.Memory.Registrations.{RegistrationStore, list_registrations}
use ferventio_backend.Application.EventSub.Values.{Event, string_value}
use ferventio_backend.Application.Dispatch.{
  DispatchState, Outside, conclude, with_changes, process_changes, process_event_sub_notification,
}
use ferventio_backend.Application.Dispatch.Kept.{to_all}
use ferventio_backend.Application.Dispatch.Steps.{deliver_all-keeps}

-- Nothing has changed.
abbrev pub no_changes : Changes
no_changes = record { title_changed = false; game_changed = false; initialized = false }

-- A save that fails changes nothing, and one that does not is found.
save_failed :
    (c t g : String) (now : Time) (s : DeliveryStore) (e : DeliveryError)
    → (save_channel_state c t g now s).1 ≡ some e
    → (save_channel_state c t g now s).0 ≡ s
unfolding save_channel_state
save_failed c t g now s e h = elim (Bool-cases (c == "")) [
  | inl q ↦ rw (q, if◌then◌else◌)
  | inr q ↦ cc (rw (save_channel_state, q, if◌then◌else◌) at h)
]

changes-named :
    (c t g : String) (s : DeliveryStore) (changes : Changes)
    → channel_state_changes c t g s ≡ ok changes
    → (c == "") ≡ false
unfolding channel_state_changes
changes-named c t g s changes h = ground arith

saved_lem :
    (c t g : String) (now : Time) (s : DeliveryStore)
    → (c == "") ≡ false
    → channel_state_changes c t g (save_channel_state c t g now s).0 ≡ ok no_changes
unfolding channel_state_changes save_channel_state
saved_lem c t g now s e =
    rw (e, if◌then◌else◌, get-put_self c _ s.channel_states, eq_refl t, eq_refl g)

no_changes_lem :
    (a b i : Bool)
    → (not a && not b) ≡ true
    → i ≡ false
    → record { title_changed = a; game_changed = b; initialized = i } ≡ no_changes
no_changes_lem true b i h k = cc
no_changes_lem false true i h k = cc
no_changes_lem false false i h k = rw k

module _ (o : Outside) where
  deliver_all-channels :
      (id type_name : String) (event : Event) (registrations : RegistrationStore) (now : Time)
      (s : DispatchState)
      → (to_all o id type_name event registrations now s).0.deliveries.channel_states
        ≡ s.deliveries.channel_states
  deliver_all-channels id type_name event registrations now s =
      deliver_all-keeps o (λ d. d.channel_states ≡ s.deliveries.channel_states)
        (λ r t d e. enqueue-channels r t d ∙ e) (λ i t d e. sent-channels i t d ∙ e)
        (λ i f t d e. failed-channels i f t d ∙ e) (λ i e' t d e. ack-channels i e' t d ∙ e) id
        type_name event (list_registrations registrations) registrations now s refl

  conclude-channels :
      (id type_name : String) (change : Option (String × String × String)) (now : Time)
      (r : DispatchState × ℕ × List String) (error : String)
      → (conclude o id type_name change now r).1 ≡ some error
      → (conclude o id type_name change now r).0.deliveries.channel_states
        ≡ r.0.deliveries.channel_states
  unfolding conclude
  conclude-channels id type_name change now (s, matched, e ∷ errors) error h = refl
  conclude-channels id type_name none now (s, matched, []) error h = cc
  conclude-channels id type_name (some (c, t, g)) now (s, matched, []) error h =
      elim (Option-cases (save_channel_state c t g now s.deliveries).1) [
        | inl e ↦ cc (rw (conclude, e) at h)
        | inr (x, e) ↦
            rw (conclude, e) (ap (λ d. d.channel_states) (save_failed c t g now s.deliveries x e))
      ]

  -- An event whose processing fails leaves the state of every channel as it was, so that the next attempt
  -- sees the same change.
  pub failed_event_keeps_channels :
      (id : String) (envelope : EventSubEnvelope) (registrations : RegistrationStore) (now : Time)
      (s : DispatchState) (error : String)
      → (process_event_sub_notification o id envelope registrations now s).1 ≡ some error
      → (process_event_sub_notification o id envelope registrations now
          s).0.deliveries.channel_states
        ≡ s.deliveries.channel_states
  unfolding process_event_sub_notification process_changes
  failed_event_keeps_channels id envelope registrations now s error h =
      let c = string_value envelope.event "broadcaster_user_id" in
      let t = string_value envelope.event "title" in
      let g = string_value envelope.event "category_name" in
      let type_name = envelope.subscription.type_name in
      elim (Bool-cases (type_name == "channel.update")) [
        | inr e ↦
            rw (e, if◌then◌else◌)
              (conclude-channels id type_name none now _ error
                  (rw (process_event_sub_notification, e, if◌then◌else◌) at h)
                ∙ deliver_all-channels id type_name envelope.event registrations now s)
        | inl e ↦ elim (Result-cases (channel_state_changes c t g s.deliveries)) [
          | inl (x, q) ↦ rw (process_event_sub_notification, e, q)
          | inr (changes, q) ↦ elim (Bool-cases changes.initialized) [
            | inl i ↦ elim (Option-cases (save_channel_state c t g now s.deliveries).1) [
              | inl f ↦ cc (rw (process_event_sub_notification, e, q, process_changes, i, f) at h)
              | inr (x, f) ↦
                  rw (process_event_sub_notification, e, q, process_changes, i, f)
                    (ap (λ d. d.channel_states) (save_failed c t g now s.deliveries x f))
            ]
            | inr i ↦ elim (Bool-cases (not changes.title_changed && not changes.game_changed)) [
              | inl u ↦ cc (rw (process_event_sub_notification, e, q, process_changes, i, u) at h)
              | inr u ↦
                  rw (process_event_sub_notification, e, q, process_changes, i, u)
                    (conclude-channels id type_name (some (c, t, g)) now _ error
                        (rw (process_event_sub_notification, e, q, process_changes, i, u) at h)
                      ∙ deliver_all-channels id type_name (with_changes changes envelope.event)
                          registrations now s)
            ]
          ]
        ]
      ]

  conclude-saved :
      (id type_name c t g : String) (now : Time) (r : DispatchState × ℕ × List String)
      → (c == "") ≡ false
      → (conclude o id type_name (some (c, t, g)) now r).1 ≡ none
      → channel_state_changes c t g (conclude o id type_name (some (c, t, g)) now r).0.deliveries
        ≡ ok no_changes
  unfolding conclude
  conclude-saved id type_name c t g now (s, matched, e ∷ errors) named h = cc
  conclude-saved id type_name c t g now (s, matched, []) named h =
      elim (Option-cases (save_channel_state c t g now s.deliveries).1) [
        | inl e ↦ rw (conclude, e) (saved_lem c t g now s.deliveries named)
        | inr (x, e) ↦ cc (rw (conclude, e) at h)
      ]

  unchanged_update :
      (id : String) (envelope : EventSubEnvelope) (registrations : RegistrationStore) (now : Time)
      (s : DispatchState)
      → (envelope.subscription.type_name == "channel.update") ≡ true
      → channel_state_changes
          (string_value envelope.event "broadcaster_user_id")
          (string_value envelope.event "title")
          (string_value envelope.event "category_name")
          s.deliveries
        ≡ ok no_changes
      → let (s', failed) = process_event_sub_notification o id envelope registrations now s in
        (failed ≡ none) × (s'.deliveries ≡ s.deliveries) × (s'.hub ≡ s.hub)
  unfolding process_event_sub_notification process_changes
  unchanged_update id envelope registrations now s e q =
      rw (process_event_sub_notification, e, q, process_changes) (refl, refl, refl)

  -- Once a channel's update is processed with no error, its title and category are the state of the
  -- channel: the same update is no change.
  processed_change_is_saved :
      (id : String) (envelope : EventSubEnvelope) (registrations : RegistrationStore) (now : Time)
      (s : DispatchState)
      → (envelope.subscription.type_name == "channel.update") ≡ true
      → (process_event_sub_notification o id envelope registrations now s).1 ≡ none
      → channel_state_changes
          (string_value envelope.event "broadcaster_user_id")
          (string_value envelope.event "title")
          (string_value envelope.event "category_name")
          (process_event_sub_notification o id envelope registrations now s).0.deliveries
        ≡ ok no_changes
  unfolding process_event_sub_notification process_changes
  processed_change_is_saved id envelope registrations now s e h =
      let c = string_value envelope.event "broadcaster_user_id" in
      let t = string_value envelope.event "title" in
      let g = string_value envelope.event "category_name" in
      elim (Result-cases (channel_state_changes c t g s.deliveries)) [
        | inl (x, q) ↦ cc (rw (process_event_sub_notification, e, q) at h)
        | inr (changes, q) ↦
            let named = changes-named c t g s.deliveries changes q in
            elim (Bool-cases changes.initialized) [
              | inl i ↦ elim (Option-cases (save_channel_state c t g now s.deliveries).1) [
                | inl f ↦
                    rw (process_event_sub_notification, e, q, process_changes, i, f)
                      (saved_lem c t g now s.deliveries named)
                | inr (x, f) ↦
                    cc (rw (process_event_sub_notification, e, q, process_changes, i, f) at h)
              ]
              | inr i ↦ elim (Bool-cases (not changes.title_changed && not changes.game_changed)) [
                | inl u ↦
                    rw (process_event_sub_notification, e, q, process_changes, i, u)
                      (q
                        ∙ ap ok (
                            no_changes_lem changes.title_changed changes.game_changed
                              changes.initialized u i))
                | inr u ↦
                    rw (process_event_sub_notification, e, q, process_changes, i, u)
                      (conclude-saved id _ c t g now _ named
                        (rw (process_event_sub_notification, e, q, process_changes, i, u) at h))
              ]
            ]
      ]

  -- Once a channel's update is processed with no error, the same update again, as any message, at any
  -- time and for any registrations, is processed with no error, and changes neither the deliveries
  -- nor the sockets: nobody is notified of it again.
  pub processed_change_notifies_once :
      (id again : String) (envelope : EventSubEnvelope) (registrations others : RegistrationStore)
      (now later : Time) (s : DispatchState)
      → (envelope.subscription.type_name == "channel.update") ≡ true
      → (process_event_sub_notification o id envelope registrations now s).1 ≡ none
      → let s' = (process_event_sub_notification o id envelope registrations now s).0 in
        let (s'', failed) = process_event_sub_notification o again envelope others later s' in
        (failed ≡ none) × (s''.deliveries ≡ s'.deliveries) × (s''.hub ≡ s'.hub)
  processed_change_notifies_once id again envelope registrations others now later s e h =
      unchanged_update again envelope others later _ e
        (processed_change_is_saved id envelope registrations now s e h)
