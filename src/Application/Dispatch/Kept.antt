-- ===== src/Application/Dispatch/Kept.antt =====
-- internal/application/eventsub.go: the processing of an event keeps the store of deliveries well-formed.
use ferventio_backend.Base.{
  ℕ, String, not, ◌&&◌, inl, inr, Option, none, some, List, [], ◌∷◌, ◌==◌, if◌then◌else◌,
  Bool-cases, Option-cases, Result-cases,
}
use ferventio_backend.Domain.Clock.{Time}
use ferventio_backend.Domain.EventSub.{EventSubEnvelope}
use ferventio_backend.Memory.Delivery.Channels.{Changes, channel_state_changes, save_channel_state}
use ferventio_backend.Memory.Delivery.Run.{
  IsWellFormed, step, step-IsWellFormed, enqueue_call, mark_sent_call, mark_failed_call, ack_call,
  save_channel_state_call,
}
use ferventio_backend.Memory.Registrations.{RegistrationStore, list_registrations}
use ferventio_backend.Application.EventSub.Values.{Event, string_value}
use ferventio_backend.Application.Dispatch.{
  DispatchState, Outside, conclude, deliver_all, with_changes, process_changes,
  process_event_sub_notification,
}
use ferventio_backend.Application.Dispatch.Steps.{deliver_all-keeps}

module _ (o : Outside) where
  -- The loop over every registration.
  abbrev pub to_all :
      String
      → String
      → Event
      → RegistrationStore
      → Time
      → DispatchState
      → DispatchState × ℕ × List String
  to_all id type_name event registrations now s =
      deliver_all o id type_name event (list_registrations registrations) registrations now s

  deliver_all-IsWellFormed :
      (id type_name : String) (event : Event) (registrations : RegistrationStore) (now : Time)
      (s : DispatchState)
      → IsWellFormed s.deliveries
      → IsWellFormed (to_all id type_name event registrations now s).0.deliveries
  unfolding step
  deliver_all-IsWellFormed id type_name event registrations now s =
      deliver_all-keeps o IsWellFormed (λ r t d w. step-IsWellFormed d (enqueue_call r t) w)
        (λ i t d w. step-IsWellFormed d (mark_sent_call i t) w)
        (λ i f t d w. step-IsWellFormed d (mark_failed_call i f t) w)
        (λ i e t d w. step-IsWellFormed d (ack_call i e t) w) id type_name event
        (list_registrations registrations) registrations now s

  conclude-IsWellFormed :
      (id type_name : String) (change : Option (String × String × String)) (now : Time)
      (r : DispatchState × ℕ × List String)
      → IsWellFormed r.0.deliveries
      → IsWellFormed (conclude o id type_name change now r).0.deliveries
  unfolding conclude step
  conclude-IsWellFormed id type_name change now (s, matched, e ∷ errors) w = w
  conclude-IsWellFormed id type_name none now (s, matched, []) w = w
  conclude-IsWellFormed id type_name (some (c, t, g)) now (s, matched, []) w =
      let saved = step-IsWellFormed s.deliveries (save_channel_state_call c t g now) w in
      elim (Option-cases (save_channel_state c t g now s.deliveries).1) [
        | inl e ↦ rw (conclude, e) saved
        | inr (x, e) ↦ rw (conclude, e) saved
      ]

  process_changes-IsWellFormed :
      (id : String) (envelope : EventSubEnvelope) (changes : Changes)
      (registrations : RegistrationStore) (now : Time) (s : DispatchState)
      → IsWellFormed s.deliveries
      → IsWellFormed (process_changes o id envelope changes registrations now s).0.deliveries
  unfolding process_changes step
  process_changes-IsWellFormed id envelope changes registrations now s w =
      let c = string_value envelope.event "broadcaster_user_id" in
      let t = string_value envelope.event "title" in
      let g = string_value envelope.event "category_name" in
      let saved = step-IsWellFormed s.deliveries (save_channel_state_call c t g now) w in
      elim (Bool-cases changes.initialized) [
        | inl i ↦ elim (Option-cases (save_channel_state c t g now s.deliveries).1) [
          | inl e ↦ rw (process_changes, i, e) saved
          | inr (x, e) ↦ rw (process_changes, i, e) saved
        ]
        | inr i ↦ elim (Bool-cases (not changes.title_changed && not changes.game_changed)) [
          | inl e ↦ rw (i, e, if◌then◌else◌) w
          | inr e ↦
              rw (i, e, if◌then◌else◌)
                (conclude-IsWellFormed id _ (some (c, t, g)) now _ (
                  deliver_all-IsWellFormed id _ (with_changes changes envelope.event) registrations
                    now s w))
        ]
      ]

  -- The processing of an event keeps the store of deliveries well-formed, whatever the sockets, the sender
  -- of pushes and the random tokens do.
  pub process-IsWellFormed :
      (id : String) (envelope : EventSubEnvelope) (registrations : RegistrationStore) (now : Time)
      (s : DispatchState)
      → IsWellFormed s.deliveries
      → IsWellFormed (process_event_sub_notification o id envelope registrations now s).0.deliveries
  unfolding process_event_sub_notification
  process-IsWellFormed id envelope registrations now s w =
      let c = string_value envelope.event "broadcaster_user_id" in
      let t = string_value envelope.event "title" in
      let g = string_value envelope.event "category_name" in
      elim (Bool-cases (envelope.subscription.type_name == "channel.update")) [
        | inr e ↦
            rw (e, if◌then◌else◌)
              (conclude-IsWellFormed id _ none now _
                (deliver_all-IsWellFormed id _ envelope.event registrations now s w))
        | inl e ↦ elim (Result-cases (channel_state_changes c t g s.deliveries)) [
          | inl (x, q) ↦ rw (process_event_sub_notification, e, q) w
          | inr (changes, q) ↦
              rw (process_event_sub_notification, e, q)
                (process_changes-IsWellFormed id envelope changes registrations now s w)
        ]
      ]
