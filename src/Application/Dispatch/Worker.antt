-- ===== src/Application/Dispatch/Worker.antt =====
-- internal/application/eventsub.go: handleQueuedEventSub, what a worker does with a message of the queue.
-- A call does not panic, so what the deferred function does with a recovered value has no model.
use ferventio_backend.Base.{
  ◌≡◌, ◌⊎◌, refl, ap, ◌∙◌, String, false, Option, none, some, inl, inr, Option-cases, Bool-cases,
  if◌then◌else◌,
}
use ferventio_backend.Base.GoMap.{get, has, get-delete_self, get-put_self, has_of_none}
use ferventio_backend.Domain.Clock.{Time}
use ferventio_backend.Domain.Delivery.{EventSubInboxRecord}
use ferventio_backend.Domain.EventSub.{EventSubEnvelope}
use ferventio_backend.Memory.Delivery.{DeliveryStore}
use ferventio_backend.Memory.Delivery.Inbox.{complete_event_sub, mark_event_sub_failed, failed_item}
use ferventio_backend.Memory.Registrations.{RegistrationStore}
use ferventio_backend.Application.EventSub.Queue.{EventQueue, release_event_sub, finish}
use ferventio_backend.Application.Dispatch.{
  DispatchState, Outside, audit_event, process_event_sub_notification,
}

pub record WorkerState : Type 0 where
  pub queue : EventQueue
  pub dispatch : DispatchState

completed_gone :
    (id : String) (now : Time) (d : DeliveryStore)
    → get id (complete_event_sub id now d).0.event_sub_inbox ≡ none
unfolding complete_event_sub
completed_gone id now d = elim (Option-cases (get id d.event_sub_inbox)) [
  | inr (r, e) ↦ rw (complete_event_sub, e) (get-delete_self id d.event_sub_inbox)
  | inl e ↦ elim (Bool-cases (has id d.seen)) [
    | inl k ↦ rw (complete_event_sub, e, k, if◌then◌else◌) e
    | inr k ↦ rw (complete_event_sub, e, k, if◌then◌else◌) e
  ]
]

finish-released : (id : String) (q : EventQueue) → has id (finish id q).event_in_flight ≡ false
unfolding finish release_event_sub
finish-released id q = has_of_none id _ (get-delete_self id q.event_in_flight)

module _ (o : Outside) where
  abbrev pub with_deliveries : DeliveryStore → DispatchState → DispatchState
  with_deliveries d s = record s { deliveries = d }

  -- After the processing: the store gets the outcome, an error or none.
  unfoldable pub save_outcome : String → Option String → Time → WorkerState → WorkerState
  save_outcome message_id (some error) now s =
      let (d, unsaved) = mark_event_sub_failed message_id (some error) now s.dispatch.deliveries in
      record s {
        dispatch = audit_event "failed" message_id "" error (with_deliveries d s.dispatch);
      }
  save_outcome message_id none now s =
      let (d, unsaved) = complete_event_sub message_id now s.dispatch.deliveries in
      elim unsaved [
        | none ↦ record s { dispatch = with_deliveries d s.dispatch }
        | some e ↦ record s {
          dispatch =
              audit_event "completion_failed" message_id "" (o.store_error e)
                (with_deliveries d s.dispatch);
        }
      ]

  -- The message is processed, then released, and then its outcome is saved.
  unfoldable pub handle_queued_event_sub :
      String → EventSubEnvelope → RegistrationStore → Time → WorkerState → WorkerState
  handle_queued_event_sub message_id envelope registrations now s =
      let (dispatch, failure) =
        process_event_sub_notification o message_id envelope registrations now s.dispatch in
      save_outcome message_id failure now
        (record s { queue = finish message_id s.queue; dispatch = dispatch })

  saved_deliveries :
      (id : String) (now : Time) (s : WorkerState)
      → (save_outcome id none now s).dispatch.deliveries
        ≡ (complete_event_sub id now s.dispatch.deliveries).0
  unfolding save_outcome
  saved_deliveries id now s =
      elim (Option-cases (complete_event_sub id now s.dispatch.deliveries).1) [
        | inl e ↦ rw (save_outcome, e) refl
        | inr (x, e) ↦ rw (save_outcome, e) refl
      ]

  saved_queue :
      (id : String) (failure : Option String) (now : Time) (s : WorkerState)
      → (save_outcome id failure now s).queue ≡ s.queue
  unfolding save_outcome
  saved_queue id (some error) now s = refl
  saved_queue id none now s =
      elim (Option-cases (complete_event_sub id now s.dispatch.deliveries).1) [
        | inl e ↦ rw (save_outcome, e) refl
        | inr (x, e) ↦ rw (save_outcome, e) refl
      ]

  saved_some :
      (id error : String) (now : Time) (s : WorkerState) (r : EventSubInboxRecord)
      → get id s.dispatch.deliveries.event_sub_inbox ≡ some r
      → get id (save_outcome id (some error) now s).dispatch.deliveries.event_sub_inbox
        ≡ some (failed_item (some error) now r)
  unfolding save_outcome mark_event_sub_failed
  saved_some id error now s r e =
      rw (mark_event_sub_failed, e)
        (get-put_self id (failed_item (some error) now r) s.dispatch.deliveries.event_sub_inbox)

  -- When a worker is done with a message, the message is no longer in flight. If its processing had no
  -- error, it is no longer in the inbox. If it failed, an item that the processing left in the inbox
  -- stays there, as MarkEventSubFailed rewrites it with that error.
  pub handled_is_settled :
      (id : String) (envelope : EventSubEnvelope) (registrations : RegistrationStore) (now : Time)
      (s : WorkerState)
      → let (d, failure) =
          process_event_sub_notification o id envelope registrations now s.dispatch in
        let s' = handle_queued_event_sub id envelope registrations now s in
        (has id s'.queue.event_in_flight ≡ false)
        × (((failure ≡ none) × (get id s'.dispatch.deliveries.event_sub_inbox ≡ none))
            ⊎ ((error : String) × (failure ≡ some error)
                × ((r : EventSubInboxRecord)
                    → get id d.deliveries.event_sub_inbox ≡ some r
                    → get id s'.dispatch.deliveries.event_sub_inbox
                      ≡ some (failed_item (some error) now r))))
  unfolding handle_queued_event_sub
  handled_is_settled id envelope registrations now s =
      let (d, failure) =
        process_event_sub_notification o id envelope registrations now s.dispatch in
      let mid : WorkerState = record { queue = finish id s.queue; dispatch = d } in
      (
        ap (λ q. has id q.event_in_flight) (saved_queue id failure now mid)
            ∙ finish-released id s.queue,
        elim (Option-cases failure) [
          | inl e ↦ inl (
            e,
            rw e (
                ap (λ x. get id x.event_sub_inbox) (saved_deliveries id now mid)
                ∙ completed_gone id now d.deliveries),
          )
          | inr (error, e) ↦ inr (error, e, λ r found. rw e (saved_some id error now mid r found))
        ],
      )
