-- ===== src/Memory/Delivery/Inbox/Admission.antt =====
-- internal/storage/memory/delivery_store.go: an EventSub message is admitted once.
use ferventio_backend.Base.{
  ◌*◌, ◌≡◌, String, true, false, ◌≢◌, inl, inr, none, some, arith, leb, if◌then◌else◌, Bool-cases,
  Option-cases, ◌==◌, ◌∙◌, sym, subst, ap, ne_of_eq_false, eq_false_of_ne, ok,
}
use ferventio_backend.Base.Text.{trim_space}
use ferventio_backend.Base.GoMap.{
  GoMap, get, has, size, get-put_self, get-retain-none, has_of_none, none_of_has,
}
use ferventio_backend.Domain.Clock.{Time, hour}
use ferventio_backend.Domain.EventSub.{EventSubEnvelope}
use ferventio_backend.Domain.Delivery.{EventSubInboxRecord, max_event_sub_inbox_records}
use ferventio_backend.Memory.Delivery.{DeliveryStore, cleanup_seen}
use ferventio_backend.Memory.Delivery.Inbox.{
  created, queued, seen_before, fresh_item, make_inbox_room, insert_item, forget_old,
  enqueue_trimmed, enqueue_event_sub,
}

-- A message that waits in the inbox and is not counted as seen is answered with its item, and the
-- inbox stays as it is.
pub enqueue_event_sub_queued :
    (message_id : String) (envelope : EventSubEnvelope) (now : Time) (s : DeliveryStore)
    (r : EventSubInboxRecord)
    → trim_space message_id ≢ ""
    → get (trim_space message_id) s.event_sub_inbox ≡ some r
    → has (trim_space message_id) (cleanup_seen now (24 * hour) s.seen) ≡ false
    → enqueue_event_sub message_id envelope now s ≡ (forget_old now (24 * hour) s, ok (queued r))
unfolding enqueue_event_sub
enqueue_event_sub_queued message_id envelope now s r named waits unseen =
    rw (eq_false_of_ne _ _ named, if◌then◌else◌, unseen, if◌then◌else◌)
      (rw (waits, enqueue_trimmed))

still_unseen :
    (id : String) (now : Time) (seen : GoMap Time)
    → has id seen ≡ false
    → has id (cleanup_seen now (24 * hour) seen) ≡ false
unfolding cleanup_seen
still_unseen id now seen h = has_of_none id _ (get-retain-none _ id seen (none_of_has id seen h))

-- A message is waiting, and does not count as seen.
abbrev Waiting : String → EventSubInboxRecord → DeliveryStore → Type 0
Waiting id r s = (id ≢ "") × (get id s.event_sub_inbox ≡ some r) × (has id s.seen ≡ false)

insert_item-Waiting :
    (id : String) (envelope : EventSubEnvelope) (now : Time) (s : DeliveryStore)
    (r : EventSubInboxRecord)
    → id ≢ ""
    → has id s.seen ≡ false
    → (insert_item id envelope now s).1 ≡ ok (created r)
    → Waiting id r (insert_item id envelope now s).0
unfolding insert_item
insert_item-Waiting id envelope now s r named unseen first =
    elim (Bool-cases (leb max_event_sub_inbox_records (size (make_inbox_room s).event_sub_inbox))) [
      | inl full ↦ cc (rw (full, if◌then◌else◌) at first)
      | inr room ↦
          rw (room, if◌then◌else◌)
            (
              named,
              get-put_self id (fresh_item id envelope now) (make_inbox_room s).event_sub_inbox
                  ∙ cc (rw (room, if◌then◌else◌) at first),
              ground (arith, unseen),
            )
    ]

enqueue_trimmed_new :
    (id : String) (envelope : EventSubEnvelope) (now : Time) (s : DeliveryStore)
    → (id == "") ≡ false
    → has id (cleanup_seen now (24 * hour) s.seen) ≡ false
    → get id s.event_sub_inbox ≡ none
    → enqueue_trimmed id envelope now s ≡ insert_item id envelope now (forget_old now (24 * hour) s)
unfolding enqueue_trimmed
enqueue_trimmed_new id envelope now s named unseen absent =
    rw (named, if◌then◌else◌, unseen, if◌then◌else◌) (rw (absent, enqueue_trimmed))

enqueue_trimmed-Waiting :
    (id : String) (envelope : EventSubEnvelope) (now : Time) (s : DeliveryStore)
    (r : EventSubInboxRecord)
    → (enqueue_trimmed id envelope now s).1 ≡ ok (created r)
    → Waiting id r (enqueue_trimmed id envelope now s).0
unfolding enqueue_trimmed
enqueue_trimmed-Waiting id envelope now s r first = elim (Bool-cases (id == "")) [
  | inl blank ↦ cc (rw (blank, if◌then◌else◌) at first)
  | inr named ↦ elim (Bool-cases (has id s'.seen)) [
    | inl seen ↦ cc (rw (named, if◌then◌else◌, seen, if◌then◌else◌) at first)
    | inr unseen ↦ elim (Option-cases (get id s'.event_sub_inbox)) [
      | inr (x, waits) ↦ cc (rw (named, if◌then◌else◌, unseen, if◌then◌else◌) at first, waits)
      | inl absent ↦
          let e = enqueue_trimmed_new id envelope now s named unseen absent in
          subst (λ x. Waiting id r x.0) (sym e)
            (insert_item-Waiting id envelope now s' r (ne_of_eq_false id "" named) unseen
              (ap (λ x. x.1) (sym e) ∙ first))
    ]
  ]
]
  where
    s' : DeliveryStore
    s' = forget_old now (24 * hour) s

-- When EnqueueEventSub has created an item for a message, the next call with the same message,
-- trimmed alike, at any time, creates nothing: it is answered with that item, and only old seen
-- messages are forgotten.
pub created_once :
    (message_id again : String) (envelope envelope' : EventSubEnvelope) (now later : Time)
    (s : DeliveryStore) (r : EventSubInboxRecord)
    → trim_space again ≡ trim_space message_id
    → (enqueue_event_sub message_id envelope now s).1 ≡ ok (created r)
    → let s' = (enqueue_event_sub message_id envelope now s).0 in
      enqueue_event_sub again envelope' later s' ≡ (forget_old later (24 * hour) s', ok (queued r))
created_once message_id again envelope envelope' now later s r same first =
    let (named, waits, unseen) = waiting in
    enqueue_event_sub_queued again envelope' later _ r (rw same named) (rw same waits)
      (rw same (still_unseen _ later _ unseen))
  where
    waiting : Waiting (trim_space message_id) r (enqueue_event_sub message_id envelope now s).0
    waiting =
        unfold enqueue_event_sub in
        enqueue_trimmed-Waiting (trim_space message_id) envelope now s r first

pub enqueue_seen :
    (message_id : String) (envelope : EventSubEnvelope) (now : Time) (s : DeliveryStore)
    → trim_space message_id ≢ ""
    → has (trim_space message_id) (cleanup_seen now (24 * hour) s.seen) ≡ true
    → enqueue_event_sub message_id envelope now s ≡ (forget_old now (24 * hour) s, ok seen_before)
unfolding enqueue_event_sub
enqueue_seen message_id envelope now s named seen =
    rw (eq_false_of_ne _ _ named, if◌then◌else◌, seen, if◌then◌else◌)
