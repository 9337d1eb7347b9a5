-- ===== src/Memory/Delivery/Inbox.antt =====
-- internal/storage/memory/delivery_store.go: the EventSub inbox and the set of seen messages.
pub mod Admission
pub mod Remembered
pub mod Invariant
pub mod Drain
use ferventio_backend.Base.{
  ℕ, ◌+◌, ◌*◌, ◌-◌, String, Bool, true, false, not, ◌&&◌, ◌||◌, Option, none, some, List, ltb, leb,
  eqb, ◌==◌, if◌then◌else◌, select, take, Result, ok, err,
}
use ferventio_backend.Base.GoMap.{get, has, put, delete, values, size}
use ferventio_backend.Base.Sort.{sort}
use ferventio_backend.Base.Text.{str_lt, trim_space}
use ferventio_backend.Domain.Clock.{Time, Duration, before, after, hour}
use ferventio_backend.Domain.EventSub.{EventSubEnvelope}
use ferventio_backend.Domain.Delivery.{
  EventSubInboxRecord, pending, dead, is_pending, max_event_sub_inbox_records,
}
use ferventio_backend.Memory.Delivery.{
  DeliveryStore, DeliveryError, message_id_required, inbox_full, not_found, retry_delay,
  trim_dead_event_sub_inbox, cleanup_seen, add_seen_event_sub,
}

abbrev pub fresh_item : String → EventSubEnvelope → Time → EventSubInboxRecord
fresh_item message_id envelope now = record {
  message_id = message_id;
  envelope = envelope;
  status = pending;
  attempt_count = 0;
  available_at = now;
  expires_at = now + 24 * hour;
  received_at = now;
  last_attempt_at = 0;
  last_error = "";
}

unfoldable pub make_inbox_room : DeliveryStore → DeliveryStore
make_inbox_room s =
    if leb max_event_sub_inbox_records (size s.event_sub_inbox)
    then record s {
      event_sub_inbox =
          trim_dead_event_sub_inbox (max_event_sub_inbox_records - 1) s.event_sub_inbox;
    }
    else s

-- What EnqueueEventSub returns with no error: a new item, the one that waits already, or the zero
-- record of a message that was seen before.
pub data Enqueued : Type 0 where
  created queued : EventSubInboxRecord → Enqueued
  seen_before : Enqueued

unfoldable pub insert_item :
    String → EventSubEnvelope → Time → DeliveryStore → DeliveryStore × Result DeliveryError Enqueued
unfolding make_inbox_room
insert_item message_id envelope now s =
    let s' = make_inbox_room s in
    let item = fresh_item message_id envelope now in
    if leb max_event_sub_inbox_records (size s'.event_sub_inbox)
    then (s', err inbox_full)
    else (record s' { event_sub_inbox = put message_id item s'.event_sub_inbox }, ok (created item))

abbrev pub forget_old : Time → Duration → DeliveryStore → DeliveryStore
forget_old now ttl s = record s { seen = cleanup_seen now ttl s.seen }

unfoldable pub enqueue_trimmed :
    String → EventSubEnvelope → Time → DeliveryStore → DeliveryStore × Result DeliveryError Enqueued
unfolding insert_item
enqueue_trimmed message_id envelope now s =
    if message_id == ""
    then (s, err message_id_required)
    else (let s' = forget_old now (24 * hour) s in
        if has message_id s'.seen
        then (s', ok seen_before)
        else elim (get message_id s'.event_sub_inbox) [
          | some existing ↦ (s', ok (queued existing))
          | none ↦ insert_item message_id envelope now s'
        ])

unfoldable pub enqueue_event_sub :
    String → EventSubEnvelope → Time → DeliveryStore → DeliveryStore × Result DeliveryError Enqueued
unfolding enqueue_trimmed
enqueue_event_sub message_id = enqueue_trimmed (trim_space message_id)

abbrev pub inbox_limit : ℕ → ℕ
inbox_limit limit = if eqb limit 0 || ltb 1_000 limit then 200 else limit

abbrev pub received_first : EventSubInboxRecord → EventSubInboxRecord → Bool
received_first a b =
    if eqb a.received_at b.received_at
    then str_lt a.message_id b.message_id
    else before a.received_at b.received_at

abbrev pub received_last : EventSubInboxRecord → EventSubInboxRecord → Bool
received_last a b =
    if eqb a.received_at b.received_at
    then str_lt b.message_id a.message_id
    else after a.received_at b.received_at

unfoldable pub is_due_item : Time → EventSubInboxRecord → Bool
is_due_item now r =
    not (not (is_pending r.status) || before now r.available_at || not (before now r.expires_at))

unfoldable pub pending_event_sub : ℕ → Time → DeliveryStore → List EventSubInboxRecord
unfolding is_due_item
pending_event_sub limit now s =
    take (inbox_limit limit)
      (sort received_first (select (is_due_item now) (values s.event_sub_inbox)))

unfoldable pub list_event_sub_inbox : ℕ → DeliveryStore → List EventSubInboxRecord
list_event_sub_inbox limit s =
    take (inbox_limit limit) (sort received_last (values s.event_sub_inbox))

unfoldable pub complete_event_sub :
    String → Time → DeliveryStore → DeliveryStore × Option DeliveryError
complete_event_sub message_id completed_at s = elim (get message_id s.event_sub_inbox) [
  | none ↦ if has message_id s.seen then (s, none) else (s, some not_found)
  | some r ↦ (
    record s {
      event_sub_inbox = delete message_id s.event_sub_inbox;
      seen = add_seen_event_sub message_id completed_at s.seen;
    },
    none,
  )
]

unfoldable pub failed_item : Option String → Time → EventSubInboxRecord → EventSubInboxRecord
failed_item failure failed_at r =
    let message : String = elim failure [ none ↦ r.last_error | some m ↦ m ] in
    let r' = record r {
      attempt_count = r.attempt_count + 1;
      last_attempt_at = failed_at;
      last_error = message;
    } in
    if leb 8 (r.attempt_count + 1) || not (before failed_at r.expires_at)
    then record r' { status = dead }
    else record r' {
      status = pending;
      available_at = failed_at + retry_delay (r.attempt_count + 1);
    }

unfoldable pub mark_event_sub_failed :
    String → Option String → Time → DeliveryStore → DeliveryStore × Option DeliveryError
unfolding failed_item
mark_event_sub_failed message_id failure failed_at s = elim (get message_id s.event_sub_inbox) [
  | none ↦ (s, some not_found)
  | some r ↦ (
    record s {
      event_sub_inbox = put message_id (failed_item failure failed_at r) s.event_sub_inbox;
    },
    none,
  )
]

abbrev pub retried_item : Time → EventSubInboxRecord → EventSubInboxRecord
retried_item now r = record r {
  status = pending;
  attempt_count = 0;
  available_at = now;
  expires_at = now + 24 * hour;
  last_error = "";
}

unfoldable pub retry_event_sub :
    String → Time → DeliveryStore → DeliveryStore × Option DeliveryError
retry_event_sub message_id now s = elim (get message_id s.event_sub_inbox) [
  | none ↦ (s, some not_found)
  | some r ↦
      (record s { event_sub_inbox = put message_id (retried_item now r) s.event_sub_inbox }, none)
]

unfoldable pub has_seen_event_sub : String → Time → Duration → DeliveryStore → DeliveryStore × Bool
has_seen_event_sub message_id now ttl s =
    let s' = forget_old now ttl s in (s', has message_id s'.seen)

-- Whether the message was seen before; if not, it is from now on.
unfoldable pub seen_event_sub : String → Time → Duration → DeliveryStore → DeliveryStore × Bool
seen_event_sub message_id now ttl s =
    let s' = forget_old now ttl s in
    if has message_id s'.seen
    then (s', true)
    else (record s' { seen = add_seen_event_sub message_id now s'.seen }, false)

unfoldable pub forget_event_sub : String → DeliveryStore → DeliveryStore
forget_event_sub message_id s = record s { seen = delete message_id s.seen }
