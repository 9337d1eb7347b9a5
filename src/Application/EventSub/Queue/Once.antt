-- ===== src/Application/EventSub/Queue/Once.antt =====
-- internal/application/eventsub.go and server.go: a message is not handled twice at the same time.
use ferventio_backend.Base.{
  ℕ, ◌+◌, ◌<◌, ◌≡◌, refl, ap, String, Bool, true, false, not, ◌||◌, inl, inr, List, [], ◌∷◌, ◌++◌,
  arith, ltb, ◌==◌, eq_iff, if◌then◌else◌, Bool-cases, length,
}
use ferventio_backend.Base.GoMap.{GoMap, has, get, put, delete, get-put, get-delete}
use ferventio_backend.Domain.Delivery.{EventSubInboxRecord, is_pending}
use ferventio_backend.Application.EventSub.Queue.{
  QueuedEventSub, EventQueue, new_event_queue, reserve_event_sub, release_event_sub, offer,
  schedule_event_sub, drain, receive_from, receive, remove_first, finish,
}

-- How many times a message stands in a list.
abbrev pub occurrences : String → List QueuedEventSub → ℕ
occurrences id [] = 0
occurrences id (x ∷ xs) = (if x.message_id == id then 1 else 0) + occurrences id xs

-- What the handlers, the drainer and the workers do with the queue, in any order. A worker finishes a
-- message that it has.
pub data QueueRun (capacity : ℕ) : EventQueue → Type 0 where
  opened : QueueRun capacity (new_event_queue capacity)
  scheduled :
      (q : EventQueue) (r : EventSubInboxRecord)
      → QueueRun capacity q
      → QueueRun capacity (schedule_event_sub r q).0
  drained :
      (q : EventQueue) (rs : List EventSubInboxRecord)
      → QueueRun capacity q
      → QueueRun capacity (drain rs q)
  received : (q : EventQueue) → QueueRun capacity q → QueueRun capacity (receive q)
  finished :
      (q : EventQueue) (id : String)
      → QueueRun capacity q
      → 0 < occurrences id q.working
      → QueueRun capacity (finish id q)

-- A message is in flight as long as it is in the queue or with a worker, where it stands once.
abbrev IsOnce : EventQueue → Type 0
IsOnce q =
    (id : String)
    → occurrences id q.event_queue + occurrences id q.working
      ≡ (if has id q.event_in_flight then 1 else 0)

occurrences-append :
    (id : String) (xs ys : List QueuedEventSub)
    → occurrences id (xs ++ ys) ≡ occurrences id xs + occurrences id ys
occurrences-append id [] ys = omega arith
occurrences-append id (x ∷ xs) ys = omega (arith, occurrences-append id xs ys)

has-put :
    (k j : String) (m : GoMap Bool) → has j (put k true m) ≡ (if k == j then true else has j m)
unfolding has
has-put k j m = ground (arith, get-put k j true m)

has-delete :
    (k j : String) (m : GoMap Bool) → has j (delete k m) ≡ (if k == j then false else has j m)
unfolding has
has-delete k j m = ground (arith, get-delete k j m)

occurrences-remove_first :
    (k id : String) (xs : List QueuedEventSub)
    → 0 < occurrences k xs
    → occurrences id (remove_first k xs) + (if k == id then 1 else 0) ≡ occurrences id xs
occurrences-remove_first k id [] h = absurd (omega (arith, h))
occurrences-remove_first k id (x ∷ xs) h = ground (
  arith,
  occurrences-remove_first k id xs,
  eq_iff k id,
  eq_iff x.message_id id,
  eq_iff x.message_id k,
)

release-put :
    (k id : String) (m : GoMap Bool) → has k m ≡ false → has id (delete k (put k true m)) ≡ has id m
release-put k id m h = ground (arith, has-delete k id (put k true m), has-put k id m, eq_iff k id)

offer-IsOnce :
    (x : QueuedEventSub) (q : EventQueue)
    → IsOnce q
    → has x.message_id q.event_in_flight ≡ false
    → IsOnce (offer x (record q { event_in_flight = put x.message_id true q.event_in_flight })).0
unfolding offer release_event_sub
offer-IsOnce x q o fresh id = elim (Bool-cases (ltb (length q.event_queue) q.capacity)) [
  | inl room ↦
      rw (room, if◌then◌else◌)
        (ground (
          arith,
          o id,
          occurrences-append id q.event_queue (x ∷ []),
          has-put x.message_id id q.event_in_flight,
          eq_iff x.message_id id,
        ))
  | inr full ↦ rw (full, if◌then◌else◌, release-put x.message_id id q.event_in_flight fresh) (o id)
]

schedule-IsOnce :
    (r : EventSubInboxRecord) (q : EventQueue) → IsOnce q → IsOnce (schedule_event_sub r q).0
unfolding schedule_event_sub reserve_event_sub
schedule-IsOnce r q o = elim (Bool-cases (r.message_id == "" || not (is_pending r.status))) [
  | inl e ↦ rw (e, if◌then◌else◌) o
  | inr e ↦ elim (Bool-cases (has r.message_id q.event_in_flight)) [
    | inl held ↦ rw (e, held, if◌then◌else◌) o
    | inr free ↦ rw (e, free, if◌then◌else◌) (offer-IsOnce _ q o free)
  ]
]

drain-IsOnce : (rs : List EventSubInboxRecord) (q : EventQueue) → IsOnce q → IsOnce (drain rs q)
unfolding drain
drain-IsOnce [] q o = o
drain-IsOnce (r ∷ rs) q o = drain-IsOnce rs (schedule_event_sub r q).0 (schedule-IsOnce r q o)

receive_from-IsOnce :
    (xs : List QueuedEventSub) (q : EventQueue)
    → q.event_queue ≡ xs
    → IsOnce q
    → IsOnce (receive_from xs q)
unfolding receive_from
receive_from-IsOnce [] q e o id = o id
receive_from-IsOnce (x ∷ xs) q e o id = omega (arith, o id, ap (occurrences id) e)

receive-IsOnce : (q : EventQueue) → IsOnce q → IsOnce (receive q)
unfolding receive
receive-IsOnce q o = receive_from-IsOnce q.event_queue q refl o

finish-IsOnce :
    (k : String) (q : EventQueue) → IsOnce q → 0 < occurrences k q.working → IsOnce (finish k q)
unfolding finish release_event_sub
finish-IsOnce k q o h id = ground (
  arith,
  o id,
  o k,
  occurrences-remove_first k id q.working h,
  has-delete k id q.event_in_flight,
  eq_iff k id,
)

run-IsOnce : (n : ℕ) (q : EventQueue) → QueueRun n q → IsOnce q
unfolding has get
run-IsOnce n q opened = λ id. refl
run-IsOnce n q (scheduled q' r run) = schedule-IsOnce r q' (run-IsOnce n q' run)
run-IsOnce n q (drained q' rs run) = drain-IsOnce rs q' (run-IsOnce n q' run)
run-IsOnce n q (received q' run) = receive-IsOnce q' (run-IsOnce n q' run)
run-IsOnce n q (finished q' id run h) = finish-IsOnce id q' (run-IsOnce n q' run) h

-- In every run of the queue, a message stands at most once among those in the queue and those that
-- the workers have; and it is in flight just when it stands there.
pub handled_once :
    (capacity : ℕ) (q : EventQueue) (id : String)
    → QueueRun capacity q
    → occurrences id q.event_queue + occurrences id q.working
      ≡ (if has id q.event_in_flight then 1 else 0)
handled_once capacity q id run = run-IsOnce capacity q run id
