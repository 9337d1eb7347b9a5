-- ===== src/Tests/Deliveries.antt =====
-- internal/storage/memory/delivery_store.go: the deliveries.
use ferventio_backend.Base.{
  ◌↔◌, ◌+◌, ◌*◌, ◌≤◌, ◌≡◌, ne_of_eq_false, refl, String, true, false, none, some, List, [], ◌∷◌,
  arith, eqb, if◌then◌else◌, select, All,
}
use ferventio_backend.Base.GoMap.{get, find, values, size, retain}
use ferventio_backend.Base.Page.{IsPage}
use ferventio_backend.Domain.Clock.{Time, second}
use ferventio_backend.Domain.Delivery.{DeliveryRecord, sent, dead}
use ferventio_backend.Memory.Delivery.{DeliveryStore, new_memory_delivery_store, retry_delay}
use ferventio_backend.Memory.Delivery.Outbox.{
  enqueue, matches, pending_for_installation, oldest_first, is_due, mark_sent, ack, ack_through,
  ack_target,
}
use ferventio_backend.Memory.Delivery.Outbox.Invariant.{Outbox}
use ferventio_backend.Memory.Delivery.Outbox.Enqueue.{enqueue_keeps_open}
use ferventio_backend.Memory.Delivery.Outbox.Pending.{
  IsPending, IsOlder, pending_for_installation-IsPage,
}
use ferventio_backend.Memory.Delivery.Outbox.Retry.{retries_end, fail_each, ack_undone_by_mark_sent}
use ferventio_backend.Memory.Delivery.Outbox.Acks.{pending-ack}
use ferventio_backend.Memory.Delivery.Run.{
  DeliveryCall, enqueue_call, mark_failed_call, ack_call, run, IsWellFormed, run-IsWellFormed,
}
use ferventio_backend.Tests.Samples.{d1, d2, one_delivery}

abbrev three_calls : List DeliveryCall
three_calls =
    enqueue_call d1 second
    ∷ mark_failed_call "d1" "timeout" (2 * second)
    ∷ ack_call "phone" "e1" (3 * second)
    ∷ []

run-IsWellFormed_example : IsWellFormed (run new_memory_delivery_store three_calls)
run-IsWellFormed_example = run-IsWellFormed three_calls

one_delivery-Outbox : Outbox one_delivery.records
unfolding get size retain
one_delivery-Outbox = record {
  unique = (refl, tt);
  keyed = (refl, tt);
  capacity = omega arith;
  one_each = λ i e. ground arith;
}

abbrev after_d2 : DeliveryStore
after_d2 = (enqueue d2 (2 * second) one_delivery).0

stored_d1 : get "d1" one_delivery.records ≡ some d1
unfolding get
stored_d1 = refl

enqueue_keeps_open_example : get "d1" after_d2.records ≡ some d1
enqueue_keeps_open_example =
    enqueue_keeps_open "d1" d2 d1 (2 * second) one_delivery one_delivery-Outbox stored_d1 refl
      (omega arith) (ne_of_eq_false "d2" "d1" refl)

pending_for_installation-IsPage_example :
    IsPage oldest_first
      (select (is_due "phone" second) (values one_delivery.records))
      (if eqb 10 0 then 100 else 10)
      (pending_for_installation "phone" 10 second one_delivery)
    × ((r : DeliveryRecord) → (is_due "phone" second r ≡ true) ↔ IsPending "phone" second r)
    × ((a b : DeliveryRecord) → (oldest_first a b ≡ true) ↔ IsOlder a b)
pending_for_installation-IsPage_example =
    pending_for_installation-IsPage "phone" 10 second one_delivery

abbrev failures : List (String × Time)
failures = ("a", 2) ∷ ("a", 3) ∷ ("a", 4) ∷ ("a", 5) ∷ ("a", 6) ∷ ("a", 7) ∷ ("a", 8) ∷ []

retries_end_example :
    (q : DeliveryRecord) × (get "d1" (fail_each "d1" (("a", 1) ∷ failures) one_delivery).records
      ≡ some q)
    × (q.status ≡ dead)
retries_end_example = retries_end "d1" "a" 1 failures one_delivery d1 stored_d1 (omega arith)

waited : second + retry_delay 1 ≤ 3 * second
unfolding retry_delay
waited = omega arith

ack_undone_by_mark_sent_example :
    (q : DeliveryRecord) × (get "d1"
        (mark_sent "d1" second (ack "phone" "e1" second one_delivery).0).0.records
      ≡ some q)
    × (q.status ≡ sent)
    × (is_due "phone" (3 * second) q ≡ true)
ack_undone_by_mark_sent_example =
    ack_undone_by_mark_sent "d1" second second (3 * second) one_delivery d1 stored_d1 waited
      (omega arith)

pending-ack_example :
    All
      (λ q. matches "phone" "e1" q ≡ false)
      (pending_for_installation "phone" 10 second (ack "phone" "e1" second one_delivery).0)
pending-ack_example = pending-ack "phone" "e1" 10 second second one_delivery

ack_found : (ack_through "phone" "e1" second one_delivery).1 ≡ none
unfolding ack_through ack_target find
ack_found = refl
