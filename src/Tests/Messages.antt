-- ===== src/Tests/Messages.antt =====
-- internal/storage/memory/delivery_store.go: the EventSub inbox and the seen messages.
use ferventio_backend.Base.{
  suc, ◌+◌, ◌*◌, ◌≤◌, ◌≡◌, refl, true, none, some, List, [], ◌∷◌, arith, ◌⊎◌, ok, ne_of_eq_false,
}
use ferventio_backend.Base.Lists.{All}
use ferventio_backend.Base.GoMap.{GoMap, get, has, retain, Each, Unique, size}
use ferventio_backend.Base.Text.{trim_space, trim_left, trim_right, is_space}
use ferventio_backend.Domain.Clock.{Time, second, hour}
use ferventio_backend.Domain.Delivery.{EventSubInboxRecord, max_seen_event_records}
use ferventio_backend.Memory.Delivery.{
  DeliveryStore, new_memory_delivery_store, add_seen_event_sub, cleanup_seen,
}
use ferventio_backend.Memory.Delivery.Inbox.{
  enqueue_event_sub, complete_event_sub, forget_old, created, queued, seen_before, fresh_item,
}
use ferventio_backend.Memory.Delivery.Inbox.Admission.{created_once}
use ferventio_backend.Memory.Delivery.Inbox.Remembered.{
  is_quiet, completions, completed_not_readmitted,
}
use ferventio_backend.Memory.Delivery.Run.{
  DeliveryCall, enqueue_event_sub_call, complete_event_sub_call, cleanup_call, run,
}
use ferventio_backend.Memory.Delivery.Seen.{add_seen_forgets_oldest}
use ferventio_backend.Tests.Samples.{envelope, item, one_item}

abbrev after_m1 : DeliveryStore
after_m1 = (enqueue_event_sub " m1 " envelope second new_memory_delivery_store).0

abbrev m1 : EventSubInboxRecord
m1 = fresh_item "m1" envelope second

same_message : trim_space "m1" ≡ trim_space " m1 "
unfolding trim_space trim_left trim_right is_space
same_message = refl

admitted : (enqueue_event_sub " m1 " envelope second new_memory_delivery_store).1 ≡ ok (created m1)
unfolding enqueue_event_sub trim_space trim_left trim_right is_space has cleanup_seen retain size
admitted = refl

created_once_example :
    enqueue_event_sub "m1" envelope (2 * second) after_m1
    ≡ (forget_old (2 * second) (24 * hour) after_m1, ok (queued m1))
created_once_example =
    created_once " m1 " "m1" envelope envelope second (2 * second) new_memory_delivery_store m1
      same_message admitted

named : trim_space "m1" ≡ "m1"
unfolding trim_space trim_left trim_right is_space
named = refl

waiting : get (trim_space "m1") one_item.event_sub_inbox ≡ some item
unfolding get trim_space trim_left trim_right is_space
waiting = refl

-- Between: the same message comes again, another is completed, and the store is cleaned.
abbrev between : List DeliveryCall
between =
    enqueue_event_sub_call "m1" envelope second
    ∷ complete_event_sub_call "m2" second
    ∷ cleanup_call (2 * second)
    ∷ []

none_seen : size one_item.seen + suc (completions between) ≤ max_seen_event_records
unfolding size
none_seen = omega arith

between_quiet : All (λ c. is_quiet (trim_space "m1") (second + 24 * hour) c ≡ true) between
between_quiet = (refl, (rw named refl, (refl, tt)))

abbrev after_between : DeliveryStore
after_between = run (complete_event_sub (trim_space "m1") second one_item).0 between

completed_not_readmitted_example :
    enqueue_event_sub "m1" envelope hour after_between
    ≡ (forget_old hour (24 * hour) after_between, ok seen_before)
completed_not_readmitted_example =
    completed_not_readmitted "m1" envelope second hour one_item item between
      (rw named (ne_of_eq_false "m1" "" refl)) tt none_seen waiting between_quiet (omega arith)

abbrev one_seen : GoMap Time
one_seen = ("m2", 5) ∷ []

one_seen-Unique : Unique one_seen
unfolding get
one_seen-Unique = (refl, tt)

m2_seen : get "m2" one_seen ≡ some 5
unfolding get
m2_seen = refl

add_seen_forgets_oldest_example :
    (get "m2" (add_seen_event_sub "m1" 9 one_seen) ≡ some 5)
    ⊎ ((get "m2" (add_seen_event_sub "m1" 9 one_seen) ≡ none)
        × (max_seen_event_records ≤ size one_seen)
        × Each (λ _ t'. 5 ≤ t') one_seen)
add_seen_forgets_oldest_example =
    add_seen_forgets_oldest "m1" "m2" 9 5 one_seen one_seen-Unique (refl, tt) refl m2_seen
