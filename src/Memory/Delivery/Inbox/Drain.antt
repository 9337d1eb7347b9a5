-- ===== src/Memory/Delivery/Inbox/Drain.antt =====
-- internal/storage/memory/delivery_store.go: what PendingEventSub and ListEventSubInbox return, and
-- what becomes of an item whose processing fails.
use ferventio_backend.Base.{ℕ, ◌+◌, ◌*◌, ◌≡◌, String, ◌&&◌, Option, arith, leb, ltb, select}
use ferventio_backend.Base.GoMap.{values}
use ferventio_backend.Base.Sort.{IsLess}
use ferventio_backend.Base.Page.{IsPage, page_lem}
use ferventio_backend.Base.Text.{str_lt_asym, str_lt_ge_trans}
use ferventio_backend.Domain.Clock.{Time, hour}
use ferventio_backend.Domain.Delivery.{EventSubInboxRecord}
use ferventio_backend.Memory.Delivery.{DeliveryStore, retry_delay}
use ferventio_backend.Memory.Delivery.Inbox.{
  inbox_limit, received_first, received_last, is_due_item, pending_event_sub, list_event_sub_inbox,
  failed_item, retried_item,
}

received_first-IsLess : IsLess received_first
received_first-IsLess = record {
  asym = λ a b h. ground (arith, str_lt_asym a.message_id b.message_id);
  ge_trans = λ a b c h k. ground (arith, str_lt_ge_trans a.message_id b.message_id c.message_id);
}

received_last-IsLess : IsLess received_last
received_last-IsLess = record {
  asym = λ a b h. ground (arith, str_lt_asym b.message_id a.message_id);
  ge_trans = λ a b c h k. ground (arith, str_lt_ge_trans c.message_id b.message_id a.message_id);
}

-- The drainer is given the items that are due, in the order in which they were received, as many as
-- the limit allows, and none is left out otherwise.
pending_event_sub-IsPage :
    (limit : ℕ) (now : Time) (s : DeliveryStore)
    → IsPage received_first
        (select (is_due_item now) (values s.event_sub_inbox))
        (inbox_limit limit)
        (pending_event_sub limit now s)
unfolding pending_event_sub
pending_event_sub-IsPage limit now s = page_lem received_first received_first-IsLess _ _

pub list_event_sub_inbox-IsPage :
    (limit : ℕ) (s : DeliveryStore)
    → IsPage received_last
        (values s.event_sub_inbox)
        (inbox_limit limit)
        (list_event_sub_inbox limit s)
unfolding list_event_sub_inbox
list_event_sub_inbox-IsPage limit s = page_lem received_last received_last-IsLess _ _

-- After a failure an item is due exactly when fewer than eight attempts were made, it had not
-- expired at the failure, its back-off is over and it has not expired.
failed_item-is_due :
    (failure : Option String) (t now : Time) (r : EventSubInboxRecord)
    → is_due_item now (failed_item failure t r) ≡ (
        ltb (r.attempt_count + 1) 8
        && ltb t r.expires_at
        && leb (t + retry_delay (r.attempt_count + 1)) now
        && ltb now r.expires_at)
unfolding failed_item is_due_item
failed_item-is_due failure t now r = ground arith

-- After a retry by hand an item is due from then on for 24 hours, whatever it was before.
retried_item-is_due :
    (t now : Time) (r : EventSubInboxRecord)
    → is_due_item now (retried_item t r) ≡ (leb t now && ltb now (t + 24 * hour))
unfolding is_due_item
retried_item-is_due t now r = ground arith
