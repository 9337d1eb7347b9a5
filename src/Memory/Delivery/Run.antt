-- ===== src/Memory/Delivery/Run.antt =====
-- internal/storage/memory/delivery_store.go: every method call as one step, and what holds after any
-- sequence of calls, in any order and at any times.
use ferventio_backend.Base.{
  ◌*◌, ◌≡◌, refl, String, inl, inr, Option, List, [], ◌∷◌, arith, if◌then◌else◌, Bool-cases,
  Option-cases,
}
use ferventio_backend.Base.Text.{trim_space}
use ferventio_backend.Base.GoMap.{retain, find, size, Unique}
use ferventio_backend.Domain.Clock.{Time, Duration, hour}
use ferventio_backend.Domain.EventSub.{EventSubEnvelope}
use ferventio_backend.Domain.Delivery.{DeliveryRecord}
use ferventio_backend.Memory.Delivery.{DeliveryStore, new_memory_delivery_store, cleanup}
use ferventio_backend.Memory.Delivery.Outbox.{
  enqueue, mark_sent, mark_failed, ack_through, ack, delete_for_installation, matches, missing_ids,
  insert_new, with_defaults,
}
use ferventio_backend.Memory.Delivery.Outbox.Invariant.{Outbox, Outbox-cleanup}
use ferventio_backend.Memory.Delivery.Outbox.Preserves.{
  enqueue-Outbox, mark_sent-Outbox, mark_failed-Outbox, ack_through-Outbox, ack-Outbox,
  delete_for_installation-Outbox,
}
use ferventio_backend.Memory.Delivery.Inbox.{
  enqueue_event_sub, complete_event_sub, mark_event_sub_failed, retry_event_sub, has_seen_event_sub,
  seen_event_sub, forget_event_sub, insert_item, forget_old,
}
use ferventio_backend.Memory.Delivery.Inbox.Invariant.{
  Inbox, enqueue_event_sub-Inbox, complete_event_sub-Inbox, mark_event_sub_failed-Inbox,
  retry_event_sub-Inbox, seen_event_sub-Inbox, has_seen_event_sub-Inbox, forget_event_sub-Inbox,
  cleanup-Inbox,
}
use ferventio_backend.Memory.Delivery.Channels.Kept.{
  enqueue-channels, sent-channels, failed-channels, ack_through-channels, ack-channels,
  delete-channels, enqueue_event_sub-channels, complete-channels, mark_event_sub_failed-channels,
  retry-channels, has_seen-channels, seen-channels, forget-channels, cleanup-channels, save-Unique,
  update-Unique,
}
use ferventio_backend.Memory.Delivery.Channels.{
  save_channel_state, update_channel_state, channel_state_changes,
}

-- The methods that may change the store.
pub data DeliveryCall : Type 0 where
  enqueue_call : DeliveryRecord → Time → DeliveryCall
  mark_sent_call : String → Time → DeliveryCall
  mark_failed_call : String → String → Time → DeliveryCall
  ack_through_call ack_call : String → String → Time → DeliveryCall
  delete_for_installation_call : String → DeliveryCall
  enqueue_event_sub_call : String → EventSubEnvelope → Time → DeliveryCall
  complete_event_sub_call : String → Time → DeliveryCall
  mark_event_sub_failed_call : String → Option String → Time → DeliveryCall
  retry_event_sub_call : String → Time → DeliveryCall
  has_seen_call seen_call : String → Time → Duration → DeliveryCall
  forget_call : String → DeliveryCall
  save_channel_state_call update_channel_state_call : String → String → String → Time → DeliveryCall
  cleanup_call : Time → DeliveryCall

unfoldable pub step : DeliveryStore → DeliveryCall → DeliveryStore
step s (enqueue_call r now) = (enqueue r now s).0
step s (mark_sent_call id t) = (mark_sent id t s).0
step s (mark_failed_call id failure t) = (mark_failed id failure t s).0
step s (ack_through_call i e t) = (ack_through i e t s).0
step s (ack_call i e t) = (ack i e t s).0
step s (delete_for_installation_call i) = (delete_for_installation i s).0
step s (enqueue_event_sub_call id envelope now) = (enqueue_event_sub id envelope now s).0
step s (complete_event_sub_call id t) = (complete_event_sub id t s).0
step s (mark_event_sub_failed_call id failure t) = (mark_event_sub_failed id failure t s).0
step s (retry_event_sub_call id now) = (retry_event_sub id now s).0
step s (has_seen_call id now ttl) = (has_seen_event_sub id now ttl s).0
step s (seen_call id now ttl) = (seen_event_sub id now ttl s).0
step s (forget_call id) = forget_event_sub id s
step s (save_channel_state_call c title category now) =
    (save_channel_state c title category now s).0
step s (update_channel_state_call c title category now) =
    (update_channel_state c title category now s).0
step s (cleanup_call now) = cleanup now s

unfoldable pub run : DeliveryStore → List DeliveryCall → DeliveryStore
run s [] = s
run s (c ∷ cs) = run (step s c) cs

pub record IsWellFormed (s : DeliveryStore) : Type 0 where
  pub outbox : Outbox s.records
  pub inbox : Inbox s
  pub channels : Unique s.channel_states

-- Two stores with the same inbox and the same seen messages.
pub record SameInbox (s t : DeliveryStore) : Type 0 where
  pub items : t.event_sub_inbox ≡ s.event_sub_inbox
  pub seen : t.seen ≡ s.seen

Inbox-SameInbox : {s t : DeliveryStore} → SameInbox s t → Inbox s → Inbox t
Inbox-SameInbox h o = record { items = rw h.items o.items; seen_set = rw h.seen o.seen_set }

insert_new-SameInbox : (r : DeliveryRecord) (s : DeliveryStore) → SameInbox s (insert_new r s).0
unfolding insert_new
insert_new-SameInbox r s = ground arith

pub enqueue-SameInbox :
    (r : DeliveryRecord) (now : Time) (s : DeliveryStore)
    → SameInbox (cleanup now s) (enqueue r now s).0
unfolding enqueue
enqueue-SameInbox r now s =
    elim (Option-cases
      (find (λ _ q. matches r.installation_id r.event_id q) (cleanup now s).records)) [
        | inl e ↦
            rw (e, enqueue)
              (elim (Bool-cases (missing_ids r)) [
                | inl m ↦ rw (m, if◌then◌else◌) (record { items = refl; seen = refl })
                | inr m ↦
                    rw (m, if◌then◌else◌)
                      (insert_new-SameInbox (with_defaults now r) (cleanup now s))
              ])
        | inr (q, e) ↦ rw (e, enqueue) (record { items = refl; seen = refl })
      ]

pub ack_through-SameInbox :
    (i e : String) (t : Time) (s : DeliveryStore) → SameInbox s (ack_through i e t s).0
unfolding ack_through
ack_through-SameInbox i e t s = ground arith

pub mark_sent-SameInbox :
    (id : String) (t : Time) (s : DeliveryStore) → SameInbox s (mark_sent id t s).0
unfolding mark_sent
mark_sent-SameInbox id t s = ground arith

pub mark_failed-SameInbox :
    (id failure : String) (t : Time) (s : DeliveryStore)
    → SameInbox s (mark_failed id failure t s).0
unfolding mark_failed
mark_failed-SameInbox id failure t s = ground arith

pub ack-SameInbox : (i e : String) (t : Time) (s : DeliveryStore) → SameInbox s (ack i e t s).0
unfolding ack
ack-SameInbox i e t s = ground arith

pub delete-SameInbox :
    (i : String) (s : DeliveryStore) → SameInbox s (delete_for_installation i s).0
unfolding delete_for_installation
delete-SameInbox i s = ground arith

insert_item-records :
    (id : String) (envelope : EventSubEnvelope) (now : Time) (s : DeliveryStore)
    → (insert_item id envelope now s).0.records ≡ s.records
unfolding insert_item
insert_item-records id envelope now s = ground arith

enqueue_event_sub-records :
    (id : String) (envelope : EventSubEnvelope) (now : Time) (s : DeliveryStore)
    → (enqueue_event_sub id envelope now s).0.records ≡ s.records
unfolding enqueue_event_sub
enqueue_event_sub-records id envelope now s =
    ground (arith, insert_item-records (trim_space id) envelope now (forget_old now (24 * hour) s))

complete-records :
    (id : String) (t : Time) (s : DeliveryStore) → (complete_event_sub id t s).0.records ≡ s.records
unfolding complete_event_sub
complete-records id t s = ground arith

mark_event_sub_failed-records :
    (id : String) (failure : Option String) (t : Time) (s : DeliveryStore)
    → (mark_event_sub_failed id failure t s).0.records ≡ s.records
unfolding mark_event_sub_failed
mark_event_sub_failed-records id failure t s = ground arith

retry-records :
    (id : String) (t : Time) (s : DeliveryStore) → (retry_event_sub id t s).0.records ≡ s.records
unfolding retry_event_sub
retry-records id t s = ground arith

seen-records :
    (id : String) (t : Time) (ttl : Duration) (s : DeliveryStore)
    → (seen_event_sub id t ttl s).0.records ≡ s.records
unfolding seen_event_sub
seen-records id t ttl s = ground arith

-- Only the states of the channels may differ.
pub record SameBut (s t : DeliveryStore) : Type 0 where
  pub records : t.records ≡ s.records
  pub same_inbox : SameInbox s t

pub save-SameBut :
    (c title category : String) (now : Time) (s : DeliveryStore)
    → SameBut s (save_channel_state c title category now s).0
unfolding save_channel_state
save-SameBut c title category now s = ground arith

pub update-SameBut :
    (c title category : String) (now : Time) (s : DeliveryStore)
    → SameBut s (update_channel_state c title category now s).0
unfolding update_channel_state channel_state_changes save_channel_state
update-SameBut c title category now s = ground arith

IsWellFormed-SameBut :
    {s t : DeliveryStore} → SameBut s t → IsWellFormed s → Unique t.channel_states → IsWellFormed t
IsWellFormed-SameBut h w u = record {
  outbox = rw h.records w.outbox;
  inbox = Inbox-SameInbox h.same_inbox w.inbox;
  channels = u;
}

-- Every call keeps the store well formed.
pub step-IsWellFormed :
    (s : DeliveryStore) (c : DeliveryCall) → IsWellFormed s → IsWellFormed (step s c)
unfolding step
step-IsWellFormed s (enqueue_call r now) w = record {
  outbox = enqueue-Outbox r now s w.outbox;
  inbox = Inbox-SameInbox (enqueue-SameInbox r now s) (cleanup-Inbox now s w.inbox);
  channels = rw (enqueue-channels r now s) w.channels;
}
step-IsWellFormed s (mark_sent_call id t) w = record {
  outbox = mark_sent-Outbox id t s w.outbox;
  inbox = Inbox-SameInbox (mark_sent-SameInbox id t s) w.inbox;
  channels = rw (sent-channels id t s) w.channels;
}
step-IsWellFormed s (mark_failed_call id failure t) w = record {
  outbox = mark_failed-Outbox id failure t s w.outbox;
  inbox = Inbox-SameInbox (mark_failed-SameInbox id failure t s) w.inbox;
  channels = rw (failed-channels id failure t s) w.channels;
}
step-IsWellFormed s (ack_through_call i e t) w = record {
  outbox = ack_through-Outbox i e t s w.outbox;
  inbox = Inbox-SameInbox (ack_through-SameInbox i e t s) w.inbox;
  channels = rw (ack_through-channels i e t s) w.channels;
}
step-IsWellFormed s (ack_call i e t) w = record {
  outbox = ack-Outbox i e t s w.outbox;
  inbox = Inbox-SameInbox (ack-SameInbox i e t s) w.inbox;
  channels = rw (ack-channels i e t s) w.channels;
}
step-IsWellFormed s (delete_for_installation_call i) w = record {
  outbox = delete_for_installation-Outbox i s w.outbox;
  inbox = Inbox-SameInbox (delete-SameInbox i s) w.inbox;
  channels = rw (delete-channels i s) w.channels;
}
step-IsWellFormed s (enqueue_event_sub_call id envelope now) w = record {
  outbox = rw (enqueue_event_sub-records id envelope now s) w.outbox;
  inbox = enqueue_event_sub-Inbox id envelope now s w.inbox;
  channels = rw (enqueue_event_sub-channels id envelope now s) w.channels;
}
step-IsWellFormed s (complete_event_sub_call id t) w = record {
  outbox = rw (complete-records id t s) w.outbox;
  inbox = complete_event_sub-Inbox id t s w.inbox;
  channels = rw (complete-channels id t s) w.channels;
}
step-IsWellFormed s (mark_event_sub_failed_call id failure t) w = record {
  outbox = rw (mark_event_sub_failed-records id failure t s) w.outbox;
  inbox = mark_event_sub_failed-Inbox id failure t s w.inbox;
  channels = rw (mark_event_sub_failed-channels id failure t s) w.channels;
}
step-IsWellFormed s (retry_event_sub_call id now) w = record {
  outbox = rw (retry-records id now s) w.outbox;
  inbox = retry_event_sub-Inbox id now s w.inbox;
  channels = rw (retry-channels id now s) w.channels;
}
step-IsWellFormed s (has_seen_call id now ttl) w = record {
  outbox = unfold has_seen_event_sub in w.outbox;
  inbox = has_seen_event_sub-Inbox id now ttl s w.inbox;
  channels = rw (has_seen-channels id now ttl s) w.channels;
}
step-IsWellFormed s (seen_call id now ttl) w = record {
  outbox = rw (seen-records id now ttl s) w.outbox;
  inbox = seen_event_sub-Inbox id now ttl s w.inbox;
  channels = rw (seen-channels id now ttl s) w.channels;
}
step-IsWellFormed s (forget_call id) w = record {
  outbox = unfold forget_event_sub in w.outbox;
  inbox = forget_event_sub-Inbox id s w.inbox;
  channels = rw (forget-channels id s) w.channels;
}
step-IsWellFormed s (save_channel_state_call c title category now) w =
    IsWellFormed-SameBut (save-SameBut c title category now s) w
      (save-Unique c title category now s w.channels)
step-IsWellFormed s (update_channel_state_call c title category now) w =
    IsWellFormed-SameBut (update-SameBut c title category now s) w
      (update-Unique c title category now s w.channels)
step-IsWellFormed s (cleanup_call now) w = record {
  outbox = Outbox-cleanup now s w.outbox;
  inbox = cleanup-Inbox now s w.inbox;
  channels = rw (cleanup-channels now s) w.channels;
}

run_from : (s : DeliveryStore) (cs : List DeliveryCall) → IsWellFormed s → IsWellFormed (run s cs)
unfolding run
run_from s [] w = w
run_from s (c ∷ cs) w = run_from (step s c) cs (step-IsWellFormed s c w)

pub new_store-IsWellFormed : IsWellFormed new_memory_delivery_store
unfolding size retain
new_store-IsWellFormed = record {
  outbox = record {
    unique = tt;
    keyed = tt;
    capacity = omega arith;
    one_each = λ i e. omega arith;
  };
  inbox = record {
    items = record { unique = tt; keyed = tt; capacity = omega arith };
    seen_set = record { unique = tt; capacity = omega arith };
  };
  channels = tt;
}

-- Whatever methods are called, in whatever order and at whatever times, on a new store: the deliveries,
-- the inbox, the seen messages and the channel states have distinct keys; the first three, which have
-- a bound, stay within it; deliveries and inbox items stand under their own ids; and no installation
-- has two deliveries of one event.
pub run-IsWellFormed : (cs : List DeliveryCall) → IsWellFormed (run new_memory_delivery_store cs)
run-IsWellFormed cs = run_from new_memory_delivery_store cs new_store-IsWellFormed
