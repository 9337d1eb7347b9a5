-- ===== src/Memory/Delivery/Channels/Kept.antt =====
-- internal/storage/memory/delivery_store.go: which methods write the states of the channels.
use ferventio_backend.Base.{
  ◌≡◌, String, Option, arith, ◌==◌, ◌*◌, if◌then◌else◌, Bool-cases, Option-cases, Result-cases, inl,
  inr,
}
use ferventio_backend.Base.Text.{trim_space}
use ferventio_backend.Base.GoMap.{Unique}
use ferventio_backend.Base.GoMap.Uniqueness.{Unique-put}
use ferventio_backend.Domain.Clock.{Time, Duration, hour}
use ferventio_backend.Domain.Delivery.{DeliveryRecord}
use ferventio_backend.Domain.EventSub.{EventSubEnvelope}
use ferventio_backend.Memory.Delivery.{DeliveryStore, cleanup}
use ferventio_backend.Memory.Delivery.Outbox.{
  enqueue, insert_new, make_room, mark_sent, mark_failed, ack_through, ack, delete_for_installation,
}
use ferventio_backend.Memory.Delivery.Inbox.{
  enqueue_event_sub, enqueue_trimmed, insert_item, make_inbox_room, forget_old, complete_event_sub,
  mark_event_sub_failed, retry_event_sub, has_seen_event_sub, seen_event_sub, forget_event_sub,
}
use ferventio_backend.Memory.Delivery.Channels.{
  channel_state_changes, save_channel_state, update_channel_state,
}

-- The state of the channels, which only its own methods write.
pub enqueue-channels :
    (r : DeliveryRecord) (now : Time) (s : DeliveryStore)
    → (enqueue r now s).0.channel_states ≡ s.channel_states
unfolding enqueue insert_new make_room cleanup
enqueue-channels r now s = ground arith

pub sent-channels :
    (id : String) (now : Time) (s : DeliveryStore)
    → (mark_sent id now s).0.channel_states ≡ s.channel_states
unfolding mark_sent
sent-channels id now s = ground arith

pub failed-channels :
    (id failure : String) (now : Time) (s : DeliveryStore)
    → (mark_failed id failure now s).0.channel_states ≡ s.channel_states
unfolding mark_failed
failed-channels id failure now s = ground arith

pub ack-channels :
    (i e : String) (now : Time) (s : DeliveryStore)
    → (ack i e now s).0.channel_states ≡ s.channel_states
unfolding ack
ack-channels i e now s = ground arith

pub ack_through-channels :
    (i e : String) (t : Time) (s : DeliveryStore)
    → (ack_through i e t s).0.channel_states ≡ s.channel_states
unfolding ack_through
ack_through-channels i e t s = ground arith

pub delete-channels :
    (i : String) (s : DeliveryStore)
    → (delete_for_installation i s).0.channel_states ≡ s.channel_states
unfolding delete_for_installation
delete-channels i s = ground arith

insert_item-channels :
    (id : String) (envelope : EventSubEnvelope) (now : Time) (s : DeliveryStore)
    → (insert_item id envelope now s).0.channel_states ≡ s.channel_states
unfolding insert_item make_inbox_room
insert_item-channels id envelope now s = ground arith

pub enqueue_event_sub-channels :
    (id : String) (envelope : EventSubEnvelope) (now : Time) (s : DeliveryStore)
    → (enqueue_event_sub id envelope now s).0.channel_states ≡ s.channel_states
unfolding enqueue_event_sub enqueue_trimmed
enqueue_event_sub-channels id envelope now s =
    ground (arith, insert_item-channels (trim_space id) envelope now (forget_old now (24 * hour) s))

pub complete-channels :
    (id : String) (t : Time) (s : DeliveryStore)
    → (complete_event_sub id t s).0.channel_states ≡ s.channel_states
unfolding complete_event_sub
complete-channels id t s = ground arith

pub mark_event_sub_failed-channels :
    (id : String) (failure : Option String) (t : Time) (s : DeliveryStore)
    → (mark_event_sub_failed id failure t s).0.channel_states ≡ s.channel_states
unfolding mark_event_sub_failed
mark_event_sub_failed-channels id failure t s = ground arith

pub retry-channels :
    (id : String) (t : Time) (s : DeliveryStore)
    → (retry_event_sub id t s).0.channel_states ≡ s.channel_states
unfolding retry_event_sub
retry-channels id t s = ground arith

pub has_seen-channels :
    (id : String) (t : Time) (ttl : Duration) (s : DeliveryStore)
    → (has_seen_event_sub id t ttl s).0.channel_states ≡ s.channel_states
unfolding has_seen_event_sub
has_seen-channels id t ttl s = ground arith

pub seen-channels :
    (id : String) (t : Time) (ttl : Duration) (s : DeliveryStore)
    → (seen_event_sub id t ttl s).0.channel_states ≡ s.channel_states
unfolding seen_event_sub
seen-channels id t ttl s = ground arith

pub forget-channels :
    (id : String) (s : DeliveryStore) → (forget_event_sub id s).channel_states ≡ s.channel_states
unfolding forget_event_sub
forget-channels id s = ground arith

pub cleanup-channels :
    (now : Time) (s : DeliveryStore) → (cleanup now s).channel_states ≡ s.channel_states
unfolding cleanup
cleanup-channels now s = ground arith

-- The two that write them keep their keys distinct.
pub save-Unique :
    (c title category : String) (now : Time) (s : DeliveryStore)
    → Unique s.channel_states
    → Unique (save_channel_state c title category now s).0.channel_states
unfolding save_channel_state
save-Unique c title category now s u = elim (Bool-cases (c == "")) [
  | inl e ↦ rw (e, if◌then◌else◌) u
  | inr e ↦ rw (e, if◌then◌else◌) (Unique-put c _ s.channel_states u)
]

pub update-Unique :
    (c title category : String) (now : Time) (s : DeliveryStore)
    → Unique s.channel_states
    → Unique (update_channel_state c title category now s).0.channel_states
unfolding update_channel_state
update-Unique c title category now s u =
    let saved = save-Unique c title category now s u in
    elim (Result-cases (channel_state_changes c title category s)) [
      | inl (x, e) ↦ rw (update_channel_state, e) u
      | inr (changes, e) ↦ elim (Option-cases (save_channel_state c title category now s).1) [
        | inl f ↦ rw (update_channel_state, e, f) saved
        | inr (x, f) ↦ rw (update_channel_state, e, f) saved
      ]
    ]
