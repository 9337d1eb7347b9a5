-- ===== src/Memory/Delivery/Inbox/Invariant.antt =====
-- internal/storage/memory/delivery_store.go: every method keeps the inbox and the set of seen messages
-- well formed and within their bounds.
use ferventio_backend.Base.{
  ℕ, ◌-◌, ◌*◌, ◌≤◌, ◌<◌, ◌≡◌, refl, String, Bool, not, inl, inr, Option, some, arith, leb, ltb,
  if◌then◌else◌, Bool-cases, Option-cases, ◌==◌, leb_false→lt,
}
use ferventio_backend.Base.Text.{trim_space}
use ferventio_backend.Base.GoMap.{GoMap, get, has, put, delete, retain, update, size, Each, Unique}
use ferventio_backend.Base.GoMap.Sizes.{
  size-put-le, size-put_same, size-delete-le, size-retain-le, size-update,
}
use ferventio_backend.Base.GoMap.Entries.{
  Each-get, Each-put, Each-delete, Each-retain, Each-update, Each-map,
}
use ferventio_backend.Base.GoMap.Uniqueness.{
  Unique-put, Unique-delete, Unique-retain, Unique-update,
}
use ferventio_backend.Domain.Clock.{Time, Duration, hour}
use ferventio_backend.Domain.EventSub.{EventSubEnvelope}
use ferventio_backend.Domain.Delivery.{
  EventSubInboxRecord, max_event_sub_inbox_records, max_seen_event_records,
}
use ferventio_backend.Memory.Trim.Keeps.{trim_induction}
use ferventio_backend.Memory.Delivery.{
  DeliveryStore, cleanup, cleanup_seen, at_most, expire_item, trim_dead_event_sub_inbox,
  add_seen_event_sub,
}
use ferventio_backend.Memory.Delivery.Seen.{size-add_seen, Unique-add_seen}
use ferventio_backend.Memory.Delivery.Inbox.{
  fresh_item, make_inbox_room, insert_item, forget_old, enqueue_trimmed, enqueue_event_sub,
  complete_event_sub, mark_event_sub_failed, retried_item, retry_event_sub, has_seen_event_sub,
  seen_event_sub, forget_event_sub,
}

-- The keys are distinct and are the message ids, and there is room.
pub record Items (m : GoMap EventSubInboxRecord) : Type 0 where
  pub unique : Unique m
  pub keyed : Each (λ k r. k ≡ r.message_id) m
  pub capacity : size m ≤ max_event_sub_inbox_records

pub record SeenSet (m : GoMap Time) : Type 0 where
  pub unique : Unique m
  pub capacity : size m ≤ max_seen_event_records

pub record Inbox (s : DeliveryStore) : Type 0 where
  pub items : Items s.event_sub_inbox
  pub seen_set : SeenSet s.seen

Items-delete : (k : String) (m : GoMap EventSubInboxRecord) → Items m → Items (delete k m)
Items-delete k m o = record {
  unique = Unique-delete k m o.unique;
  keyed = Each-delete _ k m o.keyed;
  capacity = omega (arith, size-delete-le k m, o.capacity);
}

Items-retain :
    (p : String → EventSubInboxRecord → Bool) (m : GoMap EventSubInboxRecord)
    → Items m
    → Items (retain p m)
Items-retain p m o = record {
  unique = Unique-retain p m o.unique;
  keyed = Each-retain _ p m o.keyed;
  capacity = omega (arith, size-retain-le p m, o.capacity);
}

Items-update :
    (f : String → EventSubInboxRecord → EventSubInboxRecord) (m : GoMap EventSubInboxRecord)
    → ((k : String) (r : EventSubInboxRecord) → (f k r).message_id ≡ r.message_id)
    → Items m
    → Items (update f m)
Items-update f m same o = record {
  unique = Unique-update f m o.unique;
  keyed = Each-update _ f m (
      Each-map (λ k r. k ≡ r.message_id) (λ k r. k ≡ (f k r).message_id) m
        (λ k r h. cc (h, same k r)) o.keyed);
  capacity = omega (arith, size-update f m, o.capacity);
}

Items-rewrite :
    (k : String) (r q : EventSubInboxRecord) (m : GoMap EventSubInboxRecord)
    → get k m ≡ some r
    → q.message_id ≡ r.message_id
    → Items m
    → Items (put k q m)
Items-rewrite k r q m h same o = record {
  unique = Unique-put k q m o.unique;
  keyed = Each-put _ k q m (cc (same, Each-get (λ k r. k ≡ r.message_id) k r m o.keyed h)) o.keyed;
  capacity = omega (arith, size-put_same k r q m h, o.capacity);
}

Items-put :
    (r : EventSubInboxRecord) (m : GoMap EventSubInboxRecord)
    → size m < max_event_sub_inbox_records
    → Items m
    → Items (put r.message_id r m)
Items-put r m room o = record {
  unique = Unique-put r.message_id r m o.unique;
  keyed = Each-put _ r.message_id r m refl o.keyed;
  capacity = omega (arith, size-put-le r.message_id r m, room);
}

Items-trim :
    (limit : ℕ) (m : GoMap EventSubInboxRecord)
    → Items m
    → Items (trim_dead_event_sub_inbox limit m)
unfolding trim_dead_event_sub_inbox
Items-trim limit m o = trim_induction _ Items Items-delete _ _ limit m o

SeenSet-cleanup :
    (now : Time) (ttl : Duration) (m : GoMap Time) → SeenSet m → SeenSet (cleanup_seen now ttl m)
unfolding cleanup_seen
SeenSet-cleanup now ttl m o = record {
  unique = Unique-retain _ m o.unique;
  capacity = omega (arith, size-retain-le (λ _ t. not (ltb ttl (now - t))) m, o.capacity);
}

SeenSet-add :
    (id : String) (now : Time) (m : GoMap Time) → SeenSet m → SeenSet (add_seen_event_sub id now m)
SeenSet-add id now m o = record {
  unique = Unique-add_seen id now m o.unique;
  capacity = size-add_seen id now m o.unique o.capacity;
}

Inbox-forget_old :
    (now : Time) (ttl : Duration) (s : DeliveryStore) → Inbox s → Inbox (forget_old now ttl s)
Inbox-forget_old now ttl s o = record {
  items = o.items;
  seen_set = SeenSet-cleanup now ttl s.seen o.seen_set;
}

make_inbox_room-Inbox : (s : DeliveryStore) → Inbox s → Inbox (make_inbox_room s)
unfolding make_inbox_room
make_inbox_room-Inbox s o =
    elim (Bool-cases (leb max_event_sub_inbox_records (size s.event_sub_inbox))) [
      | inl full ↦
          rw (full, if◌then◌else◌)
            (record { items = Items-trim _ s.event_sub_inbox o.items; seen_set = o.seen_set })
      | inr room ↦ rw (room, if◌then◌else◌) o
    ]

insert_item-Inbox :
    (id : String) (envelope : EventSubEnvelope) (now : Time) (s : DeliveryStore)
    → Inbox s
    → Inbox (insert_item id envelope now s).0
unfolding insert_item
insert_item-Inbox id envelope now s o =
    let o' = make_inbox_room-Inbox s o in
    elim (Bool-cases (leb max_event_sub_inbox_records (size (make_inbox_room s).event_sub_inbox))) [
      | inl full ↦ rw (full, if◌then◌else◌) o'
      | inr room ↦
          rw (room, if◌then◌else◌)
            (record {
              items = Items-put (fresh_item id envelope now) _ (leb_false→lt _ _ room) o'.items;
              seen_set = o'.seen_set;
            })
    ]

-- Admitting a message.
pub enqueue_event_sub-Inbox :
    (message_id : String) (envelope : EventSubEnvelope) (now : Time) (s : DeliveryStore)
    → Inbox s
    → Inbox (enqueue_event_sub message_id envelope now s).0
unfolding enqueue_event_sub
enqueue_event_sub-Inbox message_id envelope now s o = elim (Bool-cases (id == "")) [
  | inl blank ↦ rw (blank, if◌then◌else◌) o
  | inr named ↦
      rw (named, if◌then◌else◌)
        (elim (Bool-cases (has id s'.seen)) [
          | inl seen ↦ rw (seen, if◌then◌else◌) o'
          | inr unseen ↦
              rw (unseen, if◌then◌else◌)
                (elim (Option-cases (get id s'.event_sub_inbox)) [
                  | inl absent ↦
                      rw (absent, enqueue_trimmed) (insert_item-Inbox id envelope now s' o')
                  | inr (x, waits) ↦ rw (waits, enqueue_trimmed) o'
                ])
        ])
]
  where
    id : String
    id = trim_space message_id

    s' : DeliveryStore
    s' = forget_old now (24 * hour) s

    o' : Inbox s'
    o' = Inbox-forget_old now (24 * hour) s o

pub complete_event_sub-Inbox :
    (id : String) (now : Time) (s : DeliveryStore) → Inbox s → Inbox (complete_event_sub id now s).0
unfolding complete_event_sub
complete_event_sub-Inbox id now s o = elim (Option-cases (get id s.event_sub_inbox)) [
  | inl absent ↦
      rw (absent, complete_event_sub)
        (elim (Bool-cases (has id s.seen)) [
          | inl seen ↦ rw (seen, if◌then◌else◌) o
          | inr unseen ↦ rw (unseen, if◌then◌else◌) o
        ])
  | inr (r, waits) ↦
      rw (waits, complete_event_sub)
        (record {
          items = Items-delete id s.event_sub_inbox o.items;
          seen_set = SeenSet-add id now s.seen o.seen_set;
        })
]

pub mark_event_sub_failed-Inbox :
    (id : String) (failure : Option String) (now : Time) (s : DeliveryStore)
    → Inbox s
    → Inbox (mark_event_sub_failed id failure now s).0
unfolding mark_event_sub_failed
mark_event_sub_failed-Inbox id failure now s o = elim (Option-cases (get id s.event_sub_inbox)) [
  | inl absent ↦ rw (absent, mark_event_sub_failed) o
  | inr (r, waits) ↦
      rw (waits, mark_event_sub_failed)
        (record {
          items = Items-rewrite id r _ s.event_sub_inbox waits (ground arith) o.items;
          seen_set = o.seen_set;
        })
]

pub retry_event_sub-Inbox :
    (id : String) (now : Time) (s : DeliveryStore) → Inbox s → Inbox (retry_event_sub id now s).0
unfolding retry_event_sub
retry_event_sub-Inbox id now s o = elim (Option-cases (get id s.event_sub_inbox)) [
  | inl absent ↦ rw (absent, retry_event_sub) o
  | inr (r, waits) ↦
      rw (waits, retry_event_sub)
        (record {
          items = Items-rewrite id r (retried_item now r) s.event_sub_inbox waits refl o.items;
          seen_set = o.seen_set;
        })
]

pub seen_event_sub-Inbox :
    (id : String) (now : Time) (ttl : Duration) (s : DeliveryStore)
    → Inbox s
    → Inbox (seen_event_sub id now ttl s).0
unfolding seen_event_sub
seen_event_sub-Inbox id now ttl s o =
    let o' = Inbox-forget_old now ttl s o in
    elim (Bool-cases (has id (forget_old now ttl s).seen)) [
      | inl seen ↦ rw (seen, if◌then◌else◌) o'
      | inr unseen ↦
          rw (unseen, if◌then◌else◌)
            (record { items = o'.items; seen_set = SeenSet-add id now _ o'.seen_set })
    ]

pub has_seen_event_sub-Inbox :
    (id : String) (now : Time) (ttl : Duration) (s : DeliveryStore)
    → Inbox s
    → Inbox (has_seen_event_sub id now ttl s).0
unfolding has_seen_event_sub
has_seen_event_sub-Inbox id now ttl s o = Inbox-forget_old now ttl s o

pub forget_event_sub-Inbox :
    (id : String) (s : DeliveryStore) → Inbox s → Inbox (forget_event_sub id s)
unfolding forget_event_sub
forget_event_sub-Inbox id s o = record {
  items = o.items;
  seen_set = record {
    unique = Unique-delete id s.seen o.seen_set.unique;
    capacity = omega (arith, size-delete-le id s.seen, o.seen_set.capacity);
  };
}

pub cleanup-Inbox : (now : Time) (s : DeliveryStore) → Inbox s → Inbox (cleanup now s)
unfolding cleanup
cleanup-Inbox now s o = record {
  items = trimmed _ (Items-retain _ _ (Items-update _ _ (λ _ r. same r) o.items));
  seen_set = SeenSet-cleanup now (24 * hour) s.seen o.seen_set;
}
  where
    same : (r : EventSubInboxRecord) → (expire_item now r).message_id ≡ r.message_id
    same r = ground arith

    trimmed :
        (m : GoMap EventSubInboxRecord)
        → Items m
        → Items (at_most max_event_sub_inbox_records trim_dead_event_sub_inbox m)
    trimmed m h = elim (Bool-cases (ltb max_event_sub_inbox_records (size m))) [
      | inl e ↦ rw (e, if◌then◌else◌) (Items-trim max_event_sub_inbox_records m h)
      | inr e ↦ rw (e, if◌then◌else◌) h
    ]
