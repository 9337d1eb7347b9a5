-- ===== src/Memory/Delivery/Outbox/Enqueue.antt =====
-- internal/storage/memory/delivery_store.go: what Enqueue answers, and what it never loses.
use ferventio_backend.Base.{
  ◌-◌, ◌<◌, ◌≡◌, String, Bool, true, false, not, inl, inr, Option, some, arith, leb, ltb, leb→le,
  leb_false→lt, if◌then◌else◌, Bool-cases, Option-cases, ◌==◌, ok, err, ◌∙◌, ◌≢◌, ◌⊎◌,
  eq_false_of_ne,
}
use ferventio_backend.Base.GoMap.{
  GoMap, get, retain, update, size, find, Each, get-put, get-retain, get-update,
}
use ferventio_backend.Base.GoMap.Sizes.{size-retain-le, size-update}
use ferventio_backend.Base.GoMap.Entries.{find-none, find-some, Each-get}
use ferventio_backend.Base.GoMap.Uniqueness.{Unique-update}
use ferventio_backend.Domain.Clock.{Time}
use ferventio_backend.Domain.Delivery.{DeliveryRecord, max_delivery_records}
use ferventio_backend.Memory.Trim.Keeps.{get-trim}
use ferventio_backend.Memory.Trim.Room.{trim_room}
use ferventio_backend.Memory.Delivery.{
  DeliveryStore, older_record, queue_full, cleanup, completed, trim_completed_deliveries,
  expire_record, is_stale_record,
}
use ferventio_backend.Memory.Delivery.Outbox.{
  matches, with_defaults, make_room, insert_new, missing_ids, enqueue,
}
use ferventio_backend.Memory.Delivery.Outbox.Invariant.{
  Outbox, Outbox-cleanup, expire_record-SameIds, matches-SameIds,
}

-- A stored delivery after the sweep of `cleanup`.
get-cleanup :
    (now : Time) (s : DeliveryStore) (k : String) (r : DeliveryRecord)
    → Outbox s.records
    → get k s.records ≡ some r
    → is_stale_record now (expire_record now r) ≡ false
    → get k (cleanup now s).records ≡ some (expire_record now r)
unfolding cleanup
get-cleanup now s k r o h fresh = rw (small, if◌then◌else◌) in_swept
  where
    updated : GoMap DeliveryRecord
    updated = update (λ _ q. expire_record now q) s.records

    swept : GoMap DeliveryRecord
    swept = retain (λ _ q. not (is_stale_record now q)) updated

    small : ltb max_delivery_records (size swept) ≡ false
    small = ground (
      arith,
      size-retain-le (λ _ q. not (is_stale_record now q)) updated,
      size-update (λ _ q. expire_record now q) s.records,
      o.capacity,
    )

    in_updated : get k updated ≡ some (expire_record now r)
    in_updated = get-update (λ _ q. expire_record now q) k s.records ∙ rw h

    in_swept : get k swept ≡ some (expire_record now r)
    in_swept =
        get-retain (λ _ q. not (is_stale_record now q)) k updated
          (Unique-update (λ _ q. expire_record now q) s.records o.unique)
        ∙ rw in_updated (rw (fresh, if◌then◌else◌))

-- In an outbox with distinct keys that are the ids, within its bound and with one delivery of an
-- event to an installation: a second delivery of a stored event to the same installation is not
-- created, unless the clean-up drops the stored one as stale; the call answers with a stored
-- delivery of the event, and does nothing but clean up.
enqueue_again :
    (k : String) (now : Time) (q r : DeliveryRecord) (s : DeliveryStore)
    → Outbox s.records
    → get k s.records ≡ some r
    → matches q.installation_id q.event_id r ≡ true
    → is_stale_record now (expire_record now r) ≡ false
    → (x : DeliveryRecord) × (matches q.installation_id q.event_id x ≡ true)
      × (enqueue q now s ≡ (cleanup now s, ok (x, false)))
unfolding enqueue
enqueue_again k now q r s o h m fresh = elim (Option-cases found) [
  | inl no_match ↦
      cc (m', Each-get (λ _ x. match_q x ≡ false) k _ _ (find-none _ _ no_match) stored)
  | inr (x, hit) ↦ (x, (find-some (λ _ x. match_q x) _ x hit).1, rw (hit, enqueue))
]
  where
    match_q : DeliveryRecord → Bool
    match_q = matches q.installation_id q.event_id

    found : Option DeliveryRecord
    found = find (λ _ x. match_q x) (cleanup now s).records

    stored : get k (cleanup now s).records ≡ some (expire_record now r)
    stored = get-cleanup now s k r o h fresh

    m' : match_q (expire_record now r) ≡ true
    m' = matches-SameIds _ _ r _ (expire_record-SameIds now r) ∙ m

-- The trim of a full store makes room, or everything in the store is still to be delivered.
make_room-room :
    (s : DeliveryStore)
    → Outbox s.records
    → (size (make_room s).records < max_delivery_records)
      ⊎ Each (λ _ q. completed q ≡ false) (make_room s).records
unfolding make_room trim_completed_deliveries
make_room-room s o = elim (Bool-cases (leb max_delivery_records (size s.records))) [
  | inl full ↦
      rw (full, if◌then◌else◌)
        (elim (trim_room (λ r. r.id) completed older_record (max_delivery_records - 1) s.records
          o.unique o.keyed) [ inl few ↦ inl (omega arith) | inr busy ↦ inr busy ])
  | inr room ↦ rw (room, if◌then◌else◌) (inl (leb_false→lt _ _ room))
]

insert_new-full :
    (r : DeliveryRecord) (s : DeliveryStore)
    → Outbox s.records
    → (insert_new r s).1 ≡ err queue_full
    → Each (λ _ q. completed q ≡ false) (insert_new r s).0.records
unfolding insert_new
insert_new-full r s o h =
    elim (Bool-cases (leb max_delivery_records (size (make_room s).records))) [
      | inl full ↦
          rw (full, if◌then◌else◌)
            (elim (make_room-room s o) [
              | inl few ↦ absurd (omega (arith, leb→le _ _ full))
              | inr busy ↦ busy
            ])
      | inr room ↦ cc (rw (room, if◌then◌else◌) at h)
    ]

-- The queue refuses a delivery as full only if every stored delivery is still to be delivered: it has
-- been neither acknowledged nor given up.
pub enqueue_full :
    (r : DeliveryRecord) (now : Time) (s : DeliveryStore)
    → Outbox s.records
    → (enqueue r now s).1 ≡ err queue_full
    → Each (λ _ q. completed q ≡ false) (enqueue r now s).0.records
unfolding enqueue
enqueue_full r now s o h = elim (Option-cases found) [
  | inl e ↦
      rw (e, enqueue)
        (elim (Bool-cases (missing_ids r)) [
          | inl m ↦ cc (rw (e, enqueue) at h, m)
          | inr m ↦
              rw (m, if◌then◌else◌)
                (insert_new-full (with_defaults now r) s' (Outbox-cleanup now s o)
                  (rw (m, if◌then◌else◌) at (rw (e, enqueue) at h)))
        ])
  | inr (q, e) ↦ cc (rw (e, enqueue) at h)
]
  where
    s' : DeliveryStore
    s' = cleanup now s

    found : Option DeliveryRecord
    found = find (λ _ q. matches r.installation_id r.event_id q) s'.records

expire_record_live :
    (now : Time) (r : DeliveryRecord) → now < r.expires_at → expire_record now r ≡ r
unfolding expire_record
expire_record_live now r h = ground arith

is_stale_record_open :
    (now : Time) (r : DeliveryRecord) → completed r ≡ false → is_stale_record now r ≡ false
unfolding is_stale_record
is_stale_record_open now r h = ground arith

get-make_room :
    (k : String) (r : DeliveryRecord) (s : DeliveryStore)
    → Outbox s.records
    → get k s.records ≡ some r
    → completed r ≡ false
    → get k (make_room s).records ≡ some r
unfolding make_room trim_completed_deliveries
get-make_room k r s o h busy = elim (Bool-cases (leb max_delivery_records (size s.records))) [
  | inl full ↦
      rw (full, if◌then◌else◌)
        (get-trim (λ q. q.id) completed _ (max_delivery_records - 1) s.records k r o.unique o.keyed
          h busy)
  | inr room ↦ rw (room, if◌then◌else◌) h
]

get-insert_new :
    (k : String) (q r : DeliveryRecord) (s : DeliveryStore)
    → Outbox s.records
    → get k s.records ≡ some r
    → completed r ≡ false
    → (q.id == k) ≡ false
    → get k (insert_new q s).0.records ≡ some r
unfolding insert_new
get-insert_new k q r s o h busy other =
    elim (Bool-cases (leb max_delivery_records (size (make_room s).records))) [
      | inl full ↦ rw (full, if◌then◌else◌) (get-make_room k r s o h busy)
      | inr room ↦
          rw (room, if◌then◌else◌)
            (get-put q.id k q (make_room s).records
              ∙ rw (other, if◌then◌else◌) (get-make_room k r s o h busy))
    ]

-- In an outbox with distinct keys that are the ids, within its bound and with one delivery of an
-- event to an installation: storing a delivery under another id keeps every stored delivery that
-- is neither acknowledged nor dead and has not expired, also when the queue is full.
pub enqueue_keeps_open :
    (k : String) (q r : DeliveryRecord) (now : Time) (s : DeliveryStore)
    → Outbox s.records
    → get k s.records ≡ some r
    → completed r ≡ false
    → now < r.expires_at
    → q.id ≢ k
    → get k (enqueue q now s).0.records ≡ some r
unfolding enqueue
enqueue_keeps_open k q r now s o h busy live other = elim (Option-cases found) [
  | inl e ↦
      rw (e, enqueue)
        (elim (Bool-cases (missing_ids q)) [
          | inl m ↦ rw (m, if◌then◌else◌) stored
          | inr m ↦
              rw (m, if◌then◌else◌)
                (get-insert_new k (with_defaults now q) r s' (Outbox-cleanup now s o) stored busy
                  (unfold with_defaults in eq_false_of_ne q.id k other))
        ])
  | inr (x, e) ↦ rw (e, enqueue) stored
]
  where
    s' : DeliveryStore
    s' = cleanup now s

    found : Option DeliveryRecord
    found = find (λ _ x. matches q.installation_id q.event_id x) s'.records

    same : expire_record now r ≡ r
    same = expire_record_live now r live

    stored : get k s'.records ≡ some r
    stored = get-cleanup now s k r o h (rw same (is_stale_record_open now r busy)) ∙ rw same
