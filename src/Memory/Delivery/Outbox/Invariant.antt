-- ===== src/Memory/Delivery/Outbox/Invariant.antt =====
-- internal/storage/memory/delivery_store.go: the invariant of the deliveries, and the steps that
-- every method is made of.
use mathlib.Core.Path.{subst₂}
use ferventio_backend.Base.{
  ℕ, ◌≤◌, ◌<◌, ◌≡◌, refl, String, Bool, true, not, inl, inr, some, arith, ltb, if◌then◌else◌,
  Bool-cases, eq_iff,
}
use ferventio_backend.Base.GoMap.{GoMap, get, put, delete, retain, update, size, Each, Unique}
use ferventio_backend.Base.GoMap.Sizes.{
  count_if, size-put-le, size-delete-le, size-retain-le, size-update, count_if-put-le,
  count_if-put_same, count_if-delete-le, count_if-retain-le, count_if-update, size-put_same,
}
use ferventio_backend.Base.GoMap.Entries.{
  Each-get, Each-put, Each-delete, Each-retain, Each-update, Each-map,
}
use ferventio_backend.Base.GoMap.Uniqueness.{
  Unique-put, Unique-delete, Unique-retain, Unique-update,
}
use ferventio_backend.Domain.Clock.{Time}
use ferventio_backend.Domain.Delivery.{DeliveryRecord, max_delivery_records}
use ferventio_backend.Memory.Trim.Keeps.{trim_induction}
use ferventio_backend.Memory.Delivery.{
  DeliveryStore, cleanup, at_most, trim_completed_deliveries, expire_record, is_stale_record,
}
use ferventio_backend.Memory.Delivery.Outbox.{matches}

-- The keys are distinct and are the ids, there is room, and an installation has at most one delivery
-- of an event.
pub record Outbox (m : GoMap DeliveryRecord) : Type 0 where
  pub unique : Unique m
  pub keyed : Each (λ k r. k ≡ r.id) m
  pub capacity : size m ≤ max_delivery_records
  pub one_each : (i e : String) → count_if (λ _ r. matches i e r) m ≤ 1

-- A rewritten delivery is still the delivery of the same event to the same installation.
pub record SameIds (r q : DeliveryRecord) : Type 0 where
  pub id : q.id ≡ r.id
  pub event_id : q.event_id ≡ r.event_id
  pub installation_id : q.installation_id ≡ r.installation_id

pub matches-SameIds :
    (i e : String) (r q : DeliveryRecord) → SameIds r q → matches i e q ≡ matches i e r
matches-SameIds i e r q h = rw (h.installation_id, h.event_id)

pub matches_inv :
    (i e : String) (r : DeliveryRecord)
    → matches i e r ≡ true
    → (r.installation_id ≡ i) × (r.event_id ≡ e)
matches_inv i e r h = ground (arith, eq_iff r.installation_id i, eq_iff r.event_id e)

pub Outbox-delete : (k : String) (m : GoMap DeliveryRecord) → Outbox m → Outbox (delete k m)
Outbox-delete k m o = record {
  unique = Unique-delete k m o.unique;
  keyed = Each-delete _ k m o.keyed;
  capacity = omega (arith, size-delete-le k m, o.capacity);
  one_each = λ i e. omega (arith, count_if-delete-le (λ _ r. matches i e r) k m, o.one_each i e);
}

pub Outbox-retain :
    (p : String → DeliveryRecord → Bool) (m : GoMap DeliveryRecord) → Outbox m → Outbox (retain p m)
Outbox-retain p m o = record {
  unique = Unique-retain p m o.unique;
  keyed = Each-retain _ p m o.keyed;
  capacity = omega (arith, size-retain-le p m, o.capacity);
  one_each = λ i e. omega (arith, count_if-retain-le (λ _ r. matches i e r) p m, o.one_each i e);
}

pub Outbox-update :
    (f : String → DeliveryRecord → DeliveryRecord) (m : GoMap DeliveryRecord)
    → ((k : String) (r : DeliveryRecord) → SameIds r (f k r))
    → Outbox m
    → Outbox (update f m)
Outbox-update f m same o = record {
  unique = Unique-update f m o.unique;
  keyed = Each-update _ f m (
      Each-map (λ k r. k ≡ r.id) (λ k r. k ≡ (f k r).id) m (λ k r h. cc (h, (same k r).id))
        o.keyed);
  capacity = omega (arith, size-update f m, o.capacity);
  one_each = λ i e. omega (
    arith,
    count_if-update f (λ _ r. matches i e r) (λ _ r. matches i e r) m
        (λ k r. matches-SameIds i e r (f k r) (same k r)),
    o.one_each i e,
  );
}

-- A write over a stored delivery.
pub Outbox-rewrite :
    (k : String) (r q : DeliveryRecord) (m : GoMap DeliveryRecord)
    → get k m ≡ some r
    → SameIds r q
    → Outbox m
    → Outbox (put k q m)
Outbox-rewrite k r q m h same o = record {
  unique = Unique-put k q m o.unique;
  keyed = Each-put _ k q m (cc (same.id, Each-get (λ k r. k ≡ r.id) k r m o.keyed h)) o.keyed;
  capacity = omega (arith, size-put_same k r q m h, o.capacity);
  one_each = λ i e. omega (
    arith,
    count_if-put_same (λ _ r. matches i e r) k r q m h (matches-SameIds i e r q same),
    o.one_each i e,
  );
}

-- A new delivery of an event that the installation has no delivery of.
pub Outbox-put :
    (r : DeliveryRecord) (m : GoMap DeliveryRecord)
    → size m < max_delivery_records
    → count_if (λ _ q. matches r.installation_id r.event_id q) m ≡ 0
    → Outbox m
    → Outbox (put r.id r m)
Outbox-put r m room none_yet o = record {
  unique = Unique-put r.id r m o.unique;
  keyed = Each-put _ r.id r m refl o.keyed;
  capacity = omega (arith, size-put-le r.id r m, room);
  one_each = one;
}
  where
    zero : (i e : String) → matches i e r ≡ true → count_if (λ _ q. matches i e q) m ≡ 0
    zero i e h =
        let (hi, he) = matches_inv i e r h in
        subst₂ (λ a b. count_if (λ _ q. matches a b q) m ≡ 0) hi he none_yet

    one : (i e : String) → count_if (λ _ q. matches i e q) (put r.id r m) ≤ 1
    one i e = elim (Bool-cases (matches i e r)) [
      | inl same ↦
          ground (arith, count_if-put-le (λ _ q. matches i e q) r.id r m, zero i e same, same)
      | inr other ↦
          ground (arith, count_if-put-le (λ _ q. matches i e q) r.id r m, o.one_each i e, other)
    ]

pub Outbox-trim :
    (limit : ℕ) (m : GoMap DeliveryRecord) → Outbox m → Outbox (trim_completed_deliveries limit m)
unfolding trim_completed_deliveries
Outbox-trim limit m o = trim_induction _ Outbox Outbox-delete _ _ limit m o

pub expire_record-SameIds : (now : Time) (r : DeliveryRecord) → SameIds r (expire_record now r)
unfolding expire_record
expire_record-SameIds now r = ground arith

pub Outbox-cleanup :
    (now : Time) (s : DeliveryStore) → Outbox s.records → Outbox (cleanup now s).records
unfolding cleanup
Outbox-cleanup now s o =
    trimmed swept (Outbox-retain _ _ (Outbox-update _ _ (λ _ r. expire_record-SameIds now r) o))
  where
    swept : GoMap DeliveryRecord
    swept =
        retain (λ _ r. not (is_stale_record now r)) (update (λ _ r. expire_record now r) s.records)

    trimmed :
        (m : GoMap DeliveryRecord)
        → Outbox m
        → Outbox (at_most max_delivery_records trim_completed_deliveries m)
    trimmed m h = elim (Bool-cases (ltb max_delivery_records (size m))) [
      | inl e ↦ rw (e, if◌then◌else◌) (Outbox-trim max_delivery_records m h)
      | inr e ↦ rw (e, if◌then◌else◌) h
    ]
