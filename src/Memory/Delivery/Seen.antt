-- ===== src/Memory/Delivery/Seen.antt =====
-- internal/storage/memory/delivery_store.go: the set of seen messages is bounded, and makes room by
-- forgetting the oldest.
use ferventio_backend.Base.{
  ◌≤◌, ◌≡◌, refl, String, true, false, ◌⊎◌, ◌≢◌, inl, inr, none, some, [], ◌∷◌, arith, leb,
  if◌then◌else◌, Bool-cases, ◌==◌, eq_iff, eq_refl, leb_false→lt, leb→le,
}
use ferventio_backend.Base.GoMap.{
  GoMap, get, has, put, delete, size, Each, Unique, get-put, get-delete, get-put_self,
}
use ferventio_backend.Base.GoMap.Sizes.{size-put-le, size-delete-lt}
use ferventio_backend.Base.GoMap.Entries.{Each-map}
use ferventio_backend.Base.GoMap.Uniqueness.{Unique-put, Unique-delete}
use ferventio_backend.Domain.Clock.{Time}
use ferventio_backend.Domain.Delivery.{max_seen_event_records}
use ferventio_backend.Memory.Delivery.{older_of, oldest_from, add_seen_event_sub}

older_of_cases :
    (best entry : String × Time) → (older_of best entry ≡ entry) ⊎ (older_of best entry ≡ best)
unfolding older_of
older_of_cases best entry = ground arith

older_of-le :
    (best entry : String × Time)
    → (best.0 == "") ≡ false
    → (entry.0 == "") ≡ false
    → ((older_of best entry).1 ≤ best.1)
      × ((older_of best entry).1 ≤ entry.1)
      × (((older_of best entry).0 == "") ≡ false)
unfolding older_of
older_of-le best entry h k = ground arith

-- An entry of a map.
abbrev pub IsEntry : String × Time → GoMap Time → Type 0
IsEntry entry m = get entry.0 m ≡ some entry.1

IsEntry-head : (entry : String × Time) (m : GoMap Time) → IsEntry entry (entry ∷ m)
unfolding get
IsEntry-head (i, w) m = rw (eq_refl i)

IsEntry-cons :
    (e entry : String × Time) (m : GoMap Time)
    → get entry.0 m ≡ none
    → IsEntry e m
    → IsEntry e (entry ∷ m)
unfolding get
IsEntry-cons (k, v) (i, w) m absent h = ground (arith, eq_iff i k)

IsEntry-from_head :
    (best : String × Time) (m : GoMap Time)
    → get best.0 m ≡ none
    → IsEntry (oldest_from best m) m ⊎ (oldest_from best m ≡ best)
    → IsEntry (oldest_from best m) (best ∷ m)
IsEntry-from_head best m absent (inl h) = IsEntry-cons _ best m absent h
IsEntry-from_head best m absent (inr e) = rw e (IsEntry-head best m)

-- The search ends at an entry of the map, or where it began.
oldest_from-IsEntry :
    (best : String × Time) (m : GoMap Time)
    → Unique m
    → IsEntry (oldest_from best m) m ⊎ (oldest_from best m ≡ best)
unfolding oldest_from
oldest_from-IsEntry best [] u = inr refl
oldest_from-IsEntry best (entry ∷ m) u = elim (older_of_cases best entry) [
  | inl e ↦
      inl (rw (e, oldest_from) (IsEntry-from_head entry m u.0 (oldest_from-IsEntry entry m u.1)))
  | inr e ↦
      rw (e, oldest_from)
        (elim (oldest_from-IsEntry best m u.1) [
          | inl h ↦ inl (IsEntry-cons _ entry m u.0 h)
          | inr h ↦ inr h
        ])
]

pub oldest-IsEntry :
    (entry : String × Time) (m : GoMap Time)
    → Unique (entry ∷ m)
    → IsEntry (oldest_from ("", 0) (entry ∷ m)) (entry ∷ m)
unfolding oldest_from older_of
oldest-IsEntry entry m u = IsEntry-from_head entry m u.0 (oldest_from-IsEntry entry m u.1)

pub has-IsEntry : (e : String × Time) (m : GoMap Time) → IsEntry e m → has e.0 m ≡ true
unfolding has
has-IsEntry e m h = rw h

-- No entry is older than the one that the search ends at, if no key is empty: the loop takes an empty
-- key for no key.
oldest_from-le :
    (best : String × Time) (m : GoMap Time)
    → (best.0 == "") ≡ false
    → Each (λ k _. (k == "") ≡ false) m
    → ((oldest_from best m).1 ≤ best.1) × Each (λ _ t. (oldest_from best m).1 ≤ t) m
unfolding oldest_from
oldest_from-le best [] h e = (omega arith, tt)
oldest_from-le best (entry ∷ m) h e =
    let b = older_of-le best entry h e.0 in
    let ih = oldest_from-le (older_of best entry) m b.2 e.1 in (omega arith, (omega arith, ih.1))

pub size-add_seen :
    (id : String) (now : Time) (seen : GoMap Time)
    → Unique seen
    → size seen ≤ max_seen_event_records
    → size (add_seen_event_sub id now seen) ≤ max_seen_event_records
unfolding add_seen_event_sub
size-add_seen id now [] u h = unfold size put in omega arith
size-add_seen id now (entry ∷ m) u h =
    elim (Bool-cases (leb max_seen_event_records (size (entry ∷ m)))) [
      | inl full ↦
          rw (full, if◌then◌else◌)
            (omega (
              arith,
              size-put-le id now (delete (oldest_from ("", 0) (entry ∷ m)).0 (entry ∷ m)),
              size-delete-lt (oldest_from ("", 0) (entry ∷ m)).0 (entry ∷ m)
                  (has-IsEntry _ (entry ∷ m) (oldest-IsEntry entry m u)),
            ))
      | inr room ↦
          rw (room, if◌then◌else◌)
            (omega (arith, size-put-le id now (entry ∷ m), leb_false→lt _ _ room))
    ]

pub Unique-add_seen :
    (id : String) (now : Time) (seen : GoMap Time)
    → Unique seen
    → Unique (add_seen_event_sub id now seen)
unfolding add_seen_event_sub
Unique-add_seen id now seen u = elim (Bool-cases (leb max_seen_event_records (size seen))) [
  | inl full ↦ rw (full, if◌then◌else◌) (Unique-put id now _ (Unique-delete _ seen u))
  | inr room ↦ rw (room, if◌then◌else◌) (Unique-put id now seen u)
]

pub get-add_seen_self :
    (id : String) (now : Time) (seen : GoMap Time)
    → get id (add_seen_event_sub id now seen) ≡ some now
unfolding add_seen_event_sub
get-add_seen_self id now seen = get-put_self id now _

-- The entry at which the search ends is as old as any.
oldest-le :
    (entry : String × Time) (m : GoMap Time)
    → Each (λ k _. (k == "") ≡ false) (entry ∷ m)
    → Each (λ _ t. (oldest_from ("", 0) (entry ∷ m)).1 ≤ t) (entry ∷ m)
unfolding oldest_from older_of
oldest-le entry m e = oldest_from-le entry m e.0 e.1

evict :
    (k : String) (t : Time) (entry : String × Time) (m : GoMap Time)
    → Unique (entry ∷ m)
    → Each (λ j _. (j == "") ≡ false) (entry ∷ m)
    → get k (entry ∷ m) ≡ some t
    → let o = oldest_from ("", 0) (entry ∷ m) in
      (get k (delete o.0 (entry ∷ m)) ≡ some t)
      ⊎ ((get k (delete o.0 (entry ∷ m)) ≡ none) × Each (λ _ t'. t ≤ t') (entry ∷ m))
evict k t entry m u e h = elim (Bool-cases (o.0 == k)) [
  | inl hit ↦ inr (
    rw (get-delete o.0 k (entry ∷ m), hit, if◌then◌else◌),
    Each-map (λ _ t'. o.1 ≤ t') _ (entry ∷ m) (λ _ t' le. omega (arith, same hit, le))
        (oldest-le entry m e),
  )
  | inr miss ↦ inl (rw (get-delete o.0 k (entry ∷ m), miss, if◌then◌else◌) h)
]
  where
    o : String × Time
    o = oldest_from ("", 0) (entry ∷ m)

    same : (o.0 == k) ≡ true → t ≡ o.1
    same hit = ground (arith, eq_iff o.0 k, h, oldest-IsEntry entry m u, hit)

get-nil : (k : String) (t : Time) → get {V = Time} k [] ≢ some t
unfolding get
get-nil k t h = cc

-- Adding a message to seen messages with distinct keys, none of them empty, keeps every other one,
-- except that of a full map it may forget one that no other was seen before.
pub add_seen_forgets_oldest :
    (id k : String) (now t : Time) (seen : GoMap Time)
    → Unique seen
    → Each (λ j _. (j == "") ≡ false) seen
    → (id == k) ≡ false
    → get k seen ≡ some t
    → (get k (add_seen_event_sub id now seen) ≡ some t)
      ⊎ ((get k (add_seen_event_sub id now seen) ≡ none)
          × (max_seen_event_records ≤ size seen)
          × Each (λ _ t'. t ≤ t') seen)
unfolding add_seen_event_sub
add_seen_forgets_oldest id k now t [] u e other h = absurd (get-nil k t h)
add_seen_forgets_oldest id k now t (entry ∷ m) u e other h =
    elim (Bool-cases (leb max_seen_event_records (size (entry ∷ m)))) [
      | inl full ↦
          rw (full, if◌then◌else◌, get-put id k now _, other, if◌then◌else◌)
            (elim (evict k t entry m u e h) [
              | inl stays ↦ inl stays
              | inr (goes, le) ↦ inr (goes, leb→le _ _ full, le)
            ])
      | inr room ↦
          inl (rw (room, if◌then◌else◌, get-put id k now (entry ∷ m), other, if◌then◌else◌) h)
    ]
