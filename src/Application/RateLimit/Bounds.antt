-- ===== src/Application/RateLimit/Bounds.antt =====
-- internal/application/rate_limit.go: the limiter keeps no more buckets than it may.
use text.Mathlib.TextLemmas.{append-eq-nil_iff}
use ferventio_backend.Base.{
  ℕ, zero, suc, List, ◌||◌, eqb, eq_false_of_ne, ne_of_eq_false, ◌≤◌, ◌<◌, ◌≡◌, refl, sym, ◌∙◌,
  String, Bool, true, false, not, ◌&&◌, inl, inr, [], ◌∷◌, arith, leb, if◌then◌else◌, Bool-cases,
  Option-cases, ◌==◌, leb→le, leb_false→lt,
}
use ferventio_backend.Base.GoMap.{
  GoMap, get, has, put, delete, retain, update, size, Each, Unique, get-update,
}
use ferventio_backend.Base.GoMap.Sizes.{size-put-le, size-delete-lt}
use ferventio_backend.Base.GoMap.Entries.{Each-get, Each-put, Each-delete, Each-retain}
use ferventio_backend.Base.GoMap.Uniqueness.{
  Unique-put, Unique-delete, Unique-retain, Unique-update,
}
use ferventio_backend.Domain.Clock.{Time}
use ferventio_backend.Memory.Delivery.{oldest_from}
use ferventio_backend.Memory.Delivery.Seen.{oldest-IsEntry, has-IsEntry}
use ferventio_backend.Application.RateLimit.{
  Floats, RateLimitPolicy, RateLimitBucket, RateLimiter, new_rate_limiter, evict, cleanup_buckets,
  cleanup_due, count_operation, counted, take_token, bucket_key,
}

-- The key that a round of the eviction deletes.
abbrev pub oldest_key : GoMap RateLimitBucket → String
oldest_key m = (oldest_from ("", 0) (update (λ _ b. b.last_seen) m)).0

has-update :
    (f : String → RateLimitBucket → Time) (k : String) (m : GoMap RateLimitBucket)
    → has k (update f m) ≡ has k m
unfolding has
has-update f k m = ground (arith, get-update f k m)

has-oldest_key :
    (e : String × RateLimitBucket) (m : GoMap RateLimitBucket)
    → Unique (e ∷ m)
    → has (oldest_key (e ∷ m)) (e ∷ m) ≡ true
unfolding update
has-oldest_key e m u =
    sym (has-update (λ _ b. b.last_seen) _ (e ∷ m))
    ∙ has-IsEntry _ (update (λ _ b. b.last_seen) (e ∷ m))
        (oldest-IsEntry _ _ (Unique-update (λ _ b. b.last_seen) (e ∷ m) u))

-- A key that is there is no empty text, if none is.
nonempty-has :
    (k : String) (m : GoMap RateLimitBucket)
    → Each (λ j _. (j == "") ≡ false) m
    → has k m ≡ true
    → (k == "") ≡ false
unfolding has
nonempty-has k m e h = elim (Option-cases (get k m)) [
  | inl q ↦ cc (rw q at h)
  | inr (v, q) ↦ Each-get (λ j _. (j == "") ≡ false) k v m e q
]

-- Distinct keys, and none of them empty: the loop takes an empty key for no key.
pub record HasKeys (m : GoMap RateLimitBucket) : Type 0 where
  pub unique : Unique m
  pub nonempty : Each (λ k _. (k == "") ≡ false) m

delete-HasKeys : (k : String) (m : GoMap RateLimitBucket) → HasKeys m → HasKeys (delete k m)
delete-HasKeys k m h = record {
  unique = Unique-delete k m h.unique;
  nonempty = Each-delete _ k m h.nonempty;
}

evict-HasKeys :
    (fuel max_keys : ℕ) (m : GoMap RateLimitBucket) → HasKeys m → HasKeys (evict fuel max_keys m)
unfolding evict
evict-HasKeys zero n m h = h
evict-HasKeys (suc fuel) n m h = elim (Bool-cases (leb n (size m) && not (oldest_key m == ""))) [
  | inl e ↦ rw (e, if◌then◌else◌) (evict-HasKeys fuel n _ (delete-HasKeys (oldest_key m) m h))
  | inr e ↦ rw (e, if◌then◌else◌) h
]

no_bucket : (n : ℕ) → 0 < n → leb n (size {V = RateLimitBucket} []) ≡ true → ⊥
unfolding size
no_bucket n p full = omega (arith, p, leb→le _ _ full)

-- As many rounds as there are entries leave room for one more.
size-evict :
    (fuel max_keys : ℕ) (m : GoMap RateLimitBucket)
    → HasKeys m
    → 0 < max_keys
    → size m ≤ fuel
    → size (evict fuel max_keys m) < max_keys
unfolding evict
size-evict zero n m h p k = omega (arith, p, k)
size-evict (suc fuel) n [] h p k = elim (Bool-cases (leb n (size []))) [
  | inl full ↦ absurd (no_bucket n p full)
  | inr room ↦ rw (room, if◌then◌else◌) (leb_false→lt _ _ room)
]
size-evict (suc fuel) n (e ∷ m) h p k = elim (Bool-cases (leb n (size (e ∷ m)))) [
  | inl full ↦
      rw (full, nonempty-has (oldest_key (e ∷ m)) (e ∷ m) h.nonempty (has-oldest_key e m h.unique))
        (size-evict fuel n _ (delete-HasKeys (oldest_key (e ∷ m)) (e ∷ m) h) p (
          omega
            (arith, k, size-delete-lt (oldest_key (e ∷ m)) (e ∷ m) (has-oldest_key e m h.unique))))
  | inr room ↦ rw (room, if◌then◌else◌) (leb_false→lt _ _ room)
]

-- A limiter between two requests.
pub record IsLimiter (l : RateLimiter) : Type 0 where
  pub keys : HasKeys l.buckets
  pub bounded : size l.buckets ≤ l.max_keys
  pub room : 0 < l.max_keys

retain-HasKeys :
    (p : String → RateLimitBucket → Bool) (m : GoMap RateLimitBucket)
    → HasKeys m
    → HasKeys (retain p m)
retain-HasKeys p m h = record {
  unique = Unique-retain p m h.unique;
  nonempty = Each-retain _ p m h.nonempty;
}

pub put-HasKeys :
    (k : String) (b : RateLimitBucket) (m : GoMap RateLimitBucket)
    → (k == "") ≡ false
    → HasKeys m
    → HasKeys (put k b m)
put-HasKeys k b m e h = record {
  unique = Unique-put k b m h.unique;
  nonempty = Each-put _ k b m e h.nonempty;
}

cleanup-HasKeys :
    (now : Time) (l : RateLimiter) → HasKeys l.buckets → HasKeys (cleanup_buckets now l).buckets
unfolding cleanup_buckets
cleanup-HasKeys now l h = evict-HasKeys _ l.max_keys _ (retain-HasKeys _ l.buckets h)

size-cleanup :
    (now : Time) (l : RateLimiter)
    → HasKeys l.buckets
    → 0 < l.max_keys
    → size (cleanup_buckets now l).buckets < l.max_keys
unfolding cleanup_buckets
size-cleanup now l h p = size-evict _ l.max_keys _ (retain-HasKeys _ l.buckets h) p (omega arith)

pub bucket_key_lem : (p : RateLimitPolicy) (key : String) → (bucket_key p key == "") ≡ false
bucket_key_lem p key =
    eq_false_of_ne (bucket_key p key) ""
      (λ e. ne_of_eq_false "\0" "" refl ((append-eq-nil_iff).0 ((append-eq-nil_iff).0 e).1).0)

not_due : (l : RateLimiter) → cleanup_due l ≡ false → size l.buckets < l.max_keys
unfolding cleanup_due
not_due l h = ground arith

pub counted-HasKeys :
    (now : Time) (l : RateLimiter) → HasKeys l.buckets → HasKeys (counted now l).buckets
unfolding counted
counted-HasKeys now l h = elim (Bool-cases (cleanup_due (count_operation l))) [
  | inl e ↦ rw (e, if◌then◌else◌) (cleanup-HasKeys now (count_operation l) h)
  | inr e ↦ rw (e, if◌then◌else◌) h
]

-- Before its request is served, the limiter has made room for a bucket.
counted-room :
    (now : Time) (l : RateLimiter)
    → IsLimiter l
    → (size (counted now l).buckets < (counted now l).max_keys) × (0 < (counted now l).max_keys)
unfolding counted cleanup_buckets
counted-room now l w = elim (Bool-cases (cleanup_due (count_operation l))) [
  | inl e ↦ rw (e, if◌then◌else◌) (size-cleanup now (count_operation l) w.keys w.room, w.room)
  | inr e ↦ rw (e, if◌then◌else◌) (not_due (count_operation l) e, w.room)
]

pub take_token-HasKeys :
    (f : Floats) (p : RateLimitPolicy) (key : String) (now : Time) (l : RateLimiter)
    → HasKeys l.buckets
    → HasKeys (take_token f p key now l).0.buckets
unfolding take_token
take_token-HasKeys f p key now l w = elim (Bool-cases (eqb p.per_minute 0 || eqb p.burst 0)) [
  | inl e ↦ rw (e, if◌then◌else◌) w
  | inr e ↦
      rw (e, if◌then◌else◌)
        (put-HasKeys (bucket_key p key) _ (counted now l).buckets (bucket_key_lem p key)
          (counted-HasKeys now l w))
]

-- A request leaves the keys of the buckets distinct and not empty, and no more buckets than
-- `max_keys`.
pub take_token-IsLimiter :
    (f : Floats) (p : RateLimitPolicy) (key : String) (now : Time) (l : RateLimiter)
    → IsLimiter l
    → IsLimiter (take_token f p key now l).0
unfolding take_token
take_token-IsLimiter f p key now l w = elim (Bool-cases (eqb p.per_minute 0 || eqb p.burst 0)) [
  | inl e ↦ rw (e, if◌then◌else◌) w
  | inr e ↦
      let r = counted-room now l w in
      let h = counted-HasKeys now l w.keys in
      rw (e, if◌then◌else◌)
        (record {
          keys = put-HasKeys (bucket_key p key) _ (counted now l).buckets (bucket_key_lem p key) h;
          bounded = omega (arith, size-put-le (bucket_key p key) _ (counted now l).buckets, r.0);
          room = r.1;
        })
]

-- A request to a limiter.
pub record TakeRequest : Type 0 where
  pub policy : RateLimitPolicy
  pub key : String
  pub at : Time

abbrev pub after_takes : Floats → List TakeRequest → RateLimiter → RateLimiter
after_takes f [] l = l
after_takes f (r ∷ rs) l = after_takes f rs (take_token f r.policy r.key r.at l).0

takes-IsLimiter :
    (f : Floats) (rs : List TakeRequest) (l : RateLimiter)
    → IsLimiter l
    → IsLimiter (after_takes f rs l)
takes-IsLimiter f [] l w = w
takes-IsLimiter f (r ∷ rs) l w =
    takes-IsLimiter f rs _ (take_token-IsLimiter f r.policy r.key r.at l w)

take_token-max_keys :
    (f : Floats) (p : RateLimitPolicy) (key : String) (now : Time) (l : RateLimiter)
    → (take_token f p key now l).0.max_keys ≡ l.max_keys
unfolding take_token counted cleanup_buckets
take_token-max_keys f p key now l = ground arith

takes-max_keys :
    (f : Floats) (rs : List TakeRequest) (l : RateLimiter)
    → (after_takes f rs l).max_keys ≡ l.max_keys
takes-max_keys f [] l = refl
takes-max_keys f (r ∷ rs) l = takes-max_keys f rs _ ∙ take_token-max_keys f r.policy r.key r.at l

new_rate_limiter-IsLimiter : (n ttl : ℕ) → IsLimiter (new_rate_limiter n ttl)
unfolding size
new_rate_limiter-IsLimiter n ttl = record {
  keys = record { unique = tt; nonempty = tt };
  bounded = ground arith;
  room = ground arith;
}

-- After any requests, of any policies, keys and times, to a limiter that is made for `n` keys, its
-- buckets have distinct keys, none of them empty, and there are at most `n`, or at most 50000 if `n`
-- is zero.
pub buckets_bounded :
    (f : Floats) (n ttl : ℕ) (rs : List TakeRequest)
    → let l = after_takes f rs (new_rate_limiter n ttl) in
      HasKeys l.buckets × (size l.buckets ≤ (if eqb n 0 then 50_000 else n))
buckets_bounded f n ttl rs =
    let w = takes-IsLimiter f rs _ (new_rate_limiter-IsLimiter n ttl) in
    (w.keys, omega (arith, w.bounded, takes-max_keys f rs (new_rate_limiter n ttl)))
