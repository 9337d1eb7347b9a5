-- ===== src/Application/RateLimit/Refill.antt =====
-- internal/application/rate_limit.go: what a bucket lets through before its clock moves on.
use ferventio_backend.Base.{
  ℕ, zero, suc, ◌-◌, ◌^◌, ◌≤◌, ◌≡◌, refl, ap, ◌∙◌, true, some, none, List, [], ◌∷◌, arith, leb, min,
  length, if◌then◌else◌,
}
use ferventio_backend.Base.Lists.{All}
use ferventio_backend.Domain.Clock.{Time}
use ferventio_backend.Application.RateLimit.{
  Floats, RateLimitPolicy, RateLimitBucket, refilled, spend,
}

-- IEEE 754: a float64 holds every integer up to 2 ^ 53, and one less than it.
pub record IsExact (f : Floats) : Type 0 where
  pub counts : (n : ℕ) → n ≤ 2 ^ 53 → f.at_least (f.of_int n) (f.of_int 1) ≡ leb 1 n
  pub less : (n : ℕ) → suc n ≤ 2 ^ 53 → f.minus (f.of_int (suc n)) (f.of_int 1) ≡ f.of_int n

-- How many of the requests at these times a bucket admits.
unfoldable pub admitted : Floats → RateLimitPolicy → List Time → RateLimitBucket → ℕ
admitted f p [] b = 0
admitted f p (now ∷ later) b =
    let (b', decision) = spend f p now (refilled f p now (some b)) in
    let rest = admitted f p later b' in if decision.allowed then suc rest else rest

-- A bucket of `n` tokens at a request that is not after its last update.
still :
    (f : Floats) (p : RateLimitPolicy) (now : Time) (b : RateLimitBucket)
    → now ≤ b.updated_at
    → ((refilled f p now (some b)).tokens ≡ b.tokens)
      × ((refilled f p now (some b)).updated_at ≡ b.updated_at)
unfolding refilled
still f p now b h = ground arith

spend_lem :
    (f : Floats) (p : RateLimitPolicy) (now n : ℕ) (b : RateLimitBucket)
    → IsExact f
    → n ≤ 2 ^ 53
    → b.tokens ≡ f.of_int n
    → ((spend f p now b).1.allowed ≡ leb 1 n)
      × ((spend f p now b).0.tokens ≡ f.of_int (n - 1))
      × ((spend f p now b).0.updated_at ≡ b.updated_at)
unfolding spend
spend_lem f p now zero b x h e =
    let none_left = x.counts 0 h in
    (
      rw (e, none_left, if◌then◌else◌),
      rw (e, none_left, if◌then◌else◌),
      rw (e, none_left, if◌then◌else◌),
    )
spend_lem f p now (suc n) b x h e =
    let enough : f.at_least b.tokens (f.of_int 1) ≡ true =
      ap (λ a. f.at_least a (f.of_int 1)) e ∙ x.counts (suc n) h ∙ ground arith in
    (
      rw (enough, if◌then◌else◌) (ground arith),
      rw (enough, if◌then◌else◌)
          (ap (λ a. f.minus a (f.of_int 1)) e ∙ x.less n h ∙ ap (λ k. f.of_int k) (omega arith)),
      rw (enough, if◌then◌else◌),
    )

admits :
    (f : Floats) (p : RateLimitPolicy) (times : List Time) (n : ℕ) (b : RateLimitBucket)
    → IsExact f
    → n ≤ 2 ^ 53
    → b.tokens ≡ f.of_int n
    → All (λ now. now ≤ b.updated_at) times
    → admitted f p times b ≡ min (length times) n
unfolding admitted
admits f p [] n b x h e k = omega arith
admits f p (now ∷ later) n b x h e k =
    let b' = refilled f p now (some b) in
    let s = still f p now b k.0 in
    let r = spend_lem f p now n b' x h (s.0 ∙ e) in
    let clock = r.2 ∙ s.1 in
    let ih =
      admits f p later (n - 1) (spend f p now b').0 x (omega (arith, h)) r.1 (rw clock k.1) in
    rw r.0 (ground (arith, ih))

-- A new bucket, of a policy with at most 2 ^ 53 requests at once, admits the first `burst` of the
-- requests that come before its clock moves on, and no more of them, whatever their number.
pub burst_at_once :
    (f : Floats) (p : RateLimitPolicy) (times : List Time) (first : Time)
    → IsExact f
    → p.burst ≤ 2 ^ 53
    → All (λ now. now ≤ first) times
    → admitted f p times (refilled f p first none) ≡ min (length times) p.burst
unfolding refilled
burst_at_once f p times first x h k = admits f p times p.burst (refilled f p first none) x h refl k
