-- ===== src/Application/RateLimit.antt =====
-- internal/application/rate_limit.go: the token buckets. The code counts tokens in `float64`, whose
-- arithmetic is a parameter. The limiter's clock is an argument.
pub mod Refill
pub mod Bounds
pub mod ClientIp
pub mod Requests
pub mod Gate
use Prim.Native.String.{◌++◌}
use ferventio_backend.Base.{
  ℕ, zero, suc, ◌+◌, ◌-◌, ◌*◌, ◌/◌, ◌%◌, ◌^◌, String, Bool, true, false, not, ◌&&◌, ◌||◌, Option,
  none, some, List, [], ltb, leb, eqb, min, max, ◌==◌, if◌then◌else◌,
}
use ferventio_backend.Base.GoMap.{GoMap, get, put, delete, retain, update, size}
use ferventio_backend.Base.Text.{trim_space}
use ferventio_backend.Domain.Clock.{Time, Duration, is_zero, before, after, second, minute}
use ferventio_backend.Memory.Delivery.{oldest_from}

pub record RateLimitPolicy : Type 0 where
  pub name : String
  pub per_minute : ℕ
  pub burst : ℕ

pub record RateLimitDecision : Type 0 where
  pub allowed : Bool
  pub retry_after : Duration
  pub limit : ℕ
  pub remaining : ℕ
  pub audit : Bool

-- A float64 by its bits, and what the code does with it: conversions from integers and from a
-- duration in seconds, `+`, `-`, `*`, `/`, math.Min, `>=`, and the integers of math.Floor and math.Ceil.
abbrev pub Float64 : Type 0
Float64 = ℕ

pub record Floats : Type 0 where
  pub of_int : ℕ → Float64
  pub seconds : Duration → Float64
  pub plus : Float64 → Float64 → Float64
  pub minus : Float64 → Float64 → Float64
  pub times : Float64 → Float64 → Float64
  pub divided_by : Float64 → Float64 → Float64
  pub smaller : Float64 → Float64 → Float64
  pub at_least : Float64 → Float64 → Bool
  pub floor_int : Float64 → ℕ
  pub ceil_int : Float64 → ℕ

pub record RateLimitBucket : Type 0 where
  pub tokens : Float64
  pub updated_at : Time
  pub last_seen : Time
  pub last_blocked_audit : Time

pub record RateLimiter : Type 0 where
  pub buckets : GoMap RateLimitBucket
  pub max_keys : ℕ
  pub idle_ttl : Duration
  pub operations : ℕ

-- rateLimitAuditInterval
abbrev pub rate_limit_audit_interval : Duration
rate_limit_audit_interval = minute

abbrev pub new_rate_limiter : ℕ → Duration → RateLimiter
new_rate_limiter max_keys idle_ttl = record {
  buckets = [];
  max_keys = if eqb max_keys 0 then 50_000 else max_keys;
  idle_ttl = if eqb idle_ttl 0 then 30 * minute else idle_ttl;
  operations = 0;
}

-- ratePerSecond
abbrev pub rate_per_second : Floats → RateLimitPolicy → Float64
rate_per_second f p = f.divided_by (f.of_int p.per_minute) (f.of_int 60)

-- The bucket as a take finds it: new and full, or refilled.
unfoldable pub refilled : Floats → RateLimitPolicy → Time → Option RateLimitBucket → RateLimitBucket
refilled f p now none = record {
  tokens = f.of_int p.burst;
  updated_at = now;
  last_seen = now;
  last_blocked_audit = 0;
}
refilled f p now (some b) =
    if after now b.updated_at
    then record b {
      tokens =
          f.smaller (f.of_int p.burst)
            (f.plus b.tokens (f.times (f.seconds (now - b.updated_at)) (rate_per_second f p)));
      updated_at = now;
      last_seen = now;
    }
    else record b { last_seen = now }

-- How long a bucket takes to gain what it lacks.
unfoldable pub retry_after : Floats → RateLimitPolicy → Float64 → Duration
retry_after f p tokens =
    let missing = f.minus (f.of_int 1) tokens in
    max second (f.ceil_int (f.times (f.divided_by missing (rate_per_second f p)) (f.of_int second)))

unfoldable pub audit_due : Time → RateLimitBucket → Bool
audit_due now b =
    is_zero b.last_blocked_audit || leb rate_limit_audit_interval (now - b.last_blocked_audit)

-- A token of the bucket is spent, or the request is blocked.
unfoldable pub spend :
    Floats → RateLimitPolicy → Time → RateLimitBucket → RateLimitBucket × RateLimitDecision
spend f p now b =
    if f.at_least b.tokens (f.of_int 1)
    then (
      record b { tokens = f.minus b.tokens (f.of_int 1) },
      record {
        allowed = true;
        retry_after = 0;
        limit = p.per_minute;
        remaining = f.floor_int (f.minus b.tokens (f.of_int 1));
        audit = false;
      },
    )
    else (
      record b { last_blocked_audit = if audit_due now b then now else b.last_blocked_audit },
      record {
        allowed = false;
        retry_after = retry_after f p b.tokens;
        limit = p.per_minute;
        remaining = 0;
        audit = audit_due now b;
      },
    )

unfoldable pub evict : ℕ → ℕ → GoMap RateLimitBucket → GoMap RateLimitBucket
evict zero max_keys m = m
evict (suc fuel) max_keys m =
    let oldest = (oldest_from ("", 0) (update (λ _ b. b.last_seen) m)).0 in
    let rest = evict fuel max_keys (delete oldest m) in
    if leb max_keys (size m) && not (oldest == "") then rest else m

-- cleanupLocked. Each round of its last loop deletes an entry, so as many rounds as there are
-- entries are enough. A time before the zero time is 0 here; it would come before every other.
unfoldable pub cleanup_buckets : Time → RateLimiter → RateLimiter
cleanup_buckets now l =
    let kept = retain (λ _ b. not (before b.last_seen (now - l.idle_ttl))) l.buckets in
    record l { buckets = evict (size kept) l.max_keys kept }

abbrev pub key_or_unknown : String → String
key_or_unknown key = if trim_space key == "" then "unknown" else trim_space key

abbrev pub bucket_key : RateLimitPolicy → String → String
bucket_key p key = p.name ++ "\0" ++ key_or_unknown key

abbrev pub unlimited : RateLimitDecision
unlimited = record { allowed = true; retry_after = 0; limit = 0; remaining = 0; audit = false }

unfoldable pub cleanup_due : RateLimiter → Bool
cleanup_due l = eqb (l.operations % 256) 0 || leb l.max_keys (size l.buckets)

-- `operations` is a uint64.
abbrev pub count_operation : RateLimiter → RateLimiter
count_operation l = record l { operations = (l.operations + 1) % 2 ^ 64 }

unfoldable pub counted : Time → RateLimiter → RateLimiter
counted now l =
    if cleanup_due (count_operation l)
    then cleanup_buckets now (count_operation l)
    else count_operation l

unfoldable pub take_token :
    Floats → RateLimitPolicy → String → Time → RateLimiter → RateLimiter × RateLimitDecision
take_token f p key now l =
    if eqb p.per_minute 0 || eqb p.burst 0
    then (l, unlimited)
    else (let l' = counted now l in
        let k = bucket_key p key in
        let (b, decision) = spend f p now (refilled f p now (get k l'.buckets)) in
        (record l' { buckets = put k b l'.buckets }, decision))
