-- ===== src/Tests/Requests.antt =====
-- internal/application/rate_limit.go: the limiter.
use Prim.Native.String.{◌++◌ as ◌<>◌}
use ferventio_backend.Base.{
  ◌+◌, ◌-◌, ◌*◌, ◌/◌, ◌≤◌, leb, eqb, min, length, if◌then◌else◌, ◌≡◌, refl, String, Bool, Option,
  none, some, List, [], ◌∷◌, arith, ◌==◌,
}
use ferventio_backend.Base.Text.{trim_space, trim_by, split_at}
use ferventio_backend.Base.GoMap.{size}
use ferventio_backend.Domain.Clock.{Time, second}
use ferventio_backend.Application.RateLimit.{
  Floats, RateLimitPolicy, RateLimiter, new_rate_limiter, refilled,
}
use ferventio_backend.Application.RateLimit.Refill.{IsExact, admitted, burst_at_once}
use ferventio_backend.Application.RateLimit.Bounds.{
  HasKeys, TakeRequest, after_takes, buckets_bounded,
}
use ferventio_backend.Application.RateLimit.ClientIp.{
  parse_request_ip, ip_in_prefixes, forwarded_chain, last_untrusted, request_client_ip,
  forged_forwarded_for,
}

abbrev policy : RateLimitPolicy
policy = record { name = "general"; per_minute = 60; burst = 1 }

abbrev three_times : List Time
three_times = second ∷ second ∷ second ∷ []

-- Whole numbers, for want of a float64.
abbrev pub whole : Floats
whole = record {
  of_int = λ n. n;
  seconds = λ d. d / second;
  plus = λ a b. a + b;
  minus = λ a b. a - b;
  times = λ a b. a * b;
  divided_by = λ a b. a / b;
  smaller = λ a b. min a b;
  at_least = λ a b. leb b a;
  floor_int = λ a. a;
  ceil_int = λ a. a;
}

whole-IsExact : IsExact whole
whole-IsExact = record { counts = λ n h. refl; less = λ n h. omega arith }

burst_at_once_example :
    admitted whole policy three_times (refilled whole policy second none)
    ≡ min (length three_times) policy.burst
burst_at_once_example =
    burst_at_once whole policy three_times second whole-IsExact (omega arith)
      (omega arith, (omega arith, (omega arith, tt)))

abbrev asks : List TakeRequest
asks =
    record { policy = policy; key = "ip:1"; at = second }
    ∷ record { policy = policy; key = "ip:2"; at = second }
    ∷ []

abbrev asked : RateLimiter
asked = after_takes whole asks (new_rate_limiter 1 0)

buckets_bounded_example :
    HasKeys asked.buckets × (size asked.buckets ≤ (if eqb 1 0 then 50_000 else 1))
buckets_bounded_example = buckets_bounded whole 1 0 asks

-- Addresses and prefixes that are texts, and a prefix of one address.
abbrev no_port : String → Option String
no_port s = none

abbrev as_address : String → Option String
as_address s = some s

abbrev same : String → String
same s = s

abbrev is_address : String → String → Bool
is_address p a = p == a

abbrev proxies : List String
proxies = "10.0.0.1" ∷ []

hop_found :
    last_untrusted no_port as_address same is_address same proxies
      (forwarded_chain no_port as_address same is_address same (split_at "," "2.2.2.2, 10.0.0.1"))
    ≡ some "2.2.2.2"
unfolding last_untrusted forwarded_chain parse_request_ip ip_in_prefixes split_at trim_space trim_by
hop_found = refl

forged_forwarded_for_example :
    request_client_ip no_port as_address same is_address same "10.0.0.1"
      ("1.1.1.1" <> ("," <> "2.2.2.2, 10.0.0.1"))
      proxies
    ≡ request_client_ip no_port as_address same is_address same "10.0.0.1" "2.2.2.2, 10.0.0.1"
        proxies
forged_forwarded_for_example =
    forged_forwarded_for no_port as_address same is_address same "10.0.0.1" "1.1.1.1"
      "2.2.2.2, 10.0.0.1" proxies "2.2.2.2" hop_found
