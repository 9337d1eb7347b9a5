-- ===== src/Application/RateLimit/Gate.antt =====
-- internal/application/rate_limit.go: what the middleware does to the limiter.
use ferventio_backend.Base.{
  ◌≡◌, String, not, ◌&&◌, ◌||◌, ◌⊎◌, inl, inr, none, some, ◌==◌, if◌then◌else◌, Bool-cases,
  Option-cases,
}
use ferventio_backend.Domain.Clock.{Time}
use ferventio_backend.Application.RateLimit.{
  Floats, RateLimitPolicy, RateLimitDecision, RateLimiter, take_token,
}
use ferventio_backend.Application.RateLimit.Bounds.{IsLimiter, take_token-IsLimiter}
use ferventio_backend.Application.RateLimit.Requests.{
  Request, RateLimits, Outcome, audit_policy, audit_rate_limit_block, enforce_rate_limit,
  rate_limit_requests, policy_for, rate_limit_exempt_path, and_installation,
  enforce_installation_rate_limit, validate_mobile_device, request_installation_credentials,
}

-- The limiter after the audit of a block is the one before, or has served one more request.
audit_cases :
    (f : Floats) (d : RateLimitDecision) (n m path i u : String) (now : Time) (l : RateLimiter)
    → ((audit_rate_limit_block f d n m path i u now l).0 ≡ l)
      ⊎ ((audit_rate_limit_block f d n m path i u now l).0
          ≡ (take_token f audit_policy "global" now l).0)
unfolding audit_rate_limit_block
audit_cases f d n m path i u now l = elim (Bool-cases (not d.audit)) [
  | inl e ↦ inl (rw (e, if◌then◌else◌))
  | inr e ↦ inr (elim (Bool-cases (not (take_token f audit_policy "global" now l).1.allowed)) [
    | inl h ↦ rw (e, if◌then◌else◌, h)
    | inr h ↦ rw (e, if◌then◌else◌, h)
  ])
]

audit-IsLimiter :
    (f : Floats) (d : RateLimitDecision) (n m path i u : String) (now : Time) (l : RateLimiter)
    → IsLimiter l
    → IsLimiter (audit_rate_limit_block f d n m path i u now l).0
audit-IsLimiter f d n m path i u now l w = elim (audit_cases f d n m path i u now l) [
  | inl e ↦ rw e w
  | inr e ↦ rw e (take_token-IsLimiter f audit_policy "global" now l w)
]

enforce-IsLimiter :
    (f : Floats) (r : Request) (p : RateLimitPolicy) (key i u : String) (now : Time)
    (l : RateLimiter)
    → IsLimiter l
    → IsLimiter (enforce_rate_limit f r p key i u now l).0
unfolding enforce_rate_limit
enforce-IsLimiter f r p key i u now l w =
    let w' = take_token-IsLimiter f p key now l w in
    elim (Bool-cases (take_token f p key now l).1.allowed) [
      | inl e ↦ rw (e, if◌then◌else◌) w'
      | inr e ↦ rw (e, if◌then◌else◌) (audit-IsLimiter f _ p.name r.method r.path i u now _ w')
    ]

module _ (f : Floats) (sha256_hex : String → String) where
  installation-IsLimiter :
      (s : RateLimits) (r : Request) (id secret : String) (now : Time) (l : RateLimiter)
      → IsLimiter l
      → IsLimiter (enforce_installation_rate_limit f sha256_hex s r id secret now l).0
  unfolding enforce_installation_rate_limit
  installation-IsLimiter s r id secret now l w =
      elim (Option-cases (validate_mobile_device id secret)) [
        | inr (x, e) ↦ rw (enforce_installation_rate_limit, e) w
        | inl e ↦ elim (Bool-cases s.disabled) [
          | inl off ↦ rw (enforce_installation_rate_limit, e, off) w
          | inr on ↦
              rw (enforce_installation_rate_limit, e, on) (enforce-IsLimiter f r _ _ _ "" now l w)
        ]
      ]

  and_installation-IsLimiter :
      (s : RateLimits) (r : Request) (now : Time) (o : Outcome)
      → IsLimiter o.0
      → IsLimiter (and_installation f sha256_hex s r now o).0
  and_installation-IsLimiter s r now (l, audits, some blocked) w = w
  and_installation-IsLimiter s r now (l, audits, none) w =
      let (id, secret) = request_installation_credentials r in
      elim (Bool-cases (not (id == "") && not (secret == ""))) [
        | inl e ↦ rw (e, if◌then◌else◌) (installation-IsLimiter s r id secret now l w)
        | inr e ↦ rw (e, if◌then◌else◌) w
      ]

  -- The middleware keeps the keys of the limiter's buckets distinct and not empty, and their number
  -- within its bound, for every request.
  pub rate_limit_requests-IsLimiter :
      (s : RateLimits) (r : Request) (now : Time) (l : RateLimiter)
      → IsLimiter l
      → IsLimiter (rate_limit_requests f sha256_hex s r now l).0
  unfolding rate_limit_requests
  rate_limit_requests-IsLimiter s r now l w =
      elim (Bool-cases (s.disabled || rate_limit_exempt_path r.path)) [
        | inl e ↦ rw (e, if◌then◌else◌) w
        | inr e ↦
            rw (e, if◌then◌else◌)
              (and_installation-IsLimiter s r now _
                (enforce-IsLimiter f r (policy_for s r.path) _ "" "" now l w))
      ]
