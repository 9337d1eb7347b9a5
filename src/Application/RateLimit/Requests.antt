-- ===== src/Application/RateLimit/Requests.antt =====
-- internal/application/rate_limit.go and validateMobileDevice of auth_handlers.go: the requests that the
-- limiter lets through to the handlers. The hash of an installation's credentials is a parameter.
use Prim.Native.String.{◌++◌ as ◌<>◌}
use ferventio_backend.Base.{
  ℕ, String, Bool, not, ◌&&◌, ◌||◌, Option, none, some, List, [], ◌∷◌, ◌++◌, ltb, max, ◌==◌,
  if◌then◌else◌,
}
use ferventio_backend.Base.Text.{trim_space, byte_length, cut_prefix, has_prefix, split_at}
use ferventio_backend.Domain.Clock.{Time}
use ferventio_backend.Application.Audits.{AuditEntry, audit_entry}
use ferventio_backend.Application.RateLimit.{
  Floats, RateLimitPolicy, RateLimitDecision, RateLimiter, take_token, unlimited,
}

-- The parts of an http.Request that decide: a header that is missing is empty.
pub record Request : Type 0 where
  pub method : String
  pub path : String
  pub installation_header : String
  pub secret_header : String
  -- requestClientIP
  pub client_ip : String

-- The settings of the server.
pub record RateLimits : Type 0 where
  pub disabled : Bool
  pub general : RateLimitPolicy
  pub auth : RateLimitPolicy
  pub installation : RateLimitPolicy
  pub admin : RateLimitPolicy

-- The headers of a response 429.
pub record TooManyRequests : Type 0 where
  pub retry_seconds : ℕ
  pub limit : ℕ

-- What a check does: the limiter after it, what it writes to the audit log, and the response if the
-- request is blocked.
abbrev pub Outcome : Type 0
Outcome = RateLimiter × List AuditEntry × Option TooManyRequests

abbrev pub audit_policy : RateLimitPolicy
audit_policy = record { name = "rate_limit_audit"; per_minute = 60; burst = 10 }

abbrev pub invalid_event_sub_policy : RateLimitPolicy
invalid_event_sub_policy = record { name = "eventsub_invalid_ip"; per_minute = 30; burst = 5 }

abbrev pub invalid_event_sub_audit_policy : RateLimitPolicy
invalid_event_sub_audit_policy = record {
  name = "eventsub_invalid_audit";
  per_minute = 60;
  burst = 10;
}

-- validateMobileDevice; some is its error.
unfoldable pub validate_mobile_device : String → String → Option String
validate_mobile_device installation_id device_secret =
    let id = trim_space installation_id in
    let secret = byte_length (trim_space device_secret) in
    if id == "" || ltb 128 (byte_length id)
    then some "invalid installationId"
    else if ltb secret 32 || ltb 256 secret
    then some "invalid deviceSecret"
    else none

unfoldable pub audit_rate_limit_block :
    Floats
    → RateLimitDecision
    → String
    → String
    → String
    → String
    → String
    → Time
    → RateLimiter
    → RateLimiter × List AuditEntry
audit_rate_limit_block f decision policy_name method path installation_id user_id now l =
    let (l', audited) = take_token f audit_policy "global" now l in
    if not decision.audit then (l, []) else if not audited.allowed then (l', []) else (
      l',
      record (audit_entry "security.rate_limit" "blocked") {
        installation_id = installation_id;
        user_id = user_id;
        detail = "policy=" <> policy_name <> " method=" <> method <> " path=" <> path;
      }
          ∷ [],
    )

-- retrySeconds of a decision.
abbrev pub retry_seconds : Floats → RateLimitDecision → ℕ
retry_seconds f decision = max 1 (f.ceil_int (f.seconds decision.retry_after))

unfoldable pub enforce_rate_limit :
    Floats → Request → RateLimitPolicy → String → String → String → Time → RateLimiter → Outcome
enforce_rate_limit f r policy key installation_id user_id now l =
    let (l', decision) = take_token f policy key now l in
    let (l'', audits) =
      audit_rate_limit_block f decision policy.name r.method r.path installation_id user_id now
        l' in
    if decision.allowed then (l', [], none) else (
      l'',
      audits,
      some (record { retry_seconds = retry_seconds f decision; limit = decision.limit }),
    )

-- The first part of a path.
abbrev pub first_part : List String → String
first_part [] = ""
first_part (part ∷ parts) = part

abbrev pub path_installation : String → String
path_installation path = elim (cut_prefix "/v1/push/registrations/" path) [
  | none ↦ ""
  | some remainder ↦ trim_space (first_part (split_at "/" remainder))
]

unfoldable pub request_installation_credentials : Request → String × String
request_installation_credentials r =
    let id = trim_space r.installation_header in
    (if id == "" then path_installation r.path else id, trim_space r.secret_header)

abbrev pub rate_limit_exempt_path : String → Bool
rate_limit_exempt_path path = path == "/v1/eventsub/webhook"

unfoldable pub policy_for : RateLimits → String → RateLimitPolicy
policy_for s path =
    if has_prefix "/v1/auth/" path
    then s.auth
    else if has_prefix "/v1/admin/" path
    then s.admin
    else s.general

unfoldable pub enforce_invalid_event_sub_rate_limit :
    Floats → RateLimits → Request → Time → RateLimiter → Outcome
enforce_invalid_event_sub_rate_limit f s r now l =
    if s.disabled
    then (l, [], none)
    else enforce_rate_limit f r invalid_event_sub_policy ("ip:" <> r.client_ip) "" "" now l

-- The error is its text.
unfoldable pub audit_invalid_event_sub_verification :
    Floats → String → String → Time → RateLimiter → RateLimiter × List AuditEntry
audit_invalid_event_sub_verification f message_id error now l =
    let (l', decision) = take_token f invalid_event_sub_audit_policy "global" now l in
    if decision.allowed
    then (
      l',
      record (audit_entry "eventsub.verify" "rejected") { event_id = message_id; detail = error }
          ∷ [],
    )
    else (l', [])

-- The hash of a text, in hexadecimal.
module _ (f : Floats) (sha256_hex : String → String) where
  abbrev pub installation_rate_key : String → String → String
  installation_rate_key installation_id device_secret =
      sha256_hex (trim_space installation_id <> "\0" <> trim_space device_secret)

  unfoldable pub enforce_installation_rate_limit :
      RateLimits → Request → String → String → Time → RateLimiter → Outcome
  enforce_installation_rate_limit s r installation_id device_secret now l =
      elim (validate_mobile_device installation_id device_secret) [
        | some error ↦ (l, [], none)
        | none ↦
            if s.disabled
            then (l, [], none)
            else enforce_rate_limit f r s.installation
                ("installation:" <> installation_rate_key installation_id device_secret)
                (trim_space installation_id) "" now l
      ]

  unfoldable pub take_installation_rate_limit :
      RateLimits → String → String → Time → RateLimiter → RateLimiter × RateLimitDecision
  take_installation_rate_limit s installation_id device_secret now l =
      elim (validate_mobile_device installation_id device_secret) [
        | some error ↦ (l, unlimited)
        | none ↦
            if s.disabled
            then (l, unlimited)
            else take_token f s.installation
                ("installation:" <> installation_rate_key installation_id device_secret) now l
      ]

  -- After the check by address, that of the installation whose credentials are there.
  abbrev pub and_installation :
      RateLimits → Request → Time → RateLimiter × List AuditEntry × Option TooManyRequests → Outcome
  and_installation s r now (l, audits, some blocked) = (l, audits, some blocked)
  and_installation s r now (l, audits, none) =
      let (id, secret) = request_installation_credentials r in
      let (l', audits', blocked) = enforce_installation_rate_limit s r id secret now l in
      if not (id == "") && not (secret == "")
      then (l', audits ++ audits', blocked)
      else (l, audits, none)

  -- rateLimitRequests; no response means that the request goes on to its handler.
  unfoldable pub rate_limit_requests : RateLimits → Request → Time → RateLimiter → Outcome
  rate_limit_requests s r now l =
      if s.disabled || rate_limit_exempt_path r.path
      then (l, [], none)
      else and_installation s r now
          (enforce_rate_limit f r (policy_for s r.path) ("ip:" <> r.client_ip) "" "" now l)
