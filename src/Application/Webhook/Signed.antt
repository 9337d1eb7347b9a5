-- ===== src/Application/Webhook/Signed.antt =====
-- internal/application/eventsub.go: what eventSubWebhook does with a message that is not signed.
use Prim.Native.String.{◌++◌ as ◌<>◌}
use ferventio_backend.Base.{
  ℕ, ◌+◌, ◌≤◌, ◌≡◌, refl, ap, sym, not, String, Bool, true, false, ◌||◌, ◌⊎◌, inl, inr, Option,
  none, some, List, [], ◌∷◌, arith, ◌==◌, if◌then◌else◌, Bool-cases, Option-cases,
}
use ferventio_backend.Base.Text.{trim_space, has_prefix}
use ferventio_backend.Domain.Clock.{Time}
use ferventio_backend.Domain.EventSub.{EventSubEnvelope}
use ferventio_backend.Application.RateLimit.Requests.{
  RateLimits, Request, enforce_invalid_event_sub_rate_limit,
}
use ferventio_backend.Application.Webhook.{
  WebhookLibrary, WebhookRequest, WebhookState, Response, event_sub_replay_window, bytes_equal,
  trim_prefix, outside_window, signature_matches, verify_event_sub_message, validate_headers,
  reject, accept, event_sub_webhook,
}

bytes_equal_sound : (xs ys : List ℕ) → bytes_equal xs ys ≡ true → xs ≡ ys
unfolding bytes_equal
bytes_equal_sound [] [] h = refl
bytes_equal_sound [] (y ∷ ys) h = cc
bytes_equal_sound (x ∷ xs) [] h = cc
bytes_equal_sound (x ∷ xs) (y ∷ ys) h = grind (arith, bytes_equal_sound xs ys)

outside_window-le :
    (now t : Time)
    → outside_window now t ≡ false
    → (now ≤ t + event_sub_replay_window) × (t ≤ now + event_sub_replay_window)
outside_window-le now t h = (ground arith, ground arith)

module _ (g : WebhookLibrary) where
  -- A message that Twitch signed with the secret: its time stamp is within the window around `now`, and
  -- the bytes of its signature are the code of its id, time stamp and body.
  abbrev pub IsSigned : String → String → String → String → List ℕ → Time → Type 0
  IsSigned secret message_id raw_timestamp signature body now =
      (t : Time) × (g.parse_time raw_timestamp ≡ some t)
      × (now ≤ t + event_sub_replay_window)
      × (t ≤ now + event_sub_replay_window)
      × (g.hex_decode (trim_prefix "sha256=" signature)
          ≡ some (g.hmac_sha256 secret (message_id <> raw_timestamp) body))

  matched :
      (secret id ts : String) (provided : Option (List ℕ)) (body : List ℕ)
      → signature_matches g secret id ts provided body ≡ true
      → provided ≡ some (g.hmac_sha256 secret (id <> ts) body)
  matched secret id ts none body h = cc
  matched secret id ts (some p) body h = ap some (sym (bytes_equal_sound _ p h))

  verified-IsSigned :
      (secret id ts signature : String) (body : List ℕ) (now : Time)
      → verify_event_sub_message g secret id ts signature body now ≡ none
      → IsSigned secret id ts signature body now
  unfolding verify_event_sub_message
  verified-IsSigned secret id ts signature body now h =
      elim (Bool-cases (id == "" || ts == "" || not (has_prefix "sha256=" signature))) [
        | inl e ↦ cc (rw (e, if◌then◌else◌) at h)
        | inr e ↦ elim (Option-cases (g.parse_time ts)) [
          | inl p ↦ cc (rw (e, if◌then◌else◌, p) at h)
          | inr (t, p) ↦ elim (Bool-cases (outside_window now t)) [
            | inl w ↦ cc (rw (e, if◌then◌else◌, p, w) at h)
            | inr w ↦
                elim (Bool-cases (
                  signature_matches g secret id ts (g.hex_decode (trim_prefix "sha256=" signature))
                    body)) [
                      | inl m ↦ (
                        t,
                        p,
                        (outside_window-le now t w).0,
                        (outside_window-le now t w).1,
                        matched secret id ts _ body m,
                      )
                      | inr m ↦ cc (rw (e, if◌then◌else◌, p, w, m) at h)
                    ]
          ]
        ]
      ]

  -- A refused message changes neither the deliveries nor the queue, asks for no reconciliation and is
  -- answered with an error.
  abbrev pub IsRefused : WebhookState → WebhookState × Response → Type 0
  IsRefused s r =
      (r.0.deliveries ≡ s.deliveries)
      × (r.0.queue ≡ s.queue)
      × (r.0.reconcile ≡ s.reconcile)
      × (400 ≤ r.1.status)

  reject-IsRefused :
      (limits : RateLimits) (r : Request) (id error : String) (now : Time) (s : WebhookState)
      → IsRefused s (reject g limits r id error now s)
  unfolding reject
  reject-IsRefused limits r id error now s =
      elim (Option-cases (enforce_invalid_event_sub_rate_limit g.floats limits r now s.limiter).2) [
        | inl e ↦ rw (reject, e) (refl, refl, refl, omega arith)
        | inr (b, e) ↦ rw (reject, e) (refl, refl, refl, omega arith)
      ]

  -- What the handler does, after the checks of the request.
  abbrev pub Handled : String → Bool → RateLimits → WebhookRequest → Time → WebhookState → Type 0
  Handled secret enabled limits r now s =
      (body : List ℕ) × (r.body ≡ some body)
      × IsSigned secret (trim_space r.id_header) (trim_space r.timestamp_header)
          (trim_space r.signature_header) body now
      × (IsRefused s (event_sub_webhook g secret enabled limits r now s)
          ⊎ ((envelope : EventSubEnvelope) × (event_sub_webhook g secret enabled limits r now s
                ≡ accept g enabled (trim_space r.id_header) r.type_header envelope now s)))

  pub event_sub_webhook_cases :
      (secret : String) (enabled : Bool) (limits : RateLimits) (r : WebhookRequest) (now : Time)
      (s : WebhookState)
      → Handled secret enabled limits r now s
        ⊎ IsRefused s (event_sub_webhook g secret enabled limits r now s)
  unfolding event_sub_webhook
  event_sub_webhook_cases secret enabled limits r now s =
      let id = trim_space r.id_header in
      let ts = trim_space r.timestamp_header in
      let signature = trim_space r.signature_header in
      elim (Bool-cases (secret == "")) [
        | inl e ↦ inr (rw (event_sub_webhook, e, if◌then◌else◌) (refl, refl, refl, omega arith))
        | inr e ↦ elim (Option-cases (validate_headers id ts signature)) [
          | inr (x, h) ↦ inr (
              rw (event_sub_webhook, e, if◌then◌else◌, h)
                (reject-IsRefused limits r.request id x now s))
          | inl h ↦ elim (Option-cases r.body) [
            | inl b ↦
                inr (rw (event_sub_webhook, e, if◌then◌else◌, h, b) (refl, refl, refl, omega arith))
            | inr (body, b) ↦
                elim (Option-cases (verify_event_sub_message g secret id ts signature body now)) [
                  | inr (x, v) ↦ inr (
                      rw (event_sub_webhook, e, if◌then◌else◌, h, b, v)
                        (reject-IsRefused limits r.request id x now s))
                  | inl v ↦ inl (
                    body,
                    b,
                    verified-IsSigned secret id ts signature body now v,
                    elim (Option-cases (g.unmarshal body)) [
                      | inl u ↦ inl (
                          rw (event_sub_webhook, e, if◌then◌else◌, h, b, v, u)
                            (refl, refl, refl, omega arith))
                      | inr (envelope, u) ↦
                          inr (envelope, rw (event_sub_webhook, e, if◌then◌else◌, h, b, v, u) refl)
                    ],
                  )
                ]
          ]
        ]
      ]

  -- Whatever a request to the webhook holds, either its body is signed with the secret over its trimmed
  -- id and time stamp, and the time stamp is within ten minutes of now; or the handler changes neither
  -- the deliveries nor the queue, asks for no reconciliation, and answers with an error.
  pub forged_message_ignored :
      (secret : String) (enabled : Bool) (limits : RateLimits) (r : WebhookRequest) (now : Time)
      (s : WebhookState)
      → ((body : List ℕ) × (r.body ≡ some body)
          × IsSigned secret
              (trim_space r.id_header)
              (trim_space r.timestamp_header)
              (trim_space r.signature_header)
              body
              now)
        ⊎ IsRefused s (event_sub_webhook g secret enabled limits r now s)
  forged_message_ignored secret enabled limits r now s =
      elim (event_sub_webhook_cases secret enabled limits r now s) [
        | inl (body, b, signed, result) ↦ inl (body, b, signed)
        | inr refused ↦ inr refused
      ]
