-- ===== src/Application/Webhook.antt =====
-- internal/application/eventsub.go: eventSubWebhook, the handler of what Twitch sends, with the checks of its
-- headers and its signature. The limiter is configured. A response is its status and its text.
pub mod Signed
pub mod Durable
use Prim.Native.String.{◌++◌ as ◌<>◌}
use ferventio_backend.Base.{
  ℕ, ◌+◌, ◌-◌, ◌*◌, String, Bool, true, false, not, ◌&&◌, ◌||◌, Option, none, some, List, [], ◌∷◌,
  ◌++◌, ltb, eqb, ◌==◌, if◌then◌else◌, Result, ok, err,
}
use ferventio_backend.Base.Text.{trim_space, byte_length, cut_prefix, has_prefix}
use ferventio_backend.Domain.Clock.{Time, Duration, minute, hour}
use ferventio_backend.Domain.Delivery.{EventSubInboxRecord, is_pending}
use ferventio_backend.Domain.EventSub.{EventSubEnvelope}
use ferventio_backend.Memory.Delivery.{DeliveryStore, DeliveryError}
use ferventio_backend.Memory.Delivery.Inbox.{
  Enqueued, created, queued, seen_before, enqueue_event_sub, seen_event_sub,
}
use ferventio_backend.Application.Audits.{AuditEntry, audit_entry}
use ferventio_backend.Application.RateLimit.{Floats, RateLimiter}
use ferventio_backend.Application.RateLimit.Requests.{
  RateLimits, Request, enforce_invalid_event_sub_rate_limit, audit_invalid_event_sub_verification,
}
use ferventio_backend.Application.EventSub.Queue.{EventQueue, schedule_event_sub}
use ferventio_backend.Application.EventSub.Values.{string_value, first_non_blank}

abbrev pub event_sub_replay_window : Duration
event_sub_replay_window = 10 * minute

-- Go's library, and the text of a store's error.
pub record WebhookLibrary : Type 0 where
  pub floats : Floats
  -- hmac.New with sha256.New and a secret, to which a text and then the bytes of the body are written
  pub hmac_sha256 : String → String → List ℕ → List ℕ
  -- hex.DecodeString
  pub hex_decode : String → Option (List ℕ)
  -- time.Parse with RFC3339Nano, and the text of its error
  pub parse_time : String → Option Time
  pub parse_error : String → String
  -- json.Unmarshal into the envelope
  pub unmarshal : List ℕ → Option EventSubEnvelope
  -- the first bytes of a text
  pub first_bytes : ℕ → String → String
  pub store_error : DeliveryError → String

-- The body is none if it cannot be read or is too long.
pub record WebhookRequest : Type 0 where
  pub request : Request
  pub id_header : String
  pub timestamp_header : String
  pub signature_header : String
  pub type_header : String
  pub body : Option (List ℕ)

pub record WebhookState : Type 0 where
  pub limiter : RateLimiter
  pub deliveries : DeliveryStore
  pub queue : EventQueue
  pub audits : List AuditEntry
  -- whether the reconciliation of the subscriptions was asked for
  pub reconcile : Bool

pub record Response : Type 0 where
  pub status : ℕ
  pub text : String

abbrev pub answer : ℕ → String → Response
answer status text = record { status = status; text = text }

-- validateEventSubVerificationHeaders; some is its error.
unfoldable pub validate_headers : String → String → String → Option String
validate_headers message_id raw_timestamp signature =
    if message_id == "" || raw_timestamp == "" || signature == ""
    then some "missing EventSub verification headers"
    else if ltb 128 (byte_length message_id)
        || ltb 64 (byte_length raw_timestamp)
        || not (eqb (byte_length signature) (7 + 32 * 2))
    then some "invalid EventSub verification header length"
    else if not (has_prefix "sha256=" signature)
    then some "invalid EventSub signature format"
    else none

-- hmac.Equal
unfoldable pub bytes_equal : List ℕ → List ℕ → Bool
bytes_equal [] [] = true
bytes_equal [] (b ∷ bs) = false
bytes_equal (a ∷ as') [] = false
bytes_equal (a ∷ as') (b ∷ bs) = eqb a b && bytes_equal as' bs

-- strings.TrimPrefix
abbrev pub trim_prefix : String → String → String
trim_prefix prefix s = elim (cut_prefix prefix s) [ none ↦ s | some rest ↦ rest ]

abbrev pub outside_window : Time → Time → Bool
outside_window now timestamp =
    ltb event_sub_replay_window (now - timestamp) || ltb event_sub_replay_window (timestamp - now)

module _ (g : WebhookLibrary) where
  abbrev pub signature_matches : String → String → String → Option (List ℕ) → List ℕ → Bool
  signature_matches secret message_id raw_timestamp none body = false
  signature_matches secret message_id raw_timestamp (some provided) body =
      bytes_equal (g.hmac_sha256 secret (message_id <> raw_timestamp) body) provided

  -- verifyEventSubMessage; some is its error.
  unfoldable pub verify_event_sub_message :
      String → String → String → String → List ℕ → Time → Option String
  verify_event_sub_message secret message_id raw_timestamp signature body now =
      if message_id == "" || raw_timestamp == "" || not (has_prefix "sha256=" signature)
      then some "missing EventSub verification headers"
      else elim (g.parse_time raw_timestamp) [
        | none ↦ some ("invalid EventSub timestamp: " <> g.parse_error raw_timestamp)
        | some timestamp ↦
            if outside_window now timestamp
            then some "EventSub timestamp is outside replay window"
            else if signature_matches secret message_id raw_timestamp
                (g.hex_decode (trim_prefix "sha256=" signature)) body
            then none
            else some "EventSub signature mismatch"
      ]

  unfoldable pub bounded_event_sub_message_id : String → String
  bounded_event_sub_message_id value =
      let trimmed = trim_space value in
      if ltb 256 (byte_length trimmed) then g.first_bytes 256 trimmed else trimmed

  abbrev add_audit : AuditEntry → WebhookState → WebhookState
  add_audit entry s = record s { audits = s.audits ++ entry ∷ [] }

  -- The answer to a message that is not verified: the address's limit, then the audit of the error.
  unfoldable pub reject :
      RateLimits → Request → String → String → Time → WebhookState → WebhookState × Response
  reject limits r message_id error now s =
      let (l, blocks, limited) =
        enforce_invalid_event_sub_rate_limit g.floats limits r now s.limiter in
      let (l', audits) =
        audit_invalid_event_sub_verification g.floats (bounded_event_sub_message_id message_id)
          error now l in
      elim limited [
        | some blocked ↦ (
          record s { limiter = l; audits = s.audits ++ blocks },
          answer 429 "rate limit exceeded",
        )
        | none ↦ (
          record s { limiter = l'; audits = s.audits ++ blocks ++ audits },
          answer 403 "invalid EventSub signature",
        )
      ]

  -- The inbox's record is given to a worker; if the queue is full, it waits for the drainer.
  unfoldable pub hand_over :
      String → EventSubEnvelope → EventSubInboxRecord → WebhookState → WebhookState × Response
  hand_over message_id envelope r s =
      let (queue, scheduled) = schedule_event_sub r s.queue in
      let s' = record s { queue = queue } in
      let waiting = record (audit_entry "eventsub.enqueue" "persisted_waiting") {
        event_id = message_id;
        detail = envelope.subscription.type_name;
      } in
      if r.message_id == "" || not (is_pending r.status)
      then (s, answer 204 "")
      else if scheduled
      then (s', answer 204 "")
      else (add_audit waiting s', answer 204 "")

  unfoldable pub accept_notification :
      String → EventSubEnvelope → Time → WebhookState → WebhookState × Response
  accept_notification message_id envelope now s =
      let (deliveries, result) = enqueue_event_sub message_id envelope now s.deliveries in
      let s' = record s { deliveries = deliveries } in
      elim result [
        | err e ↦ (
          add_audit
              (record (audit_entry "eventsub.enqueue" "persist_failed") {
                event_id = message_id;
                detail = g.store_error e;
              })
              s',
          answer 503 "EventSub inbox is unavailable",
        )
        | ok (created r) ↦ hand_over message_id envelope r (
            add_audit
              (record (audit_entry "eventsub.enqueue" "persisted") {
                event_id = message_id;
                channel_id = first_non_blank (
                    string_value envelope.event "broadcaster_user_id"
                    ∷ string_value envelope.event "to_broadcaster_user_id"
                    ∷ []);
                detail = envelope.subscription.type_name;
              })
              s')
        | ok (queued r) ↦ hand_over message_id envelope r s'
        | ok seen_before ↦ (s', answer 204 "")
      ]

  unfoldable pub accept_revocation :
      Bool → String → EventSubEnvelope → Time → WebhookState → WebhookState × Response
  accept_revocation enabled message_id envelope now s = (
    add_audit
        (record (audit_entry "eventsub.revocation" envelope.subscription.status) {
          event_id = message_id;
          detail = envelope.subscription.type_name <> ":" <> envelope.subscription.id;
        })
        (record s {
          deliveries = (seen_event_sub message_id now (24 * hour) s.deliveries).0;
          reconcile = enabled || s.reconcile;
        }),
    answer 204 "",
  )

  -- A verified message, by its type.
  unfoldable pub accept :
      Bool → String → String → EventSubEnvelope → Time → WebhookState → WebhookState × Response
  accept enabled message_id message_type envelope now s =
      if message_type == "webhook_callback_verification"
      then (if envelope.challenge == "" then (s, answer 400 "missing EventSub challenge") else (
        add_audit
            (record (audit_entry "eventsub.challenge" "ok") {
              event_id = message_id;
              detail = envelope.subscription.type_name;
            })
            s,
        answer 200 envelope.challenge,
      ))
      else if message_type == "notification"
      then accept_notification message_id envelope now s
      else if message_type == "revocation"
      then accept_revocation enabled message_id envelope now s
      else (s, answer 400 "unsupported EventSub message type")

  unfoldable pub event_sub_webhook :
      String → Bool → RateLimits → WebhookRequest → Time → WebhookState → WebhookState × Response
  event_sub_webhook secret enabled limits r now s =
      let message_id = trim_space r.id_header in
      let raw_timestamp = trim_space r.timestamp_header in
      let signature = trim_space r.signature_header in
      if secret == ""
      then (s, answer 503 "EventSub webhook is not configured")
      else elim (validate_headers message_id raw_timestamp signature) [
        | some error ↦ reject limits r.request message_id error now s
        | none ↦ elim r.body [
          | none ↦ (s, answer 400 "invalid EventSub body")
          | some body ↦
              elim (verify_event_sub_message secret message_id raw_timestamp signature body now) [
                | some error ↦ reject limits r.request message_id error now s
                | none ↦ elim (g.unmarshal body) [
                  | none ↦ (s, answer 400 "invalid EventSub JSON")
                  | some envelope ↦ accept enabled message_id r.type_header envelope now s
                ]
              ]
        ]
      ]
