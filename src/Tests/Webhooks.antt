-- ===== src/Tests/Webhooks.antt =====
-- internal/application/eventsub.go: the webhook, on a notification with a toy code.
use ferventio_backend.Base.{ℕ, ◌≡◌, refl, false, ◌⊎◌, some, List, [], ◌∷◌}
use ferventio_backend.Base.Text.{trim_space, byte_length, has_prefix, cut_prefix}
use ferventio_backend.Base.GoMap.{get, put, has, size, retain}
use ferventio_backend.Domain.Clock.{second}
use ferventio_backend.Memory.Delivery.{new_memory_delivery_store, cleanup_seen}
use ferventio_backend.Memory.Delivery.Inbox.{enqueue_event_sub, enqueue_trimmed, insert_item}
use ferventio_backend.Application.EventSub.Queue.{
  new_event_queue, schedule_event_sub, reserve_event_sub, offer,
}
use ferventio_backend.Application.RateLimit.{RateLimitPolicy, new_rate_limiter}
use ferventio_backend.Application.RateLimit.Requests.{RateLimits}
use ferventio_backend.Application.Webhook.{
  WebhookLibrary, WebhookRequest, WebhookState, event_sub_webhook, validate_headers,
  verify_event_sub_message, bytes_equal, accept, accept_notification, hand_over,
}
use ferventio_backend.Application.Webhook.Signed.{IsSigned, IsRefused, forged_message_ignored}
use ferventio_backend.Application.Webhook.Durable.{IsKnown, acknowledged_is_durable}
use ferventio_backend.Tests.Requests.{whole}
use ferventio_backend.Tests.Samples.{envelope}

-- A code that is the body itself.
abbrev library : WebhookLibrary
library = record {
  floats = whole;
  hmac_sha256 = λ secret message body. body;
  hex_decode = λ s. some (1 ∷ 2 ∷ []);
  parse_time = λ s. some second;
  parse_error = λ s. "";
  unmarshal = λ body. some envelope;
  first_bytes = λ n s. s;
  store_error = λ e. "";
}

abbrev unlimited_policy : RateLimitPolicy
unlimited_policy = record { name = "any"; per_minute = 0; burst = 0 }

abbrev limits : RateLimits
limits = record {
  disabled = false;
  general = unlimited_policy;
  auth = unlimited_policy;
  installation = unlimited_policy;
  admin = unlimited_policy;
}

abbrev message : WebhookRequest
message = record {
  request = record {
    method = "POST";
    path = "/v1/eventsub/webhook";
    installation_header = "";
    secret_header = "";
    client_ip = "192.0.2.1";
  };
  id_header = " m1";
  timestamp_header = "t";
  signature_header = "sha256=0123456789abcdef0123456789abcdef0123456789abcdef0123456789abcdef";
  type_header = "notification";
  body = some (1 ∷ 2 ∷ []);
}

abbrev state : WebhookState
state = record {
  limiter = new_rate_limiter 10 second;
  deliveries = new_memory_delivery_store;
  queue = new_event_queue 4;
  audits = [];
  reconcile = false;
}

forged_message_ignored_example :
    ((body : List ℕ) × (message.body ≡ some body)
      × IsSigned library "key"
          (trim_space " m1")
          (trim_space "t")
          (trim_space message.signature_header)
          body
          second)
    ⊎ IsRefused library state (event_sub_webhook library "key" false limits message second state)
forged_message_ignored_example =
    forged_message_ignored library "key" false limits message second state

acknowledged : (event_sub_webhook library "key" false limits message second state).1.status ≡ 204
unfolding event_sub_webhook trim_space validate_headers byte_length has_prefix cut_prefix
    verify_event_sub_message bytes_equal accept accept_notification enqueue_event_sub
    enqueue_trimmed insert_item cleanup_seen retain get put has size hand_over schedule_event_sub
    reserve_event_sub offer
acknowledged = refl

acknowledged_is_durable_example :
    IsKnown
      (trim_space (trim_space " m1"))
      (event_sub_webhook library "key" false limits message second state).0.deliveries
acknowledged_is_durable_example =
    acknowledged_is_durable library "key" false limits message second state refl acknowledged
