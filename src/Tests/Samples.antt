-- ===== src/Tests/Samples.antt =====
-- Data for the examples.

use ferventio_backend.Base.{
  ℕ, ◌+◌, ◌*◌, String, Bool, true, false, [], ◌∷◌, some, ◌≢◌, refl, ap, arith,
}
use ferventio_backend.Domain.Clock.{Time, second, hour}
use ferventio_backend.Domain.EventSub.{EventSubEnvelope}
use ferventio_backend.Domain.Delivery.{
  Notification, DeliveryRecord, EventSubInboxRecord, Status, unset, pending,
}
use ferventio_backend.Domain.Registration.{Registration}
use ferventio_backend.Domain.Audit.{AuditRecord}
use ferventio_backend.Domain.Auth.{
  AuthCredential, AuthCredentialRecord, AuthSessionRecord, PendingAuthRecord, AuthHandoffRecord,
}
use ferventio_backend.Memory.Delivery.{DeliveryStore}
use ferventio_backend.Memory.Settings.{Write}
use ferventio_backend.Memory.Secrets.{Hashing}
use ferventio_backend.Memory.Auth.{AuthStore}
use ferventio_backend.Memory.Auth.Vault.{Vault}

abbrev pub notice : Notification
notice = record {
  event_id = "e1";
  type_name = "live";
  title = "t";
  body = "b";
  channel_id = "c";
  channel_login = "l";
  message_id = "m";
  actor_id = "a";
  actor_login = "al";
  actor_display_name = "an";
  destination = "d";
  silent = false;
  created_at_epoch_millis = 1;
}

abbrev pub delivery : String → String → String → Status → DeliveryRecord
delivery id event_id installation_id status = record {
  id = id;
  event_id = event_id;
  installation_id = installation_id;
  notification = notice;
  status = status;
  attempt_count = 0;
  available_at = second;
  expires_at = 100 * second;
  created_at = second;
  sent_at = 0;
  acked_at = 0;
  last_error = "";
}

abbrev pub d1 : DeliveryRecord
d1 = delivery "d1" "e1" "phone" pending

abbrev pub d2 : DeliveryRecord
d2 = delivery "d2" "e2" "phone" unset

abbrev pub envelope : EventSubEnvelope
envelope = record {
  challenge = "";
  subscription = record {
    id = "s";
    type_name = "stream.online";
    version = "1";
    status = "enabled";
    condition = [];
  };
  event = [];
}

abbrev pub item : EventSubInboxRecord
item = record {
  message_id = "m1";
  envelope = envelope;
  status = pending;
  attempt_count = 0;
  available_at = second;
  expires_at = second + 24 * hour;
  received_at = second;
  last_attempt_at = 0;
  last_error = "";
}

abbrev pub one_delivery : DeliveryStore
one_delivery = record {
  records = ("d1", d1) ∷ [];
  seen = [];
  event_sub_inbox = [];
  channel_states = [];
}

abbrev pub one_item : DeliveryStore
one_item = record {
  records = [];
  seen = [];
  event_sub_inbox = ("m1", item) ∷ [];
  channel_states = [];
}

abbrev pub write : ℕ → String → Write
write base hash = record {
  installation_id = "phone";
  base_revision = base;
  force = false;
  app_version = "1";
  content_hash = hash;
  payload = "{}";
  now = second;
}

abbrev pub audited : String → Time → AuditRecord
audited id timestamp = record {
  id = id;
  timestamp = timestamp;
  action = "a";
  status = "ok";
  installation_id = "phone";
  user_id = "u";
  channel_id = "";
  event_id = "";
  detail = [];
}

abbrev pub phone : String → Registration
phone secret = record {
  installation_id = "phone";
  device_secret = secret;
  device_secret_hash = "";
  provider = "fcm";
  firebase_installation = "";
  apns_device_token = "";
  endpoint = "";
  p256dh = "";
  auth = "";
  app_version = "1";
  platform = "android";
  user_id = "u";
  user_login = "login";
  channel_ids = [];
  moderator_channel_ids = [];
  notification_rules = [];
  notification_channel_rules = [];
  notification_channel_muted_until_epoch_millis = [];
  highlight_phrases = [];
  selected_user_logins = [];
  updated_at = second;
}

abbrev is_blank : String → Bool
is_blank String.[] = true
is_blank (String.◌∷◌ c s) = false

pub not_blank : (s : String) → String.◌∷◌ "h" s ≢ ""
not_blank s e = ground (arith, ap is_blank e)

-- A hash that is not one, for examples.
abbrev pub toy_hash : Hashing
toy_hash = record { hash_secret = λ s. String.◌∷◌ "h" s; filled = not_blank }

-- A cipher that hides nothing, for examples.
abbrev pub toy_vault : Vault
toy_vault = record {
  aead_seal = λ nonce plaintext aad. plaintext;
  aead_open = λ nonce ciphertext aad. some ciphertext;
  encode = λ s. s;
  decode = λ s. some s;
  open-seal = λ nonce plaintext aad. refl;
  decode-encode = λ bytes. refl;
}

abbrev pub attempt : PendingAuthRecord
attempt = record {
  installation_id = "phone";
  device_hash = "hs";
  app_callback_uri = "app:";
  created_at = second;
  expires_at = 9 * second;
}

abbrev pub handoff : AuthHandoffRecord
handoff = record {
  credential_id = "c1";
  installation_id = "phone";
  device_hash = "hs";
  app_callback_uri = "app:";
  state_hash = "hstate";
  created_at = second;
  expires_at = 9 * second;
}

abbrev pub session : AuthSessionRecord
session = record {
  credential_id = "c1";
  installation_id = "phone";
  device_hash = "hs";
  created_at = second;
  expires_at = 9 * second;
}

abbrev pub credential : AuthCredential
credential = record {
  id = "c1";
  client_id = "client";
  user_id = "u";
  login = "login";
  scopes = [];
  access_token = "a";
  refresh_token = "r";
  access_expires_at = hour;
  last_validated_at = second;
  updated_at = second;
}

abbrev pub credential_row : AuthCredentialRecord
credential_row = record {
  id = "c1";
  client_id = "client";
  user_id = "u";
  login = "login";
  scopes = [];
  access_token = record { nonce = "n"; ciphertext = "a" };
  refresh_token = record { nonce = "n"; ciphertext = "r" };
  access_expires_at = hour;
  last_validated_at = second;
  updated_at = second;
}

abbrev pub signed_in : AuthStore
signed_in = record {
  credentials = ("c1", credential_row) ∷ [];
  sessions = ("ht", session) ∷ [];
  pending = ("hp", attempt) ∷ [];
  handoffs = ("hcode", handoff) ∷ [];
}
