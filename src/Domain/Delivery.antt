-- ===== src/Domain/Delivery.antt =====
-- internal/domain/delivery.go, and the notification of internal/domain/models.go.
use ferventio_backend.Base.{ℕ, String, Bool, true, false}
use ferventio_backend.Domain.Clock.{Time}
use ferventio_backend.Domain.EventSub.{EventSubEnvelope}

pub record Notification : Type 0 where
  pub event_id : String
  pub type_name : String
  pub title : String
  pub body : String
  pub channel_id : String
  pub channel_login : String
  pub message_id : String
  pub actor_id : String
  pub actor_login : String
  pub actor_display_name : String
  pub destination : String
  pub silent : Bool
  pub created_at_epoch_millis : ℕ

-- The texts of DeliveryStatus… and EventSubInboxStatus…; `unset` is "".
pub data Status : Type 0 where
  unset pending sent acked dead : Status

abbrev pub is_unset : Status → Bool
is_unset unset = true
is_unset _ = false

abbrev pub is_pending : Status → Bool
is_pending pending = true
is_pending _ = false

abbrev pub is_acked : Status → Bool
is_acked acked = true
is_acked _ = false

abbrev pub is_dead : Status → Bool
is_dead dead = true
is_dead _ = false

abbrev pub max_delivery_records : ℕ
max_delivery_records = 50_000

abbrev pub max_seen_event_records : ℕ
max_seen_event_records = 100_000

abbrev pub max_event_sub_inbox_records : ℕ
max_event_sub_inbox_records = 100_000

pub record DeliveryRecord : Type 0 where
  pub id : String
  pub event_id : String
  pub installation_id : String
  pub notification : Notification
  pub status : Status
  pub attempt_count : ℕ
  pub available_at : Time
  pub expires_at : Time
  pub created_at : Time
  pub sent_at : Time
  pub acked_at : Time
  pub last_error : String

pub record ChannelNotificationState : Type 0 where
  pub title : String
  pub category_name : String
  pub updated_at : Time

pub record EventSubInboxRecord : Type 0 where
  pub message_id : String
  pub envelope : EventSubEnvelope
  pub status : Status
  pub attempt_count : ℕ
  pub available_at : Time
  pub expires_at : Time
  pub received_at : Time
  pub last_attempt_at : Time
  pub last_error : String
