-- ===== src/Domain/Registration.antt =====
-- internal/domain/models.go
use ferventio_backend.Base.{ℕ, String, List}
use ferventio_backend.Base.GoMap.{GoMap}
use ferventio_backend.Domain.Clock.{Time}

pub data RegistrationError : Type 0 where
  registration_not_found device_secret_mismatch : RegistrationError

pub record Registration : Type 0 where
  pub installation_id : String
  pub device_secret : String
  pub device_secret_hash : String
  pub provider : String
  pub firebase_installation : String
  pub apns_device_token : String
  pub endpoint : String
  pub p256dh : String
  pub auth : String
  pub app_version : String
  pub platform : String
  pub user_id : String
  pub user_login : String
  pub channel_ids : List String
  pub moderator_channel_ids : List String
  pub notification_rules : List String
  pub notification_channel_rules : GoMap (List String)
  pub notification_channel_muted_until_epoch_millis : GoMap ℕ
  pub highlight_phrases : List String
  pub selected_user_logins : List String
  pub updated_at : Time
