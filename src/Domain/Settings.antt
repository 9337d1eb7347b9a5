-- ===== src/Domain/Settings.antt =====
-- internal/domain/settings.go. Revisions are `int64`, and the model's do not wrap.
use ferventio_backend.Base.{ℕ, String, List, Option}
use ferventio_backend.Domain.Clock.{Time}

abbrev pub max_settings_sync_history : ℕ
max_settings_sync_history = 20

pub data SettingsError : Type 0 where
  revision_conflict revision_not_found : SettingsError

pub record SettingsSyncSnapshot : Type 0 where
  pub revision : ℕ
  pub updated_at : Time
  pub updated_by_installation_id : String
  pub app_version : String
  pub content_hash : String
  pub payload : String

pub record SettingsSyncUserState : Type 0 where
  pub current : Option SettingsSyncSnapshot
  pub history : List SettingsSyncSnapshot
