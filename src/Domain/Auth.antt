-- ===== src/Domain/Auth.antt =====
-- internal/domain/auth.go
use ferventio_backend.Base.{ℕ, String, List}
use ferventio_backend.Domain.Clock.{Time}

pub data AuthError : Type 0 where
  auth_not_found auth_expired auth_device_mismatch auth_state_mismatch auth_capacity : AuthError
  -- errors.New("credential and handoff do not match")
  auth_pairing : AuthError
  -- an error of the cipher or of the random source
  auth_crypto : AuthError

abbrev pub max_pending_auth_records : ℕ
max_pending_auth_records = 10_000

abbrev pub max_auth_handoffs : ℕ
max_auth_handoffs = 10_000

abbrev pub max_auth_sessions : ℕ
max_auth_sessions = 100_000

pub record EncryptedValue : Type 0 where
  pub nonce : String
  pub ciphertext : String

pub record AuthCredentialRecord : Type 0 where
  pub id : String
  pub client_id : String
  pub user_id : String
  pub login : String
  pub scopes : List String
  pub access_token : EncryptedValue
  pub refresh_token : EncryptedValue
  pub access_expires_at : Time
  pub last_validated_at : Time
  pub updated_at : Time

pub record AuthCredential : Type 0 where
  pub id : String
  pub client_id : String
  pub user_id : String
  pub login : String
  pub scopes : List String
  pub access_token : String
  pub refresh_token : String
  pub access_expires_at : Time
  pub last_validated_at : Time
  pub updated_at : Time

pub record AuthSessionRecord : Type 0 where
  pub credential_id : String
  pub installation_id : String
  pub device_hash : String
  pub created_at : Time
  pub expires_at : Time

pub record PendingAuthRecord : Type 0 where
  pub installation_id : String
  pub device_hash : String
  pub app_callback_uri : String
  pub created_at : Time
  pub expires_at : Time

pub record AuthHandoffRecord : Type 0 where
  pub credential_id : String
  pub installation_id : String
  pub device_hash : String
  pub app_callback_uri : String
  pub state_hash : String
  pub created_at : Time
  pub expires_at : Time

pub record AccountRevocationTargets : Type 0 where
  pub installation_ids : List String
  pub credentials : List AuthCredential

pub record AccountRevocationResult : Type 0 where
  pub removed_sessions : ℕ
  pub removed_credentials : ℕ
