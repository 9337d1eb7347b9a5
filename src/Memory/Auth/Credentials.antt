-- ===== src/Memory/Auth/Credentials.antt =====
-- internal/storage/memory/auth_store.go: PutCredential, GetCredential and their sealed tokens.
pub mod RoundTrip
use Prim.Native.String.{◌++◌}
use ferventio_backend.Base.{
  String, Bool, ◌&&◌, not, Option, none, some, ◌==◌, if◌then◌else◌, Result, ok, err,
}
use ferventio_backend.Base.GoMap.{get, put, find}
use ferventio_backend.Domain.Clock.{Time, after}
use ferventio_backend.Domain.Auth.{
  AuthError, auth_not_found, AuthCredential, AuthCredentialRecord, AuthSessionRecord,
  EncryptedValue,
}
use ferventio_backend.Memory.Secrets.{Hashing, secure_hash_equal}
use ferventio_backend.Memory.Auth.{AuthStore}
use ferventio_backend.Memory.Auth.Vault.{Vault, seal_auth_value, open_auth_value}

-- The two random nonces of one sealing of tokens.
pub record Nonces : Type 0 where
  pub access : Option String
  pub refresh : Option String

abbrev pub credential_record :
    AuthCredential → EncryptedValue → EncryptedValue → AuthCredentialRecord
credential_record c access refresh = record {
  id = c.id;
  client_id = c.client_id;
  user_id = c.user_id;
  login = c.login;
  scopes = c.scopes;
  access_token = access;
  refresh_token = refresh;
  access_expires_at = c.access_expires_at;
  last_validated_at = c.last_validated_at;
  updated_at = c.updated_at;
}

abbrev pub opened_credential : AuthCredentialRecord → String → String → AuthCredential
opened_credential r access refresh = record {
  id = r.id;
  client_id = r.client_id;
  user_id = r.user_id;
  login = r.login;
  scopes = r.scopes;
  access_token = access;
  refresh_token = refresh;
  access_expires_at = r.access_expires_at;
  last_validated_at = r.last_validated_at;
  updated_at = r.updated_at;
}

module _ (v : Vault) where
  unfoldable pub sealed_credential : Nonces → AuthCredential → Result AuthError AuthCredentialRecord
  sealed_credential n c = elim (seal_auth_value v n.access (c.id ++ ":access") c.access_token) [
    | err e ↦ err e
    | ok access ↦ elim (seal_auth_value v n.refresh (c.id ++ ":refresh") c.refresh_token) [
      | err e ↦ err e
      | ok refresh ↦ ok (credential_record c access refresh)
    ]
  ]

  -- PutCredential and setCredentialLocked
  unfoldable pub put_credential :
      Nonces → AuthCredential → AuthStore → AuthStore × Result {0, 0} AuthError Unit
  put_credential n c s = elim (sealed_credential n c) [
    | err e ↦ (s, err e)
    | ok r ↦ (record s { credentials = put c.id r s.credentials }, ok tt)
  ]

  -- The credential of a record, opened under this identifier.
  unfoldable pub open_credential : String → AuthCredentialRecord → Result AuthError AuthCredential
  open_credential id r = elim (open_auth_value v (id ++ ":access") r.access_token) [
    | err e ↦ err e
    | ok access ↦ elim (open_auth_value v (id ++ ":refresh") r.refresh_token) [
      | err e ↦ err e
      | ok refresh ↦ ok (opened_credential r access refresh)
    ]
  ]

  unfoldable pub get_credential : String → AuthStore → Result AuthError AuthCredential
  get_credential id s = elim (get id s.credentials) [
    | none ↦ err auth_not_found
    | some r ↦ open_credential id r
  ]

  -- A session of this installation and device that has not expired.
  abbrev pub is_live_session : Hashing → String → String → Time → AuthSessionRecord → Bool
  is_live_session h installation_id device_secret now x =
      x.installation_id == installation_id
      && not (after now x.expires_at)
      && secure_hash_equal x.device_hash (h.hash_secret device_secret)

  unfoldable pub credential_for_installation :
      Hashing → String → String → Time → AuthStore → Result AuthError AuthCredential
  credential_for_installation h installation_id device_secret now s =
      elim (find (λ _ x. is_live_session h installation_id device_secret now x) s.sessions) [
        | none ↦ err auth_not_found
        | some x ↦ elim (get x.credential_id s.credentials) [
          | none ↦ err auth_not_found
          | some r ↦ open_credential r.id r
        ]
      ]
