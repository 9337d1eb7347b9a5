-- ===== src/Memory/Auth/Sessions.antt =====
-- internal/storage/memory/auth_store.go: CreateSession, ResolveSession, SessionAccount, DeleteSession
-- and InstallationBinding.
pub mod Binding
use ferventio_backend.Base.{
  ℕ, ◌+◌, ◌/◌, String, Bool, true, false, not, ◌&&◌, ◌||◌, Option, none, some, ltb, leb, ◌==◌,
  if◌then◌else◌, Result, ok, err,
}
use ferventio_backend.Base.GoMap.{GoMap, get, put, delete, retain, size, has, any}
use ferventio_backend.Base.Text.{trim_space}
use ferventio_backend.Domain.Clock.{Time, Duration, after, before}
use ferventio_backend.Domain.Auth.{
  AuthError, auth_not_found, auth_expired, auth_capacity, auth_device_mismatch, auth_crypto,
  AuthSessionRecord, max_auth_sessions,
}
use ferventio_backend.Memory.Secrets.{Hashing, secure_hash_equal}
use ferventio_backend.Memory.Auth.{AuthStore, cleanup_expired, release_credential}

module _ (h : Hashing) where
  -- A session of the installation that is in force for another device.
  abbrev pub is_rival_session : String → String → Time → AuthSessionRecord → Bool
  is_rival_session installation_id device_secret now x =
      x.installation_id == installation_id
      && not (after now x.expires_at)
      && not (secure_hash_equal x.device_hash (h.hash_secret device_secret))

  abbrev pub gives_way : String → Time → AuthSessionRecord → Bool
  gives_way installation_id now x = after now x.expires_at || x.installation_id == installation_id

  -- The token is what randomToken returns, none for its error.
  unfoldable pub create_session :
      String
      → String
      → String
      → Duration
      → Option String
      → Time
      → AuthStore
      → AuthStore × Result AuthError (String × Time)
  create_session credential_id installation_id device_secret ttl token now s =
      if not (has credential_id s.credentials)
      then (s, err auth_not_found)
      else if any (λ _ x. is_rival_session installation_id device_secret now x) s.sessions
      then (s, err auth_device_mismatch)
      else (let s' = record s {
        sessions = retain (λ _ x. not (gives_way installation_id now x)) s.sessions;
      } in
          if leb max_auth_sessions (size s'.sessions) then (s', err auth_capacity) else elim token [
            | none ↦ (s', err auth_crypto)
            | some t ↦ (
              cleanup_expired now (record s' {
                sessions =
                    put (h.hash_secret t)
                      (record {
                        credential_id = credential_id;
                        installation_id = installation_id;
                        device_hash = h.hash_secret device_secret;
                        created_at = now;
                        expires_at = now + ttl;
                      })
                      s'.sessions;
              }),
              ok (t, now + ttl),
            )
          ])

  abbrev pub is_foreign_session : String → String → AuthSessionRecord → Bool
  is_foreign_session installation_id device_secret x =
      not (x.installation_id == installation_id)
      || not (secure_hash_equal x.device_hash (h.hash_secret device_secret))

  unfoldable pub resolve_session :
      String
      → String
      → String
      → Duration
      → Time
      → AuthStore
      → AuthStore × Result AuthError AuthSessionRecord
  resolve_session token installation_id device_secret renew_ttl now s =
      let key = h.hash_secret token in
      elim (get key s.sessions) [
        | none ↦ (s, err auth_not_found)
        | some x ↦
            if after now x.expires_at
            then (
              release_credential x.credential_id (record s { sessions = delete key s.sessions }),
              err auth_expired,
            )
            else if is_foreign_session installation_id device_secret x
            then (s, err auth_device_mismatch)
            else if ltb 0 renew_ttl && before x.expires_at (now + renew_ttl / 2)
            then (let x' = record x { expires_at = now + renew_ttl } in
                (record s { sessions = put key x' s.sessions }, ok x'))
            else (s, ok x)
      ]

  -- The user of a session, and whether the session has expired.
  unfoldable pub session_account :
      String → String → String → Time → AuthStore → Result AuthError (String × Bool)
  session_account token installation_id device_secret now s =
      elim (get (h.hash_secret token) s.sessions) [
        | none ↦ err auth_not_found
        | some x ↦
            if is_foreign_session installation_id device_secret x
            then err auth_device_mismatch
            else elim (get x.credential_id s.credentials) [
              | none ↦ err auth_not_found
              | some c ↦
                  if trim_space c.user_id == ""
                  then err auth_not_found
                  else ok (c.user_id, after now x.expires_at)
            ]
      ]

  unfoldable pub delete_session :
      String → String → String → AuthStore → AuthStore × Result {0, 0} AuthError Unit
  delete_session token installation_id device_secret s =
      let key = h.hash_secret token in
      elim (get key s.sessions) [
        | none ↦ (s, err auth_not_found)
        | some x ↦
            if is_foreign_session installation_id device_secret x
            then (s, err auth_device_mismatch)
            else (
              release_credential x.credential_id (record s { sessions = delete key s.sessions }),
              ok tt,
            )
      ]
