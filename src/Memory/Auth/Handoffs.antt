-- ===== src/Memory/Auth/Handoffs.antt =====
-- internal/storage/memory/auth_store.go: PutHandoff, ConsumeHandoff and PutCredentialAndHandoff.
pub mod Guards
use ferventio_backend.Base.{
  String, Bool, not, ◌&&◌, ◌||◌, Option, none, some, ltb, ◌==◌, if◌then◌else◌, Result, ok, err,
}
use ferventio_backend.Base.GoMap.{get, put, delete, retain, size}
use ferventio_backend.Domain.Clock.{Time, after}
use ferventio_backend.Domain.Auth.{
  AuthError, auth_not_found, auth_expired, auth_capacity, auth_device_mismatch, auth_state_mismatch,
  auth_pairing, AuthHandoffRecord, AuthCredential, max_auth_handoffs,
}
use ferventio_backend.Memory.Secrets.{Hashing, secure_hash_equal}
use ferventio_backend.Memory.Auth.{AuthStore, cleanup_expired}
use ferventio_backend.Memory.Auth.Vault.{Vault}
use ferventio_backend.Memory.Auth.Credentials.{Nonces, put_credential}

abbrev pub same_handoff_device : AuthHandoffRecord → AuthHandoffRecord → Bool
same_handoff_device r existing =
    existing.installation_id == r.installation_id
    && secure_hash_equal existing.device_hash r.device_hash

-- The device's earlier handoffs give way to the new one.
unfoldable pub replace_handoff : String → AuthHandoffRecord → AuthStore → AuthStore
replace_handoff key r s = record s {
  handoffs = put key r (retain (λ _ x. not (same_handoff_device r x)) s.handoffs);
}

module _ (h : Hashing) where
  -- `later` is the time of the second clean-up, on the way to ErrAuthCapacity.
  unfoldable pub put_handoff :
      String
      → AuthHandoffRecord
      → Time
      → Time
      → AuthStore
      → AuthStore × Result {0, 0} AuthError Unit
  put_handoff code r now later s =
      let key = h.hash_secret code in
      let s' = cleanup_expired now (replace_handoff key r s) in
      if ltb max_auth_handoffs (size s'.handoffs)
      then (
        cleanup_expired later (record s' { handoffs = delete key s'.handoffs }),
        err auth_capacity,
      )
      else (s', ok tt)

  abbrev pub is_other_device : String → String → AuthHandoffRecord → Bool
  is_other_device installation_id device_secret r =
      not (r.installation_id == installation_id)
      || not (secure_hash_equal r.device_hash (h.hash_secret device_secret))

  unfoldable pub consume_handoff :
      String
      → String
      → String
      → String
      → Time
      → AuthStore
      → AuthStore × Result AuthError AuthHandoffRecord
  consume_handoff code installation_id device_secret state now s =
      let key = h.hash_secret code in
      let consumed = record s { handoffs = delete key s.handoffs } in
      elim (get key s.handoffs) [
        | none ↦ (s, err auth_not_found)
        | some r ↦
            if after now r.expires_at
            then (consumed, err auth_expired)
            else if is_other_device installation_id device_secret r
            then (s, err auth_device_mismatch)
            else if not (secure_hash_equal r.state_hash (h.hash_secret state))
            then (s, err auth_state_mismatch)
            else (consumed, ok r)
      ]

  -- PutCredentialAndHandoff: the credential stays where the handoff finds no room, unless the
  -- clean-up finds it unused.
  unfoldable pub put_credential_and_handoff :
      Vault
      → Nonces
      → AuthCredential
      → String
      → AuthHandoffRecord
      → Time
      → Time
      → AuthStore
      → AuthStore × Result {0, 0} AuthError Unit
  put_credential_and_handoff v n c code r now later s =
      if c.id == "" || not (r.credential_id == c.id)
      then (s, err auth_pairing)
      else (let (s', reply) = put_credential v n c s in
          elim reply [ err e ↦ (s', err e) | ok _ ↦ put_handoff code r now later s' ])
