-- ===== src/Memory/Auth/Bounds/Run.antt =====
-- internal/storage/memory/auth_store.go: every method call that changes the store as one step.
use ferventio_backend.Base.{String, Option, List, [], ◌∷◌, arith}
use ferventio_backend.Base.GoMap.{size}
use ferventio_backend.Domain.Clock.{Time, Duration}
use ferventio_backend.Domain.Auth.{AuthCredential, PendingAuthRecord, AuthHandoffRecord}
use ferventio_backend.Memory.Secrets.{Hashing}
use ferventio_backend.Memory.Auth.{AuthStore, open_auth_store, delete_credential_if_unused}
use ferventio_backend.Memory.Auth.Vault.{Vault}
use ferventio_backend.Memory.Auth.Pending.{put_pending, consume_pending}
use ferventio_backend.Memory.Auth.Handoffs.{
  put_handoff, consume_handoff, put_credential_and_handoff,
}
use ferventio_backend.Memory.Auth.Credentials.{Nonces, put_credential}
use ferventio_backend.Memory.Auth.Sessions.{create_session, resolve_session, delete_session}
use ferventio_backend.Memory.Auth.Revocation.{revoke_installation, revoke_account}
use ferventio_backend.Memory.Auth.Bounds.{IsBounded}
use ferventio_backend.Memory.Auth.Bounds.SignIn.{
  put_pending-IsBounded, consume_pending-IsBounded, put_handoff-IsBounded,
  consume_handoff-IsBounded, create_session-IsBounded,
}
use ferventio_backend.Memory.Auth.Bounds.SignOut.{
  resolve_session-IsBounded, delete_session-IsBounded, revoke_account-IsBounded,
  put_credential-IsBounded, put_credential_and_handoff-IsBounded,
  delete_credential_if_unused-IsBounded,
}
use ferventio_backend.Memory.Auth.Bounds.Device.{revoke_installation-IsBounded}

-- The methods that may change the store, with the times and the random bytes that they take.
pub data AuthCall : Type 0 where
  put_pending_call : String → PendingAuthRecord → Time → AuthCall
  consume_pending_call : String → Time → AuthCall
  put_handoff_call : String → AuthHandoffRecord → Time → Time → AuthCall
  consume_handoff_call : String → String → String → String → Time → AuthCall
  put_credential_call : Nonces → AuthCredential → AuthCall
  put_credential_and_handoff_call :
      Nonces → AuthCredential → String → AuthHandoffRecord → Time → Time → AuthCall
  create_session_call : String → String → String → Duration → Option String → Time → AuthCall
  resolve_session_call : String → String → String → Duration → Time → AuthCall
  delete_session_call : String → String → String → AuthCall
  revoke_installation_call : String → String → AuthCall
  revoke_account_call : String → List String → AuthCall
  delete_credential_call : String → AuthCall

module _ (h : Hashing) (v : Vault) where
  abbrev pub auth_call : AuthCall → AuthStore → AuthStore
  auth_call (put_pending_call state r now) s = (put_pending h state r now s).0
  auth_call (consume_pending_call state now) s = (consume_pending h state now s).0
  auth_call (put_handoff_call code r now later) s = (put_handoff h code r now later s).0
  auth_call (consume_handoff_call code i secret state now) s =
      (consume_handoff h code i secret state now s).0
  auth_call (put_credential_call n c) s = (put_credential v n c s).0
  auth_call (put_credential_and_handoff_call n c code r now later) s =
      (put_credential_and_handoff h v n c code r now later s).0
  auth_call (create_session_call id i secret ttl token now) s =
      (create_session h id i secret ttl token now s).0
  auth_call (resolve_session_call token i secret ttl now) s =
      (resolve_session h token i secret ttl now s).0
  auth_call (delete_session_call token i secret) s = (delete_session h token i secret s).0
  auth_call (revoke_installation_call i secret) s = (revoke_installation h i secret s).0
  auth_call (revoke_account_call user_id extra) s = (revoke_account user_id extra s).0
  auth_call (delete_credential_call id) s = delete_credential_if_unused id s

  abbrev pub auth_calls : List AuthCall → AuthStore → AuthStore
  auth_calls [] s = s
  auth_calls (c ∷ cs) s = auth_calls cs (auth_call c s)

  auth_call-IsBounded : (c : AuthCall) (s : AuthStore) → IsBounded s → IsBounded (auth_call c s)
  auth_call-IsBounded (put_pending_call state r now) s w = put_pending-IsBounded h state r now s w
  auth_call-IsBounded (consume_pending_call state now) s w =
      consume_pending-IsBounded h state now s w
  auth_call-IsBounded (put_handoff_call code r now later) s w =
      put_handoff-IsBounded h code r now later s w
  auth_call-IsBounded (consume_handoff_call code i secret state now) s w =
      consume_handoff-IsBounded h code i secret state now s w
  auth_call-IsBounded (put_credential_call n c) s w = put_credential-IsBounded v n c s w
  auth_call-IsBounded (put_credential_and_handoff_call n c code r now later) s w =
      put_credential_and_handoff-IsBounded v h n c code r now later s w
  auth_call-IsBounded (create_session_call id i secret ttl token now) s w =
      create_session-IsBounded h id i secret ttl token now s w
  auth_call-IsBounded (resolve_session_call token i secret ttl now) s w =
      resolve_session-IsBounded h token i secret ttl now s w
  auth_call-IsBounded (delete_session_call token i secret) s w =
      delete_session-IsBounded h token i secret s w
  auth_call-IsBounded (revoke_installation_call i secret) s w =
      revoke_installation-IsBounded h i secret s w
  auth_call-IsBounded (revoke_account_call user_id extra) s w =
      revoke_account-IsBounded user_id extra s w
  auth_call-IsBounded (delete_credential_call id) s w = delete_credential_if_unused-IsBounded id s w

  auth_calls_from : (cs : List AuthCall) (s : AuthStore) → IsBounded s → IsBounded (auth_calls cs s)
  auth_calls_from [] s w = w
  auth_calls_from (c ∷ cs) s w = auth_calls_from cs (auth_call c s) (auth_call-IsBounded c s w)

  new-IsBounded : IsBounded open_auth_store
  unfolding size
  new-IsBounded = record {
    pending = record { unique = tt; bounded = omega arith };
    handoffs = record { unique = tt; bounded = omega arith };
    sessions = record { unique = tt; bounded = omega arith };
    credentials = tt;
  }

  -- After any calls on a new store, in any order and at any times, every map has distinct keys,
  -- and the sign-in attempts, the handoffs and the sessions stay within their bounds.
  pub auth_calls-IsBounded : (cs : List AuthCall) → IsBounded (auth_calls cs open_auth_store)
  auth_calls-IsBounded cs = auth_calls_from cs open_auth_store new-IsBounded
