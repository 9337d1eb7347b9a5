-- ===== src/Memory/Auth/Revocation.antt =====
-- internal/storage/memory/auth_store.go: InstallationBinding, RevokeInstallation,
-- AccountRevocationTargets and RevokeAccount.
pub mod Account
use ferventio_backend.Base.{
  ℕ, ◌+◌, String, Bool, true, false, not, ◌&&◌, ◌||◌, Option, none, some, List, [], ◌∷◌, map, eqb,
  ◌==◌, if◌then◌else◌, Result, ok, err,
}
use ferventio_backend.Base.GoMap.{GoMap, get, put, delete, retain, size, has, any, keys}
use ferventio_backend.Base.Sort.{sort}
use ferventio_backend.Base.Text.{trim_space, str_lt}
use ferventio_backend.Domain.Auth.{
  AuthError, auth_not_found, auth_device_mismatch, AuthCredential, AuthCredentialRecord,
  AuthSessionRecord, AuthHandoffRecord, AccountRevocationTargets, AccountRevocationResult,
}
use ferventio_backend.Memory.Registrations.{contains, trimmed_ids}
use ferventio_backend.Memory.Secrets.{Hashing, secure_hash_equal}
use ferventio_backend.Memory.Auth.{AuthStore, delete_unused}
use ferventio_backend.Memory.Auth.Vault.{Vault}
use ferventio_backend.Memory.Auth.Credentials.{open_credential}

module _ (h : Hashing) where
  -- Whether an artifact of the installation is there, and whether one is there with the secret.
  unfoldable pub installation_binding : String → String → AuthStore → Result AuthError Bool
  installation_binding installation_id device_secret s =
      let here = λ (id : String). id == installation_id in
      let bound = λ (hash : String). secure_hash_equal hash (h.hash_secret device_secret) in
      if any (λ _ x. here x.installation_id && bound x.device_hash) s.sessions
        || any (λ _ x. here x.installation_id && bound x.device_hash) s.pending
        || any (λ _ x. here x.installation_id && bound x.device_hash) s.handoffs
      then ok true
      else if any (λ _ x. here x.installation_id) s.sessions
          || any (λ _ x. here x.installation_id) s.pending
          || any (λ _ x. here x.installation_id) s.handoffs
      then err auth_device_mismatch
      else err auth_not_found

-- One loop of RevokeInstallation: it deletes what is bound to the device, and stops at an artifact
-- of the installation that is bound to another.
pub record Removal (V : Type 0) : Type 0 where
  pub left : GoMap V
  pub removed : ℕ
  pub mismatch : Bool

module _ {V : Type 0} (here : V → Bool) (bound : V → Bool) where
  unfoldable pub remove_bound : GoMap V → Removal V
  remove_bound [] = record { left = []; removed = 0; mismatch = false }
  remove_bound ((k, v) ∷ m) =
      let rest = remove_bound m in
      if not (here v)
      then record rest { left = (k, v) ∷ rest.left }
      else if not (bound v)
      then record { left = (k, v) ∷ m; removed = 0; mismatch = true }
      else record rest { removed = rest.removed + 1 }

module _ (h : Hashing) where
  -- An early return keeps the deletions made before it.
  unfoldable pub revoke_installation : String → String → AuthStore → AuthStore × Result AuthError ℕ
  revoke_installation installation_id device_secret s =
      let here = λ (id : String). id == installation_id in
      let bound = λ (hash : String). secure_hash_equal hash (h.hash_secret device_secret) in
      let sessions =
        remove_bound (λ x. here x.installation_id) (λ x. bound x.device_hash) s.sessions in
      let pending =
        remove_bound (λ x. here x.installation_id) (λ x. bound x.device_hash) s.pending in
      let handoffs =
        remove_bound (λ x. here x.installation_id) (λ x. bound x.device_hash) s.handoffs in
      let s1 = record s { sessions = sessions.left } in
      let s2 = record s1 { pending = pending.left } in
      let s3 = record s2 { handoffs = handoffs.left } in
      if sessions.mismatch
      then (s1, err auth_device_mismatch)
      else if pending.mismatch
      then (s2, err auth_device_mismatch)
      else if handoffs.mismatch
      then (s3, err auth_device_mismatch)
      else (delete_unused s3, ok sessions.removed)

-- A set of texts as a list.
abbrev pub add_id : String → List String → List String
add_id id ids = if contains id ids then ids else id ∷ ids

abbrev pub credential_ids : String → AuthStore → List String
credential_ids user_id s = keys (retain (λ _ c. c.user_id == user_id) s.credentials)

module _ (v : Vault) where
  -- The credentials of the user, opened; the first that does not open is the error.
  unfoldable pub open_credentials :
      String → GoMap AuthCredentialRecord → Result AuthError (List AuthCredential)
  open_credentials user_id [] = ok []
  open_credentials user_id ((id, r) ∷ m) =
      let rest = open_credentials user_id m in
      if not (r.user_id == user_id) then rest else elim (open_credential v id r) [
        | err e ↦ err e
        | ok c ↦ elim rest [ err e ↦ err e | ok cs ↦ ok (c ∷ cs) ]
      ]

  unfoldable pub session_installations : List String → GoMap AuthSessionRecord → List String
  session_installations ids [] = []
  session_installations ids ((k, x) ∷ m) =
      let rest = session_installations ids m in
      if contains x.credential_id ids then add_id x.installation_id rest else rest

  abbrev pub by_id : AuthCredential → AuthCredential → Bool
  by_id a b = str_lt a.id b.id

  unfoldable pub account_revocation_targets :
      String → AuthStore → Result AuthError AccountRevocationTargets
  account_revocation_targets user_id s =
      let user = trim_space user_id in
      if user == "" then err auth_not_found else elim (open_credentials user s.credentials) [
        | err e ↦ err e
        | ok credentials ↦ ok (record {
          installation_ids = sort str_lt (session_installations (credential_ids user s) s.sessions);
          credentials = sort by_id credentials;
        })
      ]

-- The installations of the sessions that RevokeAccount removes join the set.
unfoldable pub joined : List String → GoMap AuthSessionRecord → List String → List String
joined ids [] installations = installations
joined ids ((k, x) ∷ m) installations =
    if contains x.credential_id ids
    then joined ids m (add_id x.installation_id installations)
    else joined ids m installations

-- The loop on the handoffs: what is left, and the set with the installations of the removed ones.
-- The set grows on the way, so the order of the visits decides on some handoffs.
unfoldable pub revoke_handoffs :
    List String → GoMap AuthHandoffRecord → List String → GoMap AuthHandoffRecord × List String
revoke_handoffs ids [] installations = ([], installations)
revoke_handoffs ids ((k, x) ∷ m) installations =
    let removed = revoke_handoffs ids m (add_id x.installation_id installations) in
    let (left, all) = revoke_handoffs ids m installations in
    if contains x.credential_id ids || contains x.installation_id installations
    then removed
    else ((k, x) ∷ left, all)

-- The account's sessions, handoffs, pending attempts and credentials go.
unfoldable pub revoke_artifacts : List String → List String → AuthStore → AuthStore
revoke_artifacts ids extra s =
    let (handoffs, installations) = revoke_handoffs ids s.handoffs (joined ids s.sessions extra) in
    record {
      credentials = retain (λ id _. not (contains id ids)) s.credentials;
      sessions = retain (λ _ x. not (contains x.credential_id ids)) s.sessions;
      pending = retain (λ _ p. not (contains p.installation_id installations)) s.pending;
      handoffs = handoffs;
    }

unfoldable pub revoke_account :
    String → List String → AuthStore → AuthStore × Result AuthError AccountRevocationResult
revoke_account user_id extra_installation_ids s =
    let user = trim_space user_id in
    let ids = credential_ids user s in
    if user == "" then (s, err auth_not_found) else (
      delete_unused (revoke_artifacts ids (trimmed_ids extra_installation_ids) s),
      ok (record {
        removed_sessions = size (retain (λ _ x. contains x.credential_id ids) s.sessions);
        removed_credentials = size (retain (λ id _. contains id ids) s.credentials);
      }),
    )
