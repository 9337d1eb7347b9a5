-- ===== src/Memory/Auth/Revocation/Account.antt =====
-- internal/storage/memory/auth_store.go: what RevokeAccount leaves.
use ferventio_backend.Base.{
  String, Bool, true, false, not, ◌||◌, ◌≡◌, ◌≢◌, refl, ◌∙◌, none, some, inl, inr, List, [], ◌∷◌,
  ◌==◌, eq_iff, if◌then◌else◌, Bool-cases, arith, eq_false_of_ne, is_some,
}
use ferventio_backend.Base.GoMap.{GoMap, get, retain, Each, Unique, get-retain}
use ferventio_backend.Base.GoMap.Entries.{
  Each-retain, Each-retain_test, Each-map, Each-map2, Each_self,
}
use ferventio_backend.Base.Text.{trim_space}
use ferventio_backend.Domain.Auth.{AuthCredentialRecord, AuthHandoffRecord}
use ferventio_backend.Memory.Registrations.{contains, trimmed_ids}
use ferventio_backend.Memory.Registrations.Accounts.{contains-keys}
use ferventio_backend.Memory.Auth.{AuthStore, delete_unused, credential_in_use}
use ferventio_backend.Memory.Auth.Revocation.{
  credential_ids, add_id, revoke_handoffs, revoke_artifacts, revoke_account,
}

revoke_handoffs_lem :
    (ids : List String) (m : GoMap AuthHandoffRecord) (installations : List String)
    → Each (λ _ x. contains x.credential_id ids ≡ false) (revoke_handoffs ids m installations).0
unfolding revoke_handoffs
revoke_handoffs_lem ids [] installations = tt
revoke_handoffs_lem ids ((k, x) ∷ m) installations =
    elim (Bool-cases (contains x.credential_id ids || contains x.installation_id installations)) [
      | inl e ↦
          rw (revoke_handoffs, e, if◌then◌else◌)
            (revoke_handoffs_lem ids m (add_id x.installation_id installations))
      | inr e ↦
          rw (revoke_handoffs, e, if◌then◌else◌)
            (ground arith, revoke_handoffs_lem ids m installations)
    ]

is_some_kept : (b : Bool) (c : AuthCredentialRecord) → is_some (if b then some c else none) ≡ b
is_some_kept true c = refl
is_some_kept false c = refl

-- The names of `credential_ids` are those of the user's credentials.
credential_ids_lem :
    (user : String) (s : AuthStore)
    → Unique s.credentials
    → Each (λ id c. contains id (credential_ids user s) ≡ (c.user_id == user)) s.credentials
credential_ids_lem user s u =
    Each-map (λ id c. get id s.credentials ≡ some c) _ s.credentials
      (λ id c e.
        contains-keys id (retain (λ _ c. c.user_id == user) s.credentials)
        ∙ rw (get-retain (λ _ c. c.user_id == user) id s.credentials u, e)
            (is_some_kept (c.user_id == user) c))
      (Each_self s.credentials u)

-- What RevokeAccount has to leave behind: nothing of the user, and no credential without a use.
pub record IsRevoked (user : String) (ids : List String) (s : AuthStore) : Type 0 where
  pub no_credential : Each (λ _ c. c.user_id ≢ user) s.credentials
  pub no_session : Each (λ _ x. contains x.credential_id ids ≡ false) s.sessions
  pub no_handoff : Each (λ _ x. contains x.credential_id ids ≡ false) s.handoffs
  pub all_used : Each (λ id _. credential_in_use id s ≡ true) s.credentials

other_user :
    (user : String) (ids : List String) (id : String) (c : AuthCredentialRecord)
    → contains id ids ≡ (c.user_id == user)
    → not (contains id ids) ≡ true
    → c.user_id ≢ user
other_user user ids id c e n same = ground (arith, eq_iff c.user_id user)

unlisted :
    (user : String) (ids extra : List String) (s : AuthStore)
    → Each (λ id c. contains id ids ≡ (c.user_id == user)) s.credentials
    → Each (λ _ c. c.user_id ≢ user) (revoke_artifacts ids extra s).credentials
unfolding revoke_artifacts
unlisted user ids extra s e =
    let p = λ (id : String) (c : AuthCredentialRecord). not (contains id ids) in
    Each-map2 (λ id c. contains id ids ≡ (c.user_id == user)) (λ id c. not (contains id ids) ≡ true)
      _ (retain p s.credentials) (other_user user ids) (Each-retain _ p s.credentials e)
      (Each-retain_test _ p s.credentials (λ id c h. h))

delete_unused-IsRevoked :
    (user : String) (ids extra : List String) (s : AuthStore)
    → Each (λ id c. contains id ids ≡ (c.user_id == user)) s.credentials
    → IsRevoked user ids (delete_unused (revoke_artifacts ids extra s))
unfolding delete_unused revoke_artifacts credential_in_use
delete_unused-IsRevoked user ids extra s e = record {
  no_credential = Each-retain _ _ _ (unlisted user ids extra s e);
  no_session = Each-retain_test _ _ s.sessions (λ _ x h. ground arith);
  no_handoff = revoke_handoffs_lem ids s.handoffs _;
  all_used = Each-retain_test _ _ _ (λ id c h. h);
}

-- After RevokeAccount of a user that is not blank, on a store whose credentials have distinct
-- keys, no credential of this user is left, no session and no handoff that used one, and no
-- credential that neither a session nor a handoff uses.
pub revoke_account-IsRevoked :
    (user_id : String) (extra : List String) (s : AuthStore)
    → Unique s.credentials
    → trim_space user_id ≢ ""
    → IsRevoked
        (trim_space user_id)
        (credential_ids (trim_space user_id) s)
        (revoke_account user_id extra s).0
unfolding revoke_account
revoke_account-IsRevoked user_id extra s u given =
    let user = trim_space user_id in
    rw (revoke_account, eq_false_of_ne user "" given, if◌then◌else◌)
      (delete_unused-IsRevoked user (credential_ids user s) (trimmed_ids extra) s
        (credential_ids_lem user s u))
