-- ===== src/Memory/Auth/Bounds/SignOut.antt =====
-- internal/storage/memory/auth_store.go: the calls on credentials and sessions, and those that sign a
-- device or an account out, keep the bounds.
use ferventio_backend.Base.{
  ℕ, ◌+◌, ◌/◌, ◌≤◌, ◌≡◌, refl, String, not, inl, inr, none, some, List, [], ◌∷◌, ◌&&◌, arith, ltb,
  if◌then◌else◌, Option-cases, Bool-cases, Result-cases, ◌==◌, ◌||◌,
}
use ferventio_backend.Base.GoMap.{GoMap, get, has, put, delete, size, Unique}
use ferventio_backend.Base.GoMap.Sizes.{size-put_same}
use ferventio_backend.Base.GoMap.Uniqueness.{Unique-put, Unique-delete, Unique-retain}
use ferventio_backend.Base.Text.{trim_space}
use ferventio_backend.Domain.Clock.{Time, Duration, after, before}
use ferventio_backend.Domain.Auth.{AuthCredential, AuthHandoffRecord}
use ferventio_backend.Memory.Secrets.{Hashing}
use ferventio_backend.Memory.Registrations.{contains, trimmed_ids}
use ferventio_backend.Memory.Auth.{AuthStore, credential_in_use, delete_credential_if_unused}
use ferventio_backend.Memory.Auth.Vault.{Vault}
use ferventio_backend.Memory.Auth.Credentials.{Nonces, put_credential, sealed_credential}
use ferventio_backend.Memory.Auth.Handoffs.{put_credential_and_handoff}
use ferventio_backend.Memory.Auth.Sessions.{resolve_session, delete_session, is_foreign_session}
use ferventio_backend.Memory.Auth.Revocation.{
  revoke_account, revoke_artifacts, revoke_handoffs, credential_ids, joined, add_id,
}
use ferventio_backend.Memory.Auth.Bounds.{
  IsWithin, IsBounded, retain-IsWithin, delete-IsWithin, delete_unused-IsBounded,
  release_credential-IsBounded,
}
use ferventio_backend.Memory.Auth.Bounds.SignIn.{put_handoff-IsBounded}

-- An entry that is replaced.
replace-IsWithin :
    {V : Type 0} (n : ℕ) (k : String) (v v' : V) (m : GoMap V)
    → IsWithin n m
    → get k m ≡ some v
    → IsWithin n (put k v' m)
replace-IsWithin n k v v' m w found = record {
  unique = Unique-put k v' m w.unique;
  bounded = omega (arith, size-put_same k v v' m found, w.bounded);
}

module _ (h : Hashing) where
  without_session :
      (key : String) (s : AuthStore)
      → IsBounded s
      → IsBounded (record s { sessions = delete key s.sessions })
  without_session key s w = record {
    pending = w.pending;
    handoffs = w.handoffs;
    sessions = delete-IsWithin _ key s.sessions w.sessions;
    credentials = w.credentials;
  }

  pub resolve_session-IsBounded :
      (token inst secret : String) (renew_ttl : Duration) (now : Time) (s : AuthStore)
      → IsBounded s
      → IsBounded (resolve_session h token inst secret renew_ttl now s).0
  unfolding resolve_session
  resolve_session-IsBounded token inst secret renew_ttl now s w =
      let key = h.hash_secret token in
      elim (Option-cases (get key s.sessions)) [
        | inl e ↦ rw (resolve_session, e) w
        | inr (x, e) ↦ elim (Bool-cases (after now x.expires_at)) [
          | inl a ↦
              rw (resolve_session, e, a, if◌then◌else◌)
                (release_credential-IsBounded x.credential_id _ (without_session key s w))
          | inr a ↦ elim (Bool-cases (is_foreign_session h inst secret x)) [
            | inl b ↦ rw (resolve_session, e, a, b, if◌then◌else◌) w
            | inr b ↦
                elim (Bool-cases (ltb 0 renew_ttl && before x.expires_at (now + renew_ttl / 2))) [
                  | inl c ↦
                      rw (resolve_session, e, a, b, c, if◌then◌else◌)
                        (record {
                          pending = w.pending;
                          handoffs = w.handoffs;
                          sessions = replace-IsWithin _ key x _ s.sessions w.sessions e;
                          credentials = w.credentials;
                        })
                  | inr c ↦ rw (resolve_session, e, a, b, c, if◌then◌else◌) w
                ]
          ]
        ]
      ]

  pub delete_session-IsBounded :
      (token inst secret : String) (s : AuthStore)
      → IsBounded s
      → IsBounded (delete_session h token inst secret s).0
  unfolding delete_session
  delete_session-IsBounded token inst secret s w =
      let key = h.hash_secret token in
      elim (Option-cases (get key s.sessions)) [
        | inl e ↦ rw (delete_session, e) w
        | inr (x, e) ↦ elim (Bool-cases (is_foreign_session h inst secret x)) [
          | inl b ↦ rw (delete_session, e, b, if◌then◌else◌) w
          | inr b ↦
              rw (delete_session, e, b, if◌then◌else◌)
                (release_credential-IsBounded x.credential_id _ (without_session key s w))
        ]
      ]

size-revoke_handoffs :
    (ids : List String) (m : GoMap AuthHandoffRecord) (installations : List String)
    → size (revoke_handoffs ids m installations).0 ≤ size m
unfolding revoke_handoffs size
size-revoke_handoffs ids [] installations = omega arith
size-revoke_handoffs ids ((k, x) ∷ m) installations =
    elim (Bool-cases (contains x.credential_id ids || contains x.installation_id installations)) [
      | inl e ↦
          rw (revoke_handoffs, e, if◌then◌else◌)
            (omega (arith, size-revoke_handoffs ids m (add_id x.installation_id installations)))
      | inr e ↦
          rw (revoke_handoffs, e, if◌then◌else◌)
            (omega (arith, size-revoke_handoffs ids m installations))
    ]

get-revoke_handoffs :
    (ids : List String) (k : String) (m : GoMap AuthHandoffRecord) (installations : List String)
    → get k m ≡ none
    → get k (revoke_handoffs ids m installations).0 ≡ none
unfolding revoke_handoffs get
get-revoke_handoffs ids k [] installations h = refl
get-revoke_handoffs ids k ((j, x) ∷ m) installations h =
    let rest : get k m ≡ none = ground arith in
    elim (Bool-cases (contains x.credential_id ids || contains x.installation_id installations)) [
      | inl e ↦
          rw (revoke_handoffs, e, if◌then◌else◌)
            (get-revoke_handoffs ids k m (add_id x.installation_id installations) rest)
      | inr e ↦
          rw (revoke_handoffs, e, if◌then◌else◌)
            (ground (arith, get-revoke_handoffs ids k m installations rest))
    ]

Unique-revoke_handoffs :
    (ids : List String) (m : GoMap AuthHandoffRecord) (installations : List String)
    → Unique m
    → Unique (revoke_handoffs ids m installations).0
unfolding revoke_handoffs
Unique-revoke_handoffs ids [] installations u = tt
Unique-revoke_handoffs ids ((k, x) ∷ m) installations u =
    elim (Bool-cases (contains x.credential_id ids || contains x.installation_id installations)) [
      | inl e ↦
          rw (revoke_handoffs, e, if◌then◌else◌)
            (Unique-revoke_handoffs ids m (add_id x.installation_id installations) u.1)
      | inr e ↦
          rw (revoke_handoffs, e, if◌then◌else◌)
            (
              get-revoke_handoffs ids k m installations u.0,
              Unique-revoke_handoffs ids m installations u.1,
            )
    ]

pub revoke_account-IsBounded :
    (user_id : String) (extra : List String) (s : AuthStore)
    → IsBounded s
    → IsBounded (revoke_account user_id extra s).0
unfolding revoke_account revoke_artifacts
revoke_account-IsBounded user_id extra s w = elim (Bool-cases (trim_space user_id == "")) [
  | inl e ↦ rw (revoke_account, e, if◌then◌else◌) w
  | inr e ↦
      rw (revoke_account, e, if◌then◌else◌)
        (delete_unused-IsBounded _ (record {
          pending = retain-IsWithin _ _ s.pending w.pending;
          handoffs = record {
            unique = Unique-revoke_handoffs _ s.handoffs _ w.handoffs.unique;
            bounded = omega (
              arith,
              size-revoke_handoffs (credential_ids (trim_space user_id) s) s.handoffs
                  (joined (credential_ids (trim_space user_id) s) s.sessions (trimmed_ids extra)),
              w.handoffs.bounded,
            );
          };
          sessions = retain-IsWithin _ _ s.sessions w.sessions;
          credentials = Unique-retain _ s.credentials w.credentials;
        }))
]

module _ (v : Vault) where
  pub put_credential-IsBounded :
      (n : Nonces) (c : AuthCredential) (s : AuthStore)
      → IsBounded s
      → IsBounded (put_credential v n c s).0
  unfolding put_credential
  put_credential-IsBounded n c s w = elim (Result-cases (sealed_credential v n c)) [
    | inl (e, q) ↦ rw (put_credential, q) w
    | inr (r, q) ↦
        rw (put_credential, q)
          (record {
            pending = w.pending;
            handoffs = w.handoffs;
            sessions = w.sessions;
            credentials = Unique-put c.id r s.credentials w.credentials;
          })
  ]

  pub put_credential_and_handoff-IsBounded :
      (h : Hashing) (n : Nonces) (c : AuthCredential) (code : String) (r : AuthHandoffRecord)
      (now later : Time) (s : AuthStore)
      → IsBounded s
      → IsBounded (put_credential_and_handoff h v n c code r now later s).0
  unfolding put_credential_and_handoff
  put_credential_and_handoff-IsBounded h n c code r now later s w =
      elim (Bool-cases (c.id == "" || not (r.credential_id == c.id))) [
        | inl e ↦ rw (put_credential_and_handoff, e, if◌then◌else◌) w
        | inr e ↦ elim (Result-cases (put_credential v n c s).1) [
          | inl (x, q) ↦
              rw (put_credential_and_handoff, e, if◌then◌else◌, q)
                (put_credential-IsBounded n c s w)
          | inr (x, q) ↦
              rw (put_credential_and_handoff, e, if◌then◌else◌, q)
                (put_handoff-IsBounded h code r now later _ (put_credential-IsBounded n c s w))
        ]
      ]

pub delete_credential_if_unused-IsBounded :
    (id : String) (s : AuthStore) → IsBounded s → IsBounded (delete_credential_if_unused id s)
delete_credential_if_unused-IsBounded id s w = elim (Bool-cases (credential_in_use id s)) [
  | inl e ↦ rw (delete_credential_if_unused, e, if◌then◌else◌) w
  | inr e ↦ elim (Bool-cases (has id s.credentials)) [
    | inr a ↦ rw (delete_credential_if_unused, e, a, if◌then◌else◌) w
    | inl a ↦
        rw (delete_credential_if_unused, e, a, if◌then◌else◌)
          (record {
            pending = w.pending;
            handoffs = w.handoffs;
            sessions = w.sessions;
            credentials = Unique-delete id s.credentials w.credentials;
          })
  ]
]
