-- ===== src/Memory/Auth/Sessions/Binding.antt =====
-- internal/storage/memory/auth_store.go: to whom a session answers.
use ferventio_backend.Base.{
  ◌+◌, ◌/◌, ◌≤◌, String, true, false, not, ◌&&◌, ◌≡◌, refl, ap, subst, Option, some, inl, inr, leb,
  ltb, eq_iff, if◌then◌else◌, Option-cases, arith, Result, ok, err, Bool-cases,
}
use ferventio_backend.Base.GoMap.{get, put, retain, size, has, any, Each}
use ferventio_backend.Base.GoMap.Entries.{Each-retain, Each-retain_test, Each-put}
use ferventio_backend.Domain.Clock.{Time, Duration, after, before}
use ferventio_backend.Domain.Auth.{
  AuthError, auth_device_mismatch, AuthSessionRecord, max_auth_sessions,
}
use ferventio_backend.Memory.Secrets.{Hashing, secure_hash_equal_sound}
use ferventio_backend.Memory.Auth.{AuthStore, cleanup_expired, delete_unused}
use ferventio_backend.Memory.Auth.Sessions.{
  create_session, resolve_session, session_account, delete_session, is_rival_session,
  is_foreign_session, gives_way,
}

module _ (h : Hashing) where
  -- Whose session this is.
  abbrev pub IsOwn : String → String → AuthSessionRecord → Type 0
  IsOwn inst secret x = (x.installation_id ≡ inst) × (x.device_hash ≡ h.hash_secret secret)

  IsOwn-session :
      (inst secret : String) (x : AuthSessionRecord)
      → is_foreign_session h inst secret x ≡ false
      → IsOwn inst secret x
  IsOwn-session inst secret x e = (
    ground (arith, eq_iff x.installation_id inst),
    secure_hash_equal_sound x.device_hash (h.hash_secret secret) (ground arith),
  )

  renewed_lem :
      (x y : AuthSessionRecord) (e now : Time)
      → record y { expires_at = e } ≡ x
      → now ≤ e
      → (now ≤ x.expires_at) × (x ≡ record y { expires_at = x.expires_at })
  renewed_lem x y e now same alive =
      subst (λ z. (now ≤ z.expires_at) × (z ≡ record y { expires_at = z.expires_at })) same
        (alive, refl)

  -- When ResolveSession gives a session, one is stored under the token that belongs to the
  -- installation and has the hash of the device secret and has not expired; what is given differs
  -- from it at most in its expiry, and has not expired either.
  pub resolved_session_guarded :
      (token inst secret : String) (renew_ttl : Duration) (now : Time) (s s' : AuthStore)
      (x : AuthSessionRecord)
      → resolve_session h token inst secret renew_ttl now s ≡ (s', ok x)
      → (y : AuthSessionRecord) × (get (h.hash_secret token) s.sessions ≡ some y)
        × IsOwn inst secret y
        × (now ≤ y.expires_at)
        × ((now ≤ x.expires_at) × (x ≡ record y { expires_at = x.expires_at }))
  unfolding resolve_session
  resolved_session_guarded token inst secret renew_ttl now s s' x given =
      elim (Option-cases (get (h.hash_secret token) s.sessions)) [
        | inl e ↦ cc (rw (resolve_session, e) at given)
        | inr (y, e) ↦ elim (Bool-cases (after now y.expires_at)) [
          | inl a ↦ cc (rw (resolve_session, e, a, if◌then◌else◌) at given)
          | inr a ↦ elim (Bool-cases (is_foreign_session h inst secret y)) [
            | inl b ↦ cc (rw (resolve_session, e, a, b, if◌then◌else◌) at given)
            | inr b ↦
                elim (Bool-cases (ltb 0 renew_ttl && before y.expires_at (now + renew_ttl / 2))) [
                  | inl c ↦ (
                    y,
                    e,
                    IsOwn-session inst secret y b,
                    ground arith,
                    renewed_lem x y (now + renew_ttl) now
                        (cc (rw (resolve_session, e, a, b, c, if◌then◌else◌) at given))
                        (omega arith),
                  )
                  | inr c ↦ (
                    y,
                    e,
                    IsOwn-session inst secret y b,
                    ground arith,
                    renewed_lem x y y.expires_at now
                        (cc (rw (resolve_session, e, a, b, c, if◌then◌else◌) at given))
                        (ground arith),
                  )
                ]
          ]
        ]
      ]

  -- A session that has not expired and is bound to another installation or device is neither
  -- resolved nor deleted, its account is not told, and the store is left as it is.
  foreign_session_refused :
      (token inst secret : String) (renew_ttl : Duration) (now : Time) (s : AuthStore)
      (x : AuthSessionRecord)
      → get (h.hash_secret token) s.sessions ≡ some x
      → now ≤ x.expires_at
      → is_foreign_session h inst secret x ≡ true
      → (resolve_session h token inst secret renew_ttl now s ≡ (s, err auth_device_mismatch))
        × (delete_session h token inst secret s ≡ (s, err auth_device_mismatch))
        × (session_account h token inst secret now s ≡ err auth_device_mismatch)
  unfolding resolve_session delete_session session_account
  foreign_session_refused token inst secret renew_ttl now s x e alive other =
      let fresh : after now x.expires_at ≡ false = ground arith in
      (
        rw (resolve_session, e, fresh, other, if◌then◌else◌),
        rw (delete_session, e, other, if◌then◌else◌),
        rw (session_account, e, other, if◌then◌else◌),
      )

  not_there {ℓ} :
      {A : Type ℓ} (inst : String) (now : Time) (y : AuthSessionRecord)
      → not (gives_way h inst now y) ≡ true
      → y.installation_id ≡ inst
      → A
  not_there inst now y stays same = absurd (ground (arith, eq_iff y.installation_id inst))

  alone_lem :
      (inst key : String) (now : Time) (x : AuthSessionRecord) (s : AuthStore)
      → Each
          (λ k y. y.installation_id ≡ inst → k ≡ key)
          (cleanup_expired now (record s {
            sessions = put key x (retain (λ _ y. not (gives_way h inst now y)) s.sessions);
          })).sessions
  unfolding cleanup_expired delete_unused
  alone_lem inst key now x s =
      let P = λ (k : String) (y : AuthSessionRecord). y.installation_id ≡ inst → k ≡ key in
      Each-retain P _ _ (
        Each-put P key x _ (λ _. refl)
          (Each-retain_test P _ s.sessions (λ k y stays same. not_there inst now y stays same)))

  made_lem :
      (inst u t : String) (e until : Time) (final s' : AuthStore)
      → Each (λ k y. y.installation_id ≡ inst → k ≡ h.hash_secret u) final.sessions
      → ◌≡◌ {A = AuthStore × Result AuthError (String × Time)}
          (final, ok (u, e))
          (s', ok (t, until))
      → Each (λ k y. y.installation_id ≡ inst → k ≡ h.hash_secret t) s'.sessions
  made_lem inst u t e until final s' alone same =
      let same_token : u ≡ t = cc same in
      subst (λ v. Each (λ k y. y.installation_id ≡ inst → k ≡ h.hash_secret v) s'.sessions)
        same_token
        (subst (λ v. Each (λ k y. y.installation_id ≡ inst → k ≡ h.hash_secret u) v.sessions)
          (ap (λ p. p.0) same) alone)

  -- When CreateSession succeeds, every session of the installation in the store it leaves stands
  -- under the new token's hash.
  pub created_session_alone :
      (credential_id inst secret : String) (ttl : Duration) (token : Option String) (now : Time)
      (s s' : AuthStore) (t : String) (until : Time)
      → create_session h credential_id inst secret ttl token now s ≡ (s', ok (t, until))
      → Each (λ k x. x.installation_id ≡ inst → k ≡ h.hash_secret t) s'.sessions
  unfolding create_session
  created_session_alone credential_id inst secret ttl token now s s' t until made =
      let rival = any (λ _ x. is_rival_session h inst secret now x) s.sessions in
      let room =
        leb max_auth_sessions (size (retain (λ _ x. not (gives_way h inst now x)) s.sessions)) in
      elim (Bool-cases (has credential_id s.credentials)) [
        | inr a ↦ cc (rw (create_session, a, if◌then◌else◌) at made)
        | inl a ↦ elim (Bool-cases rival) [
          | inl b ↦ cc (rw (create_session, a, b, if◌then◌else◌) at made)
          | inr b ↦ elim (Bool-cases room) [
            | inl c ↦ cc (rw (create_session, a, b, c, if◌then◌else◌) at made)
            | inr c ↦ elim (Option-cases token) [
              | inl d ↦ cc (rw (create_session, a, b, c, d, if◌then◌else◌) at made)
              | inr (u, d) ↦
                  made_lem inst u t (now + ttl) until _ s'
                    (alone_lem inst (h.hash_secret u) now _ s)
                    (rw (create_session, a, b, c, d, if◌then◌else◌) at made)
            ]
          ]
        ]
      ]
