-- ===== src/Memory/Auth/Bounds.antt =====
-- internal/storage/memory/auth_store.go: distinct keys and bounds, and which steps keep them.
pub mod SignIn
pub mod SignOut
pub mod Device
pub mod Run
use ferventio_backend.Base.{
  ℕ, ◌+◌, ◌≤◌, ◌<◌, ◌≡◌, refl, String, Bool, true, false, not, inl, inr, List, [], ◌∷◌, arith, ltb,
  leb, if◌then◌else◌, Bool-cases, ◌==◌, eq_refl,
}
use ferventio_backend.Base.GoMap.{GoMap, put, delete, retain, size, Unique}
use ferventio_backend.Base.GoMap.Sizes.{size-put-le, size-delete-le, size-retain-le}
use ferventio_backend.Base.GoMap.Uniqueness.{Unique-put, Unique-delete, Unique-retain}
use ferventio_backend.Domain.Clock.{Time}
use ferventio_backend.Domain.Auth.{max_pending_auth_records, max_auth_handoffs, max_auth_sessions}
use ferventio_backend.Memory.Auth.{
  AuthStore, open_auth_store, cleanup_expired, delete_unused, release_credential, credential_in_use,
  delete_credential_if_unused,
}

-- Distinct keys, and at most this many entries.
pub record IsWithin {V : Type 0} (n : ℕ) (m : GoMap V) : Type 0 where
  pub unique : Unique m
  pub bounded : size m ≤ n

module _ {V : Type 0} where
  pub retain-IsWithin :
      (n : ℕ) (p : String → V → Bool) (m : GoMap V) → IsWithin n m → IsWithin n (retain p m)
  retain-IsWithin n p m w = record {
    unique = Unique-retain p m w.unique;
    bounded = omega (arith, size-retain-le p m, w.bounded);
  }

  pub delete-IsWithin : (n : ℕ) (k : String) (m : GoMap V) → IsWithin n m → IsWithin n (delete k m)
  delete-IsWithin n k m w = record {
    unique = Unique-delete k m w.unique;
    bounded = omega (arith, size-delete-le k m, w.bounded);
  }

  -- With room for it, one entry more.
  pub put-IsWithin :
      (n : ℕ) (k : String) (v : V) (m : GoMap V)
      → IsWithin n m
      → size m < n
      → IsWithin n (put k v m)
  put-IsWithin n k v m w room = record {
    unique = Unique-put k v m w.unique;
    bounded = omega (arith, size-put-le k v m, room);
  }

  -- An entry that is added, thinned out and deleted leaves no more than there was.
  pub size-delete-retain-put :
      (k : String) (v : V) (p : String → V → Bool) (m : GoMap V)
      → size (delete k (retain p (put k v m))) ≤ size m
  unfolding size delete retain put
  size-delete-retain-put k v p [] = elim (Bool-cases (p k v)) [
    | inl e ↦ rw (e, if◌then◌else◌, eq_refl k, if◌then◌else◌) (omega arith)
    | inr e ↦ rw (e, if◌then◌else◌) (omega arith)
  ]
  size-delete-retain-put k v p ((j, w) ∷ m) = elim (Bool-cases (j == k)) [
    | inl same ↦ elim (Bool-cases (p k v)) [
      | inl e ↦
          rw (same, if◌then◌else◌, e, if◌then◌else◌, eq_refl k, if◌then◌else◌)
            (omega (arith, size-delete-le k (retain p m), size-retain-le p m))
      | inr e ↦
          rw (same, if◌then◌else◌, e, if◌then◌else◌)
            (omega (arith, size-delete-le k (retain p m), size-retain-le p m))
    ]
    | inr other ↦ elim (Bool-cases (p j w)) [
      | inl e ↦
          rw (other, if◌then◌else◌, e, if◌then◌else◌, other, if◌then◌else◌)
            (omega (arith, size-delete-retain-put k v p m))
      | inr e ↦
          rw (other, if◌then◌else◌, e, if◌then◌else◌)
            (omega (arith, size-delete-retain-put k v p m))
    ]
  ]

-- The bounds of the store.
pub record IsBounded (s : AuthStore) : Type 0 where
  pub pending : IsWithin max_pending_auth_records s.pending
  pub handoffs : IsWithin max_auth_handoffs s.handoffs
  pub sessions : IsWithin max_auth_sessions s.sessions
  pub credentials : Unique s.credentials

pub delete_unused-IsBounded : (s : AuthStore) → IsBounded s → IsBounded (delete_unused s)
unfolding delete_unused
delete_unused-IsBounded s w = record {
  pending = w.pending;
  handoffs = w.handoffs;
  sessions = w.sessions;
  credentials = Unique-retain _ s.credentials w.credentials;
}

pub cleanup_expired-IsBounded :
    (now : Time) (s : AuthStore) → IsBounded s → IsBounded (cleanup_expired now s)
unfolding cleanup_expired
cleanup_expired-IsBounded now s w = delete_unused-IsBounded _ (record {
  pending = retain-IsWithin _ _ s.pending w.pending;
  handoffs = retain-IsWithin _ _ s.handoffs w.handoffs;
  sessions = retain-IsWithin _ _ s.sessions w.sessions;
  credentials = w.credentials;
})

pub release_credential-IsBounded :
    (id : String) (s : AuthStore) → IsBounded s → IsBounded (release_credential id s)
unfolding release_credential
release_credential-IsBounded id s w = elim (Bool-cases (credential_in_use id s)) [
  | inl e ↦ rw (release_credential, e, if◌then◌else◌) w
  | inr e ↦
      rw (release_credential, e, if◌then◌else◌)
        (record {
          pending = w.pending;
          handoffs = w.handoffs;
          sessions = w.sessions;
          credentials = Unique-delete id s.credentials w.credentials;
        })
]
