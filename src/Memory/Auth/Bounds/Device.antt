-- ===== src/Memory/Auth/Bounds/Device.antt =====
-- internal/storage/memory/auth_store.go: RevokeInstallation keeps the bounds.
use ferventio_backend.Base.{
  ℕ, ◌≤◌, ◌≡◌, refl, String, Bool, inl, inr, none, [], ◌∷◌, arith, ◌==◌, if◌then◌else◌, Bool-cases,
}
use ferventio_backend.Base.GoMap.{GoMap, get, size, Unique}
use ferventio_backend.Memory.Secrets.{Hashing, secure_hash_equal}
use ferventio_backend.Memory.Auth.{AuthStore}
use ferventio_backend.Memory.Auth.Revocation.{remove_bound, revoke_installation}
use ferventio_backend.Memory.Auth.Bounds.{IsWithin, IsBounded, delete_unused-IsBounded}

module _ {V : Type 0} (here : V → Bool) (bound : V → Bool) where
  size-remove_bound : (m : GoMap V) → size (remove_bound here bound m).left ≤ size m
  unfolding remove_bound size
  size-remove_bound [] = omega arith
  size-remove_bound ((k, v) ∷ m) = ground (arith, size-remove_bound m)

  get-remove_bound :
      (k : String) (m : GoMap V) → get k m ≡ none → get k (remove_bound here bound m).left ≡ none
  unfolding remove_bound get
  get-remove_bound k [] h = refl
  get-remove_bound k ((j, v) ∷ m) h = ground (arith, get-remove_bound k m)

  Unique-remove_bound : (m : GoMap V) → Unique m → Unique (remove_bound here bound m).left
  unfolding remove_bound
  Unique-remove_bound [] u = tt
  Unique-remove_bound ((k, v) ∷ m) u = elim (Bool-cases (here v)) [
    | inr a ↦
        rw (remove_bound, a, if◌then◌else◌) (get-remove_bound k m u.0, Unique-remove_bound m u.1)
    | inl a ↦ elim (Bool-cases (bound v)) [
      | inr b ↦ rw (remove_bound, a, b, if◌then◌else◌) u
      | inl b ↦ rw (remove_bound, a, b, if◌then◌else◌) (Unique-remove_bound m u.1)
    ]
  ]

  remove_bound-IsWithin :
      (n : ℕ) (m : GoMap V) → IsWithin n m → IsWithin n (remove_bound here bound m).left
  remove_bound-IsWithin n m w = record {
    unique = Unique-remove_bound m w.unique;
    bounded = omega (arith, size-remove_bound m, w.bounded);
  }

module _ (h : Hashing) where
  pub revoke_installation-IsBounded :
      (inst secret : String) (s : AuthStore)
      → IsBounded s
      → IsBounded (revoke_installation h inst secret s).0
  unfolding revoke_installation
  revoke_installation-IsBounded inst secret s w =
      let here = λ (id : String). id == inst in
      let bound = λ (hash : String). secure_hash_equal hash (h.hash_secret secret) in
      let sessions =
        remove_bound-IsWithin (λ x. here x.installation_id) (λ x. bound x.device_hash) _ s.sessions
          w.sessions in
      let pending =
        remove_bound-IsWithin (λ x. here x.installation_id) (λ x. bound x.device_hash) _ s.pending
          w.pending in
      let handoffs =
        remove_bound-IsWithin (λ x. here x.installation_id) (λ x. bound x.device_hash) _ s.handoffs
          w.handoffs in
      elim (Bool-cases
        (remove_bound (λ x. here x.installation_id) (λ x. bound x.device_hash)
          s.sessions).mismatch) [
            | inl a ↦
                rw (revoke_installation, a, if◌then◌else◌)
                  (record {
                    pending = w.pending;
                    handoffs = w.handoffs;
                    sessions = sessions;
                    credentials = w.credentials;
                  })
            | inr a ↦
                elim (Bool-cases
                  (remove_bound (λ x. here x.installation_id) (λ x. bound x.device_hash)
                    s.pending).mismatch) [
                      | inl b ↦
                          rw (revoke_installation, a, b, if◌then◌else◌)
                            (record {
                              pending = pending;
                              handoffs = w.handoffs;
                              sessions = sessions;
                              credentials = w.credentials;
                            })
                      | inr b ↦
                          elim (Bool-cases
                            (remove_bound (λ x. here x.installation_id) (λ x. bound x.device_hash)
                              s.handoffs).mismatch) [
                                | inl c ↦
                                    rw (revoke_installation, a, b, c, if◌then◌else◌)
                                      (record {
                                        pending = pending;
                                        handoffs = handoffs;
                                        sessions = sessions;
                                        credentials = w.credentials;
                                      })
                                | inr c ↦
                                    rw (revoke_installation, a, b, c, if◌then◌else◌)
                                      (delete_unused-IsBounded _ (record {
                                        pending = pending;
                                        handoffs = handoffs;
                                        sessions = sessions;
                                        credentials = w.credentials;
                                      }))
                              ]
                    ]
          ]
