-- ===== src/Memory/Auth/Handoffs/Guards.antt =====
-- internal/storage/memory/auth_store.go: to whom a handoff is given.
use ferventio_backend.Base.{
  ◌≤◌, String, true, false, ◌≡◌, ◌≢◌, ap, subst, none, some, inl, inr, eq_iff, if◌then◌else◌,
  Option-cases, arith, Result, ok, err, Bool-cases,
}
use ferventio_backend.Base.GoMap.{get, delete, get-delete_self}
use ferventio_backend.Domain.Clock.{Time, after}
use ferventio_backend.Domain.Auth.{AuthError, auth_expired, AuthHandoffRecord}
use ferventio_backend.Memory.Secrets.{Hashing, secure_hash_equal, secure_hash_equal_sound}
use ferventio_backend.Memory.Auth.{AuthStore}
use ferventio_backend.Memory.Auth.Handoffs.{consume_handoff, is_other_device}

module _ (h : Hashing) where
  -- What a handoff that is given satisfies.
  abbrev pub IsFor : String → String → String → Time → AuthHandoffRecord → Type 0
  IsFor installation_id device_secret state now r =
      (r.installation_id ≡ installation_id)
      × (r.device_hash ≡ h.hash_secret device_secret)
      × (r.state_hash ≡ h.hash_secret state)
      × (now ≤ r.expires_at)

  own_device :
      (inst secret : String) (r : AuthHandoffRecord)
      → is_other_device h inst secret r ≡ false
      → (r.installation_id ≡ inst) × (r.device_hash ≡ h.hash_secret secret)
  own_device inst secret r e = (
    ground (arith, eq_iff r.installation_id inst),
    secure_hash_equal_sound r.device_hash (h.hash_secret secret) (ground arith),
  )

  given_lem :
      (code inst secret state : String) (now : Time) (s s' : AuthStore) (x r : AuthHandoffRecord)
      → get (h.hash_secret code) s.handoffs ≡ some x
      → after now x.expires_at ≡ false
      → is_other_device h inst secret x ≡ false
      → secure_hash_equal x.state_hash (h.hash_secret state) ≡ true
      → ◌≡◌ {A = AuthStore × Result AuthError AuthHandoffRecord}
          (record s { handoffs = delete (h.hash_secret code) s.handoffs }, ok x)
          (s', ok r)
      → (get (h.hash_secret code) s.handoffs ≡ some r)
        × IsFor inst secret state now r
        × (get (h.hash_secret code) s'.handoffs ≡ none)
  given_lem code inst secret state now s s' x r e a b c same =
      let is_r : x ≡ r = cc same in
      let (own_inst, own_hash) = own_device inst secret x b in
      (
        rw e (ap some is_r),
        subst (IsFor inst secret state now) is_r (
          own_inst,
          own_hash,
          secure_hash_equal_sound x.state_hash (h.hash_secret state) c,
          ground arith,
        ),
        subst (λ t. get (h.hash_secret code) t.handoffs ≡ none) (ap (λ p. p.0) same)
            (get-delete_self (h.hash_secret code) s.handoffs),
      )

  -- When ConsumeHandoff gives a handoff, it is the one stored under the code, it has not expired,
  -- its installation is the caller's, its hashes are those of the device secret and the state, and
  -- the code is used up.
  pub consumed_handoff_guarded :
      (code inst secret state : String) (now : Time) (s s' : AuthStore) (r : AuthHandoffRecord)
      → consume_handoff h code inst secret state now s ≡ (s', ok r)
      → (get (h.hash_secret code) s.handoffs ≡ some r)
        × IsFor inst secret state now r
        × (get (h.hash_secret code) s'.handoffs ≡ none)
  unfolding consume_handoff
  consumed_handoff_guarded code inst secret state now s s' r given =
      elim (Option-cases (get (h.hash_secret code) s.handoffs)) [
        | inl e ↦ cc (rw (consume_handoff, e) at given)
        | inr (x, e) ↦ elim (Bool-cases (after now x.expires_at)) [
          | inl a ↦ cc (rw (consume_handoff, e, a, if◌then◌else◌) at given)
          | inr a ↦ elim (Bool-cases (is_other_device h inst secret x)) [
            | inl b ↦ cc (rw (consume_handoff, e, a, b, if◌then◌else◌) at given)
            | inr b ↦ elim (Bool-cases (secure_hash_equal x.state_hash (h.hash_secret state))) [
              | inl c ↦
                  given_lem code inst secret state now s s' x r e a b c
                    (rw (consume_handoff, e, a, b, c, if◌then◌else◌) at given)
              | inr c ↦ cc (rw (consume_handoff, e, a, b, c, if◌then◌else◌) at given)
            ]
          ]
        ]
      ]

  -- A refusal of ConsumeHandoff for another reason than expiry leaves the store as it is: a wrong
  -- device or state does not use up the code.
  consume_handoff_refused :
      (code inst secret state : String) (now : Time) (s : AuthStore) (e : AuthError)
      → (consume_handoff h code inst secret state now s).1 ≡ err e
      → e ≢ auth_expired
      → (consume_handoff h code inst secret state now s).0 ≡ s
  unfolding consume_handoff
  consume_handoff_refused code inst secret state now s e refused other =
      elim (Option-cases (get (h.hash_secret code) s.handoffs)) [
        | inl g ↦ rw (consume_handoff, g)
        | inr (x, g) ↦ elim (Bool-cases (after now x.expires_at)) [
          | inl a ↦ absurd (other (cc (rw (consume_handoff, g, a, if◌then◌else◌) at refused)))
          | inr a ↦ elim (Bool-cases (is_other_device h inst secret x)) [
            | inl b ↦ rw (consume_handoff, g, a, b, if◌then◌else◌)
            | inr b ↦ elim (Bool-cases (secure_hash_equal x.state_hash (h.hash_secret state))) [
              | inl c ↦ cc (rw (consume_handoff, g, a, b, c, if◌then◌else◌) at refused)
              | inr c ↦ rw (consume_handoff, g, a, b, c, if◌then◌else◌)
            ]
          ]
        ]
      ]
