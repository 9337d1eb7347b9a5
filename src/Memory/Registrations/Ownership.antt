-- ===== src/Memory/Registrations/Ownership.antt =====
-- internal/storage/memory/store.go: who may change the entry of an installation.
use ferventio_backend.Base.{
  String, ◌≡◌, ◌≢◌, ◌∙◌, ◌⊎◌, inl, inr, some, List, arith, ◌==◌, eq_iff, if◌then◌else◌, Bool-cases,
  Option-cases,
}
use ferventio_backend.Base.GoMap.{get, get-put, get-delete}
use ferventio_backend.Base.GoMap.Entries.{Each-get}
use ferventio_backend.Domain.Registration.{Registration}
use ferventio_backend.Memory.Secrets.{Hashing}
use ferventio_backend.Memory.Registrations.{
  RegistrationStore, open_store, hashed, registration_secret_matches, is_taken, upsert,
  delete_registration,
}
use ferventio_backend.Memory.Registrations.Invariant.{
  RegistrationCall, call_upsert, call_delete, call_delete_for_account, IsHashed, IsSealed, call,
  call_all, call_all-IsSealed, match_sound, hash-filled,
}
use ferventio_backend.Memory.Registrations.Accounts.{IsOfAccount, delete_for_account_lem}

module _ (h : Hashing) where
  -- The call may change the entry `e` of the installation `id`: it has the secret whose hash the entry
  -- holds, or the entry is the account's.
  abbrev pub MayChange : String → Registration → RegistrationCall → Type 0
  MayChange id e (call_upsert r) =
      (r.installation_id ≡ id) × (e.device_secret_hash ≡ h.hash_secret r.device_secret)
  MayChange id e (call_delete i secret) = (i ≡ id) × (e.device_secret_hash ≡ h.hash_secret secret)
  MayChange id e (call_delete_for_account user_id ids) = IsOfAccount user_id ids id e

  abbrev Changed : String → Registration → RegistrationCall → RegistrationStore → Type 0
  Changed id e c s = (get id (call h c s).registrations ≡ some e) ⊎ MayChange id e c

  upserted :
      (id : String) (e r : Registration) (s : RegistrationStore)
      → e.device_secret_hash ≢ ""
      → get id s.registrations ≡ some e
      → Changed id e (call_upsert r) s
  unfolding upsert is_taken
  upserted id e r s filled found = elim (Bool-cases (r.device_secret == "")) [
    | inl b ↦ inl (rw (call, upsert, b, if◌then◌else◌) found)
    | inr b ↦
        elim (Bool-cases (is_taken h (get r.installation_id s.registrations) r.device_secret)) [
          | inl t ↦ inl (rw (call, upsert, b, t, if◌then◌else◌) found)
          | inr t ↦ elim (Bool-cases (r.installation_id == id)) [
            | inr other ↦ inl (
                rw (call, upsert, b, t, if◌then◌else◌)
                  (get-put r.installation_id id (hashed h r) s.registrations
                    ∙ rw (other, if◌then◌else◌) found))
            | inl same ↦
                let e_id = (eq_iff r.installation_id id).0 same in
                inr (
                  e_id,
                  match_sound h e r.device_secret filled
                      (ground (arith, rw (e_id, found, is_taken) at t)),
                )
          ]
        ]
  ]

  deleted :
      (id i secret : String) (e : Registration) (s : RegistrationStore)
      → e.device_secret_hash ≢ ""
      → get id s.registrations ≡ some e
      → Changed id e (call_delete i secret) s
  unfolding delete_registration
  deleted id i secret e s filled found = elim (Option-cases (get i s.registrations)) [
    | inl g ↦ inl (rw (call, delete_registration, g) found)
    | inr (x, g) ↦ elim (Bool-cases (registration_secret_matches h x secret)) [
      | inr m ↦ inl (rw (call, delete_registration, g, m, if◌then◌else◌) found)
      | inl m ↦ elim (Bool-cases (i == id)) [
        | inr other ↦ inl (
            rw (call, delete_registration, g, m, if◌then◌else◌)
              (get-delete i id s.registrations ∙ rw (other, if◌then◌else◌) found))
        | inl same ↦
            let e_id = (eq_iff i id).0 same in
            inr (e_id, match_sound h e secret filled (cc (g, found, e_id, m)))
      ]
    ]
  ]

  changed :
      (c : RegistrationCall) (id : String) (e : Registration) (s : RegistrationStore)
      → IsSealed h s
      → get id s.registrations ≡ some e
      → Changed id e c s
  changed (call_upsert r) id e s w found =
      upserted id e r s (hash-filled h id e (Each-get (IsHashed h) id e s.registrations w.1 found))
        found
  changed (call_delete i secret) id e s w found =
      deleted id i secret e s
        (hash-filled h id e (Each-get (IsHashed h) id e s.registrations w.1 found)) found
  changed (call_delete_for_account user_id ids) id e s w found =
      elim (delete_for_account_lem user_id ids s id e w.0 found).0 [
        | inl (mine, gone, listed) ↦ inr mine
        | inr (other, kept, unlisted) ↦ inl kept
      ]

  -- After any calls on a new store, one more call leaves an installation's entry as it is, unless the
  -- call is an Upsert or a Delete of the installation with a secret whose hash the entry holds, or a
  -- DeleteForAccount of the entry's account or installation.
  pub changed_by_owner :
      (cs : List RegistrationCall) (c : RegistrationCall) (id : String) (e : Registration)
      → get id (call_all h cs open_store).registrations ≡ some e
      → (get id (call h c (call_all h cs open_store)).registrations ≡ some e) ⊎ MayChange id e c
  changed_by_owner cs c id e found =
      changed c id e (call_all h cs open_store) (call_all-IsSealed h cs) found
