-- ===== src/Memory/Registrations/Invariant.antt =====
-- internal/storage/memory/store.go: what every store that calls have filled looks like.
use ferventio_backend.Base.{
  String, true, ◌≡◌, ◌≢◌, refl, inl, inr, some, List, [], ◌∷◌, ◌==◌, if◌then◌else◌, Bool-cases,
  eq_false_of_ne, sym, ◌∙◌, Option-cases, ok,
}
use ferventio_backend.Base.GoMap.{get, Each, Unique}
use ferventio_backend.Base.GoMap.Entries.{Each-put, Each-delete, Each-retain, Each-get}
use ferventio_backend.Base.GoMap.Uniqueness.{Unique-put, Unique-delete, Unique-retain}
use ferventio_backend.Domain.Registration.{Registration}
use ferventio_backend.Memory.Secrets.{Hashing, secure_hash_equal_sound}
use ferventio_backend.Memory.Registrations.{
  RegistrationStore, open_store, hidden, registration_secret_matches, hashed, is_taken, upsert,
  authenticate, delete_registration, delete_for_account,
}

-- The calls that change the store.
pub data RegistrationCall : Type 0 where
  call_upsert : Registration → RegistrationCall
  call_delete : String → String → RegistrationCall
  call_delete_for_account : String → List String → RegistrationCall

module _ (h : Hashing) where
  -- An entry stands at its installation, holds no secret in plain text, and holds the hash of one.
  abbrev pub IsHashed : String → Registration → Type 0
  IsHashed k r =
      (r.installation_id ≡ k)
      × (r.device_secret ≡ "")
      × ((secret : String) × (r.device_secret_hash ≡ h.hash_secret secret))

  abbrev pub IsSealed : RegistrationStore → Type 0
  IsSealed s = Unique s.registrations × Each IsHashed s.registrations

  abbrev pub call : RegistrationCall → RegistrationStore → RegistrationStore
  call (call_upsert r) s = (upsert h r s).0
  call (call_delete id secret) s = (delete_registration h id secret s).0
  call (call_delete_for_account user_id ids) s = (delete_for_account user_id ids s).0

  abbrev pub call_all : List RegistrationCall → RegistrationStore → RegistrationStore
  call_all [] s = s
  call_all (c ∷ cs) s = call_all cs (call c s)

  upsert-IsSealed :
      (r : Registration) (s : RegistrationStore) → IsSealed s → IsSealed (upsert h r s).0
  unfolding upsert
  upsert-IsSealed r s w = elim (Bool-cases (r.device_secret == "")) [
    | inl e ↦ rw (upsert, e, if◌then◌else◌) w
    | inr e ↦
        elim (Bool-cases (is_taken h (get r.installation_id s.registrations) r.device_secret)) [
          | inl t ↦ rw (upsert, e, t, if◌then◌else◌) w
          | inr t ↦
              rw (upsert, e, t, if◌then◌else◌)
                (
                  Unique-put r.installation_id (hashed h r) s.registrations w.0,
                  Each-put IsHashed r.installation_id (hashed h r) s.registrations
                      (refl, refl, (r.device_secret, refl)) w.1,
                )
        ]
  ]

  delete_registration-IsSealed :
      (id secret : String) (s : RegistrationStore)
      → IsSealed s
      → IsSealed (delete_registration h id secret s).0
  unfolding delete_registration
  delete_registration-IsSealed id secret s w = elim (Option-cases (get id s.registrations)) [
    | inl e ↦ rw (delete_registration, e) w
    | inr (r, e) ↦ elim (Bool-cases (registration_secret_matches h r secret)) [
      | inl t ↦
          rw (delete_registration, e, t, if◌then◌else◌)
            (Unique-delete id s.registrations w.0, Each-delete IsHashed id s.registrations w.1)
      | inr t ↦ rw (delete_registration, e, t, if◌then◌else◌) w
    ]
  ]

  delete_for_account-IsSealed :
      (user_id : String) (ids : List String) (s : RegistrationStore)
      → IsSealed s
      → IsSealed (delete_for_account user_id ids s).0
  unfolding delete_for_account
  delete_for_account-IsSealed user_id ids s w =
      (Unique-retain _ s.registrations w.0, Each-retain IsHashed _ s.registrations w.1)

  call-IsSealed : (c : RegistrationCall) (s : RegistrationStore) → IsSealed s → IsSealed (call c s)
  call-IsSealed (call_upsert r) s w = upsert-IsSealed r s w
  call-IsSealed (call_delete id secret) s w = delete_registration-IsSealed id secret s w
  call-IsSealed (call_delete_for_account user_id ids) s w =
      delete_for_account-IsSealed user_id ids s w

  call_all_from :
      (cs : List RegistrationCall) (s : RegistrationStore) → IsSealed s → IsSealed (call_all cs s)
  call_all_from [] s w = w
  call_all_from (c ∷ cs) s w = call_all_from cs (call c s) (call-IsSealed c s w)

  -- After any calls on a new store, each installation has at most one entry, which stands at its
  -- identifier and holds the hash of a secret in place of the secret.
  pub call_all-IsSealed : (cs : List RegistrationCall) → IsSealed (call_all cs open_store)
  call_all-IsSealed cs = call_all_from cs open_store (tt, tt)

  pub match_sound :
      (r : Registration) (secret : String)
      → r.device_secret_hash ≢ ""
      → registration_secret_matches h r secret ≡ true
      → r.device_secret_hash ≡ h.hash_secret secret
  unfolding registration_secret_matches
  match_sound r secret filled m = elim (Bool-cases (secret == "")) [
    | inl e ↦ cc (rw (registration_secret_matches, e, if◌then◌else◌) at m)
    | inr e ↦ secure_hash_equal_sound r.device_secret_hash (h.hash_secret secret) (
        rw
          (
            registration_secret_matches,
            e,
            eq_false_of_ne r.device_secret_hash "" filled,
            if◌then◌else◌,
          )
          at m)
  ]

  pub hash-filled : (k : String) (r : Registration) → IsHashed k r → r.device_secret_hash ≢ ""
  hash-filled k r i e = h.filled i.2.0 (sym i.2.1 ∙ e)

  authenticate_lem :
      (id secret : String) (r : Registration) (s : RegistrationStore)
      → IsSealed s
      → authenticate h id secret s ≡ ok r
      → (e : Registration) × (get id s.registrations ≡ some e)
        × (e.device_secret_hash ≡ h.hash_secret secret)
        × (r ≡ hidden e)
  unfolding authenticate
  authenticate_lem id secret r s w a = elim (Option-cases (get id s.registrations)) [
    | inl g ↦ cc (rw (authenticate, g) at a)
    | inr (e, g) ↦ elim (Bool-cases (registration_secret_matches h e secret)) [
      | inl m ↦ (
        e,
        g,
        match_sound e secret (hash-filled id e (Each-get IsHashed id e s.registrations w.1 g)) m,
        cc (rw (authenticate, g, m, if◌then◌else◌) at a),
      )
      | inr m ↦ cc (rw (authenticate, g, m, if◌then◌else◌) at a)
    ]
  ]

  -- After any calls on a new store, when Authenticate lets a secret in, the installation has an
  -- entry, the entry's hash is the secret's hash, and what is shown is the entry without secret
  -- and hash.
  pub authenticated_by_hash :
      (cs : List RegistrationCall) (id secret : String) (r : Registration)
      → authenticate h id secret (call_all cs open_store) ≡ ok r
      → (e : Registration) × (get id (call_all cs open_store).registrations ≡ some e)
        × (e.device_secret_hash ≡ h.hash_secret secret)
        × (r ≡ hidden e)
  authenticated_by_hash cs id secret r a =
      authenticate_lem id secret r (call_all cs open_store) (call_all-IsSealed cs) a
