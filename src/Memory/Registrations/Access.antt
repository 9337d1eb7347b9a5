-- ===== src/Memory/Registrations/Access.antt =====
-- internal/storage/memory/store.go: who may read, replace and delete a registration.
use ferventio_backend.Base.{
  String, true, false, ◌≡◌, ◌≢◌, refl, some, eq_false_of_ne, if◌then◌else◌, ok, err,
}
use ferventio_backend.Base.GoMap.{get, put, delete, get-put_self, get-delete_self}
use ferventio_backend.Domain.Registration.{Registration, registration_not_found}
use ferventio_backend.Memory.Secrets.{Hashing, secure_hash_equal_self}
use ferventio_backend.Memory.Registrations.{
  RegistrationStore, hidden, registration_secret_matches, hashed, is_taken, upsert, authenticate,
  delete_registration,
}

module _ (h : Hashing) where
  hashed_matches :
      (r : Registration)
      → r.device_secret ≢ ""
      → registration_secret_matches h (hashed h r) r.device_secret ≡ true
  unfolding registration_secret_matches
  hashed_matches r given =
      rw
        (
          eq_false_of_ne r.device_secret "" given,
          eq_false_of_ne (h.hash_secret r.device_secret) "" (h.filled r.device_secret),
          if◌then◌else◌,
        )
        (secure_hash_equal_self h r.device_secret)

  upsert_lem :
      (r : Registration) (s : RegistrationStore)
      → r.device_secret ≢ ""
      → is_taken h (get r.installation_id s.registrations) r.device_secret ≡ false
      → upsert h r s
        ≡ (record { registrations = put r.installation_id (hashed h r) s.registrations }, ok tt)
  unfolding upsert
  upsert_lem r s given free = rw (eq_false_of_ne r.device_secret "" given, free)

  -- Upsert with a secret that is not empty succeeds when the installation has no entry with
  -- another secret; Authenticate with the secret then shows what was registered, without the
  -- secret and its hash.
  pub upsert_then_authenticate :
      (r : Registration) (s : RegistrationStore)
      → r.device_secret ≢ ""
      → is_taken h (get r.installation_id s.registrations) r.device_secret ≡ false
      → let (s', reply) = upsert h r s in
        (reply ≡ ok tt) × (authenticate h r.installation_id r.device_secret s' ≡ ok (hidden r))
  unfolding authenticate
  upsert_then_authenticate r s given free = rw (upsert_lem r s given free) (
    refl,
    rw (
      authenticate,
      get-put_self r.installation_id (hashed h r) s.registrations,
      hashed_matches r given,
      if◌then◌else◌,
    ),
  )

  delete_lem :
      (id secret : String) (e : Registration) (s : RegistrationStore)
      → get id s.registrations ≡ some e
      → registration_secret_matches h e secret ≡ true
      → delete_registration h id secret s
        ≡ (record { registrations = delete id s.registrations }, ok tt)
  unfolding delete_registration
  delete_lem id secret e s found right = rw (delete_registration, found, right)

  -- DeleteRegistration with a secret that the entry matches succeeds, and afterwards no secret
  -- finds an entry of the installation.
  delete_then_authenticate :
      (id secret : String) (e : Registration) (s : RegistrationStore)
      → get id s.registrations ≡ some e
      → registration_secret_matches h e secret ≡ true
      → let (s', reply) = delete_registration h id secret s in
        (reply ≡ ok tt)
        × ((other : String) → authenticate h id other s' ≡ err registration_not_found)
  unfolding authenticate
  delete_then_authenticate id secret e s found right =
      rw (delete_lem id secret e s found right)
        (refl, λ other. rw (authenticate, get-delete_self id s.registrations))
