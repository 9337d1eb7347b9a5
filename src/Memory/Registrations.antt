-- ===== src/Memory/Registrations.antt =====
-- internal/storage/memory/store.go: the push registrations of the app installations. A registration
-- is a value here, so the clones of its lists and maps are the identity; `persistLocked` returns nil.
pub mod Access
pub mod Invariant
pub mod Accounts
pub mod Ownership
use ferventio_backend.Base.{
  ℕ, String, Bool, true, false, not, ◌&&◌, ◌||◌, Option, none, some, List, [], ◌∷◌, map, ◌==◌,
  if◌then◌else◌, select, Result, ok, err,
}
use ferventio_backend.Base.GoMap.{GoMap, get, put, delete, retain, values, keys}
use ferventio_backend.Base.Sort.{sort}
use ferventio_backend.Base.Text.{str_lt, trim_space}
use ferventio_backend.Domain.Registration.{
  Registration, RegistrationError, registration_not_found, device_secret_mismatch,
}
use ferventio_backend.Memory.Secrets.{Hashing, secure_equal, secure_hash_equal}

pub record RegistrationStore : Type 0 where
  pub registrations : GoMap Registration

abbrev pub open_store : RegistrationStore
open_store = record { registrations = [] }

-- The registration as it is shown: without its secret and the hash of it.
abbrev pub hidden : Registration → Registration
hidden r = record r { device_secret = ""; device_secret_hash = "" }

module _ (h : Hashing) where
  unfoldable pub registration_secret_matches : Registration → String → Bool
  registration_secret_matches r provided =
      if provided == ""
      then false
      else if not (r.device_secret_hash == "")
      then secure_hash_equal r.device_secret_hash (h.hash_secret provided)
      else secure_equal h r.device_secret provided

  -- The registration as it is stored.
  abbrev pub hashed : Registration → Registration
  hashed r = record r { device_secret = ""; device_secret_hash = h.hash_secret r.device_secret }

  -- An entry of this key that has another secret.
  unfoldable pub is_taken : Option Registration → String → Bool
  is_taken none secret = false
  is_taken (some r) secret = not (registration_secret_matches r secret)

  unfoldable pub upsert :
      Registration → RegistrationStore → RegistrationStore × Result {0, 0} RegistrationError Unit
  upsert r s =
      if r.device_secret == ""
      then (s, err device_secret_mismatch)
      else if is_taken (get r.installation_id s.registrations) r.device_secret
      then (s, err device_secret_mismatch)
      else (record { registrations = put r.installation_id (hashed r) s.registrations }, ok tt)

  unfoldable pub authenticate :
      String → String → RegistrationStore → Result RegistrationError Registration
  authenticate installation_id device_secret s = elim (get installation_id s.registrations) [
    | none ↦ err registration_not_found
    | some r ↦
        if registration_secret_matches r device_secret
        then ok (hidden r)
        else err device_secret_mismatch
  ]

  unfoldable pub delete_registration :
      String → String → RegistrationStore → RegistrationStore × Result {0, 0} RegistrationError Unit
  delete_registration installation_id device_secret s = elim (get installation_id s.registrations) [
    | none ↦ (s, err registration_not_found)
    | some r ↦
        if registration_secret_matches r device_secret
        then (record { registrations = delete installation_id s.registrations }, ok tt)
        else (s, err device_secret_mismatch)
  ]

unfoldable pub list_registrations : RegistrationStore → List Registration
list_registrations s = map hidden (values s.registrations)

unfoldable pub get_registration : String → RegistrationStore → Result RegistrationError Registration
get_registration installation_id s = elim (get installation_id s.registrations) [
  | none ↦ err registration_not_found
  | some r ↦ ok (hidden r)
]

abbrev pub contains : String → List String → Bool
contains k [] = false
contains k (j ∷ js) = j == k || contains k js

-- The keys of the map `targets`.
abbrev pub trimmed_ids : List String → List String
trimmed_ids ids = select (λ id. not (id == "")) (map trim_space ids)

unfoldable pub is_account_registration : String → List String → String → Registration → Bool
is_account_registration user_id targets installation_id r =
    contains installation_id targets || (not (user_id == "") && r.user_id == user_id)

-- DeleteForAccount, with the installations that it removed; where there are none, nothing changes.
unfoldable pub delete_for_account :
    String → List String → RegistrationStore → RegistrationStore × List String
delete_for_account user_id installation_ids s =
    let is_target = is_account_registration (trim_space user_id) (trimmed_ids installation_ids) in
    (
      record { registrations = retain (λ id r. not (is_target id r)) s.registrations },
      sort str_lt (keys (retain is_target s.registrations)),
    )
