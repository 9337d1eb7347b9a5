-- ===== src/Tests/Stores.antt =====
-- internal/storage/memory: sync_store.go, audit_store.go and store.go.
use ferventio_backend.Base.{
  true, ◌≡◌, ◌≢◌, ◌⊎◌, refl, false, none, some, List, [], ◌∷◌, ◌++◌, arith, ok, ne_of_eq_false,
}
use ferventio_backend.Base.GoMap.{get, put, Unique}
use ferventio_backend.Base.Lists.Ends.{last_of}
use ferventio_backend.Base.Sort.{Sorted}
use ferventio_backend.Base.Text.{str_lt}
use ferventio_backend.Domain.Clock.{second}
use ferventio_backend.Domain.Settings.{SettingsSyncSnapshot}
use ferventio_backend.Domain.Audit.{max_audit_records}
use ferventio_backend.Domain.Registration.{Registration}
use ferventio_backend.Memory.Settings.{
  SettingsSyncStore, new_memory_settings_sync_store, put_settings, restore_source, current,
  user_state, no_state, put_state, conflict, next_snapshot,
}
use ferventio_backend.Memory.Settings.Versions.{
  SettingsCall, put_call, restore_call, run, IsStoreVersioned, run-IsStoreVersioned,
}
use ferventio_backend.Memory.Settings.Writers.{second_writer_refused}
use ferventio_backend.Memory.Audit.{AuditStore, new_memory_audit_store}
use ferventio_backend.Memory.Audit.Log.{AppendCall, append_all, all_stored, append_all_lem}
use ferventio_backend.Memory.Registrations.{
  RegistrationStore, open_store, hidden, hashed, is_taken, upsert, authenticate, delete_for_account,
  contains,
}
use ferventio_backend.Memory.Registrations.Access.{upsert_then_authenticate}
use ferventio_backend.Memory.Registrations.Ownership.{MayChange, changed_by_owner}
use ferventio_backend.Memory.Registrations.Invariant.{
  RegistrationCall, call_upsert, call_delete, call, call_all, IsSealed, call_all-IsSealed,
  authenticated_by_hash,
}
use ferventio_backend.Memory.Registrations.Accounts.{IsOfAccount, delete_for_account_lem}
use ferventio_backend.Tests.Samples.{write, audited, phone, toy_hash}

abbrev empty : SettingsSyncStore
empty = new_memory_settings_sync_store

abbrev two_writes : List SettingsCall
two_writes = put_call "u" (write 0 "x") ∷ restore_call "u" "phone" 1 second ∷ []

run-IsStoreVersioned_example : IsStoreVersioned (run empty two_writes)
run-IsStoreVersioned_example = run-IsStoreVersioned two_writes

nothing_yet : current "u" empty ≡ none
unfolding current user_state get
nothing_yet = refl

abbrev after_x : SettingsSyncStore
after_x = (put_settings "u" (write 0 "x") empty).0

second_writer_refused_example :
    put_settings "u" (write 0 "y") after_x
    ≡ (after_x, conflict (some (next_snapshot (write 0 "x") (user_state "u" empty))))
second_writer_refused_example =
    second_writer_refused "u" (write 0 "x") (write 0 "y") empty (rw nothing_yet refl)
      (rw nothing_yet refl) refl refl

abbrev x_saved : SettingsSyncSnapshot
x_saved = next_snapshot (write 0 "x") no_state

source_found : restore_source 1 (user_state "u" after_x) ≡ some x_saved
unfolding restore_source user_state put_settings put_state get put
source_found = refl

abbrev two_appends : List AppendCall
two_appends =
    record { token = some "audit_1"; now = 1; entry = audited "" 0 }
    ∷ record { token = none; now = 2; entry = audited "mine" 2 }
    ∷ []

append_all_lem_example :
    (append_all two_appends new_memory_audit_store).records
    ≡ last_of max_audit_records ([] ++ all_stored two_appends)
append_all_lem_example = append_all_lem two_appends new_memory_audit_store (omega arith)

abbrev audit_store : AuditStore
audit_store = record { records = audited "a" 1 ∷ audited "b" 2 ∷ [] }

given : (phone "s").device_secret ≢ ""
given = ne_of_eq_false "s" "" refl

free : is_taken toy_hash (get "phone" open_store.registrations) "s" ≡ false
unfolding is_taken get
free = refl

upsert_then_authenticate_example :
    ((upsert toy_hash (phone "s") open_store).1 ≡ ok tt)
    × (authenticate toy_hash "phone" "s" (upsert toy_hash (phone "s") open_store).0
        ≡ ok (hidden (phone "s")))
upsert_then_authenticate_example =
    upsert_then_authenticate toy_hash (phone "s") open_store given free

abbrev one_phone : RegistrationStore
one_phone = record { registrations = ("phone", hashed toy_hash (phone "s")) ∷ [] }

phone_found : get "phone" one_phone.registrations ≡ some (hashed toy_hash (phone "s"))
unfolding get
phone_found = refl

abbrev one_upsert : List RegistrationCall
one_upsert = call_upsert (phone "s") ∷ []

call_all-IsSealed_example : IsSealed toy_hash (call_all toy_hash one_upsert open_store)
call_all-IsSealed_example = call_all-IsSealed toy_hash one_upsert

let_in :
    authenticate toy_hash "phone" "s" (call_all toy_hash one_upsert open_store)
    ≡ ok (hidden (phone "s"))
let_in = (upsert_then_authenticate toy_hash (phone "s") open_store given free).1

authenticated_by_hash_example :
    (e : Registration) × (get "phone" (call_all toy_hash one_upsert open_store).registrations
      ≡ some e)
    × (e.device_secret_hash ≡ toy_hash.hash_secret "s")
    × (hidden (phone "s") ≡ hidden e)
authenticated_by_hash_example =
    authenticated_by_hash toy_hash one_upsert "phone" "s" (hidden (phone "s")) let_in

one_phone-Unique : Unique one_phone.registrations
unfolding get
one_phone-Unique = (refl, tt)

delete_for_account_lem_example :
    ((IsOfAccount "u" [] "phone" (hashed toy_hash (phone "s"))
        × (get "phone" (delete_for_account "u" [] one_phone).0.registrations ≡ none)
        × (contains "phone" (delete_for_account "u" [] one_phone).1 ≡ true))
      ⊎ ((IsOfAccount "u" [] "phone" (hashed toy_hash (phone "s")) → ⊥)
          × (get "phone" (delete_for_account "u" [] one_phone).0.registrations
              ≡ some (hashed toy_hash (phone "s")))
          × (contains "phone" (delete_for_account "u" [] one_phone).1 ≡ false)))
    × Sorted str_lt (delete_for_account "u" [] one_phone).1
delete_for_account_lem_example =
    delete_for_account_lem "u" [] one_phone "phone" (hashed toy_hash (phone "s")) one_phone-Unique
      phone_found

upserted_phone :
    get "phone" (call_all toy_hash one_upsert open_store).registrations
    ≡ some (hashed toy_hash (phone "s"))
unfolding upsert is_taken get put
upserted_phone = refl

-- A Delete with another secret.
changed_by_owner_example :
    (get "phone"
        (call toy_hash
          (call_delete "phone" "x")
          (call_all toy_hash one_upsert open_store)).registrations
      ≡ some (hashed toy_hash (phone "s")))
    ⊎ MayChange toy_hash "phone" (hashed toy_hash (phone "s")) (call_delete "phone" "x")
changed_by_owner_example =
    changed_by_owner toy_hash one_upsert (call_delete "phone" "x") "phone"
      (hashed toy_hash (phone "s")) upserted_phone
