-- ===== src/Memory/Auth/Pending.antt =====
-- internal/storage/memory/auth_store.go: PutPending, GetPending and ConsumePending.
pub mod Once
use ferventio_backend.Base.{
  String, Bool, not, ◌&&◌, Option, none, some, leb, ◌==◌, if◌then◌else◌, Result, ok, err,
}
use ferventio_backend.Base.GoMap.{get, put, delete, retain, size}
use ferventio_backend.Domain.Clock.{Time, after}
use ferventio_backend.Domain.Auth.{
  AuthError, auth_not_found, auth_expired, auth_capacity, PendingAuthRecord,
  max_pending_auth_records,
}
use ferventio_backend.Memory.Secrets.{Hashing, secure_hash_equal}
use ferventio_backend.Memory.Auth.{AuthStore, cleanup_expired}

abbrev pub same_pending_device : PendingAuthRecord → PendingAuthRecord → Bool
same_pending_device r existing =
    existing.installation_id == r.installation_id
    && secure_hash_equal existing.device_hash r.device_hash

-- The store without expired records and without the device's earlier attempts.
unfoldable pub without_earlier : PendingAuthRecord → Time → AuthStore → AuthStore
without_earlier r now s =
    let s' = cleanup_expired now s in
    record s' { pending = retain (λ _ p. not (same_pending_device r p)) s'.pending }

module _ (h : Hashing) where
  unfoldable pub put_pending :
      String → PendingAuthRecord → Time → AuthStore → AuthStore × Result {0, 0} AuthError Unit
  put_pending state r now s =
      let s' = without_earlier r now s in
      if leb max_pending_auth_records (size s'.pending)
      then (s', err auth_capacity)
      else (record s' { pending = put (h.hash_secret state) r s'.pending }, ok tt)

  abbrev pub unless_expired : Time → PendingAuthRecord → Result AuthError PendingAuthRecord
  unless_expired now r = if after now r.expires_at then err auth_expired else ok r

  unfoldable pub get_pending : String → Time → AuthStore → Result AuthError PendingAuthRecord
  get_pending state now s = elim (get (h.hash_secret state) s.pending) [
    | none ↦ err auth_not_found
    | some r ↦ unless_expired now r
  ]

  -- An expired record is consumed too.
  unfoldable pub consume_pending :
      String → Time → AuthStore → AuthStore × Result AuthError PendingAuthRecord
  consume_pending state now s = elim (get (h.hash_secret state) s.pending) [
    | none ↦ (s, err auth_not_found)
    | some r ↦ (record s { pending = delete (h.hash_secret state) s.pending }, unless_expired now r)
  ]
