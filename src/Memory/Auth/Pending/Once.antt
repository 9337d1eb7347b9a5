-- ===== src/Memory/Auth/Pending/Once.antt =====
-- internal/storage/memory/auth_store.go: a sign-in attempt is there until it is consumed, once.
use ferventio_backend.Base.{
  ◌≤◌, ◌<◌, String, false, ◌≡◌, refl, none, inl, inr, leb, if◌then◌else◌, Option-cases, arith, ok,
  err,
}
use ferventio_backend.Base.GoMap.{get, size, get-put_self, get-delete_self}
use ferventio_backend.Domain.Clock.{Time, after}
use ferventio_backend.Domain.Auth.{auth_not_found, PendingAuthRecord, max_pending_auth_records}
use ferventio_backend.Memory.Secrets.{Hashing}
use ferventio_backend.Memory.Auth.{AuthStore}
use ferventio_backend.Memory.Auth.Pending.{
  put_pending, get_pending, consume_pending, without_earlier,
}

module _ (h : Hashing) where
  consume_pending_gone :
      (state : String) (now : Time) (s : AuthStore)
      → get (h.hash_secret state) (consume_pending h state now s).0.pending ≡ none
  unfolding consume_pending
  consume_pending_gone state now s = elim (Option-cases (get (h.hash_secret state) s.pending)) [
    | inl e ↦ rw (consume_pending, e) e
    | inr (r, e) ↦ rw (consume_pending, e, get-delete_self (h.hash_secret state) s.pending)
  ]

  consume_pending-none :
      (state : String) (now : Time) (s : AuthStore)
      → get (h.hash_secret state) s.pending ≡ none
      → (consume_pending h state now s).1 ≡ err auth_not_found
  unfolding consume_pending
  consume_pending-none state now s e = rw (consume_pending, e)

  -- Whatever became of the first call, a second ConsumePending of the same state finds nothing.
  pub consume_pending_once :
      (state : String) (now later : Time) (s : AuthStore)
      → (consume_pending h state later (consume_pending h state now s).0).1 ≡ err auth_not_found
  consume_pending_once state now later s =
      consume_pending-none state later (consume_pending h state now s).0
        (consume_pending_gone state now s)

  -- When there is room after the clean-up, PutPending stores an attempt, and at any time until it
  -- expires the next GetPending and the next ConsumePending give it.
  put_pending_then_consume :
      (state : String) (r : PendingAuthRecord) (now later : Time) (s : AuthStore)
      → size (without_earlier r now s).pending < max_pending_auth_records
      → later ≤ r.expires_at
      → let (s', reply) = put_pending h state r now s in
        (reply ≡ ok tt)
        × (get_pending h state later s' ≡ ok r)
        × ((consume_pending h state later s').1 ≡ ok r)
  unfolding put_pending get_pending consume_pending
  put_pending_then_consume state r now later s room alive =
      let full : leb max_pending_auth_records (size (without_earlier r now s).pending) ≡ false =
        ground arith in
      let fresh : after later r.expires_at ≡ false = ground arith in
      rw (put_pending, full, if◌then◌else◌)
        (
          refl,
          rw (get_pending, get-put_self, fresh, if◌then◌else◌),
          rw (consume_pending, get-put_self, fresh, if◌then◌else◌),
        )
