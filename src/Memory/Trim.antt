-- ===== src/Memory/Trim.antt =====
-- internal/storage/memory/delivery_store.go: the loop that trimCompletedDeliveriesLocked and
-- trimDeadEventSubInboxLocked share, over the key and the test by which they differ.
pub mod Keeps
pub mod Room
use ferventio_backend.Base.{ℕ, String, Bool, List, [], ◌∷◌, leb, if◌then◌else◌, select}
use ferventio_backend.Base.GoMap.{GoMap, delete, values, size}
use ferventio_backend.Base.Sort.{sort}

module _ {ℓ} {V : Type ℓ} (key : V → String) where
  -- Delete one after another until few enough are left.
  pub delete_until : ℕ → List V → GoMap V → GoMap V
  delete_until limit [] m = m
  delete_until limit (r ∷ rs) m =
      let rest = delete_until limit rs (delete (key r) m) in if leb (size m) limit then m else rest

  -- The finished entries go, the oldest first, until at most `limit` entries are left.
  unfoldable pub trim : (V → Bool) → (V → V → Bool) → ℕ → GoMap V → GoMap V
  unfolding delete_until
  trim finished older limit m =
      if leb (size m) limit
      then m
      else delete_until limit (sort older (select finished (values m))) m
