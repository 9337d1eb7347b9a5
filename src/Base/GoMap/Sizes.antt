-- ===== src/Base/GoMap/Sizes.antt =====
-- How the operations on a map change the number of its entries.
use Prim.Native.Nat.{ℕ, ◌+◌, ◌≤◌}
use Prim.Native.String.{String}
use mathlib.Core.Path.{◌≡◌, refl}
use mathlib.Core.Bool.{Bool, true, false}
use mathlib.Core.Option.{some}
use mathlib.Core.List.{[], ◌∷◌}
use native.Mathlib.Omega.{arith}
use text.Mathlib.TextEquality.{eq_iff}
use ferventio_backend.Base.Tests.{if◌then◌else◌}
use ferventio_backend.Base.Lists.{length}
use ferventio_backend.Base.GoMap.{GoMap, get, has, put, delete, retain, update, values, size, Each}

module _ {ℓ} {V : Type ℓ} where
  pub size-put :
      (k : String) (v : V) (m : GoMap V)
      → size (put k v m) ≡ (if has k m then size m else size m + 1)
  unfolding size put has
  size-put k v [] = omega arith
  size-put k v ((i, w) ∷ m) = ground (arith, size-put k v m)

  pub size-put-le : (k : String) (v : V) (m : GoMap V) → size (put k v m) ≤ size m + 1
  size-put-le k v m = ground (arith, size-put k v m)

  pub size-put_same :
      (k : String) (v v' : V) (m : GoMap V) → get k m ≡ some v → size (put k v' m) ≡ size m
  unfolding has
  size-put_same k v v' m h = ground (arith, size-put k v' m)

  pub size-delete-le : (k : String) (m : GoMap V) → size (delete k m) ≤ size m
  unfolding size delete
  size-delete-le k [] = omega arith
  size-delete-le k ((i, w) ∷ m) = ground (arith, size-delete-le k m)

  -- A key that is there goes.
  pub size-delete-lt : (k : String) (m : GoMap V) → has k m ≡ true → size (delete k m) + 1 ≤ size m
  unfolding size delete has
  size-delete-lt k [] h = cc
  size-delete-lt k ((i, w) ∷ m) h = ground (arith, size-delete-lt k m, size-delete-le k m)

  pub size-retain-le : (p : String → V → Bool) (m : GoMap V) → size (retain p m) ≤ size m
  unfolding size retain
  size-retain-le p [] = omega arith
  size-retain-le p ((i, w) ∷ m) = ground (arith, size-retain-le p m)

  pub length-values : (m : GoMap V) → length (values m) ≡ size m
  unfolding size values
  length-values [] = refl
  length-values ((i, w) ∷ m) = omega (arith, length-values m)

  -- How many entries pass a test.
  abbrev pub count_if : (String → V → Bool) → GoMap V → ℕ
  count_if p m = size (retain p m)

  pub count_if-put-le :
      (p : String → V → Bool) (k : String) (v : V) (m : GoMap V)
      → count_if p (put k v m) ≤ count_if p m + (if p k v then 1 else 0)
  unfolding size retain put
  count_if-put-le p k v [] = ground arith
  count_if-put-le p k v ((i, w) ∷ m) = ground (arith, count_if-put-le p k v m)

  -- A write that does not change how its entry fares changes no count.
  pub count_if-put_same :
      (p : String → V → Bool) (k : String) (v v' : V) (m : GoMap V)
      → get k m ≡ some v
      → p k v' ≡ p k v
      → count_if p (put k v' m) ≡ count_if p m
  unfolding size retain put get
  count_if-put_same p k v v' [] h e = cc
  count_if-put_same p k v v' ((i, w) ∷ m) h e =
      ground (arith, eq_iff i k, count_if-put_same p k v v' m)

  pub count_if_zero :
      (p : String → V → Bool) (m : GoMap V) → Each (λ k v. p k v ≡ false) m → count_if p m ≡ 0
  unfolding size retain
  count_if_zero p [] e = refl
  count_if_zero p ((i, w) ∷ m) e = ground (arith, count_if_zero p m e.1, e.0)

  pub count_if-delete-le :
      (p : String → V → Bool) (k : String) (m : GoMap V) → count_if p (delete k m) ≤ count_if p m
  unfolding size retain delete
  count_if-delete-le p k [] = omega arith
  count_if-delete-le p k ((i, w) ∷ m) = ground (arith, count_if-delete-le p k m)

  pub count_if-retain-le :
      (p q : String → V → Bool) (m : GoMap V) → count_if p (retain q m) ≤ count_if p m
  unfolding size retain
  count_if-retain-le p q [] = omega arith
  count_if-retain-le p q ((i, w) ∷ m) = ground (arith, count_if-retain-le p q m)

module _ {ℓ κ} {V : Type ℓ} {W : Type κ} (f : String → V → W) where
  pub size-update : (m : GoMap V) → size (update f m) ≡ size m
  unfolding size update
  size-update [] = refl
  size-update ((i, w) ∷ m) = omega (arith, size-update m)

module _ {ℓ κ} {V : Type ℓ} {W : Type κ} (f : String → V → W) where
  pub count_if-update :
      (p : String → W → Bool) (q : String → V → Bool) (m : GoMap V)
      → ((k : String) (v : V) → p k (f k v) ≡ q k v)
      → count_if p (update f m) ≡ count_if q m
  unfolding size retain update
  count_if-update p q [] e = refl
  count_if-update p q ((i, w) ∷ m) e = ground (arith, count_if-update p q m e, e i w)
