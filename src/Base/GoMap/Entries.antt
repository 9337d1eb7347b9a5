-- ===== src/Base/GoMap/Entries.antt =====
-- Predicates that hold of every entry of a map, and the values of a map.
use Prim.Native.String.{String}
use mathlib.Core.Path.{◌≡◌}
use mathlib.Core.Bool.{Bool, true, false}
use mathlib.Core.Option.{none, some}
use mathlib.Core.List.{[], ◌∷◌}
use native.Mathlib.Omega.{arith}
use text.Mathlib.Text.{◌==◌}
use text.Mathlib.TextEquality.{eq_iff}
use text.Mathlib.TextPositions.{eq_refl}
use mathlib.Core.Logic.{inl, inr}
use ferventio_backend.Base.Tests.{if◌then◌else◌, Bool-cases}
use ferventio_backend.Base.Lists.{All}
use ferventio_backend.Base.GoMap.{
  GoMap, get, put, delete, retain, update, values, any, find, Each, Unique,
}

module _ {ℓ κ} {V : Type ℓ} (P : String → V → Type κ) where
  pub Each-get : (k : String) (v : V) (m : GoMap V) → Each P m → get k m ≡ some v → P k v
  unfolding get
  Each-get k v [] e h = cc
  Each-get k v ((i, w) ∷ m) e h = elim (Bool-cases (i == k)) [
    | inl q ↦ ground (arith, eq_iff i k, e.0)
    | inr q ↦ Each-get k v m e.1 (rw (q, if◌then◌else◌) at h)
  ]

  pub Each_all : (m : GoMap V) → ((k : String) (v : V) → P k v) → Each P m
  Each_all [] f = tt
  Each_all ((i, w) ∷ m) f = (f i w, Each_all m f)

  pub Each-put : (k : String) (v : V) (m : GoMap V) → P k v → Each P m → Each P (put k v m)
  unfolding put
  Each-put k v [] p e = (p, tt)
  Each-put k v ((i, w) ∷ m) p e = elim (Bool-cases (i == k)) [
    | inl q ↦ rw (q, if◌then◌else◌) (p, e.1)
    | inr q ↦ rw (q, if◌then◌else◌) (e.0, Each-put k v m p e.1)
  ]

  pub Each-delete : (k : String) (m : GoMap V) → Each P m → Each P (delete k m)
  unfolding delete
  Each-delete k [] e = tt
  Each-delete k ((i, w) ∷ m) e = elim (Bool-cases (i == k)) [
    | inl q ↦ rw (q, if◌then◌else◌) (Each-delete k m e.1)
    | inr q ↦ rw (q, if◌then◌else◌) (e.0, Each-delete k m e.1)
  ]

  pub Each-retain : (p : String → V → Bool) (m : GoMap V) → Each P m → Each P (retain p m)
  unfolding retain
  Each-retain p [] e = tt
  Each-retain p ((i, w) ∷ m) e = elim (Bool-cases (p i w)) [
    | inl q ↦ rw (q, if◌then◌else◌) (e.0, Each-retain p m e.1)
    | inr q ↦ rw (q, if◌then◌else◌) (Each-retain p m e.1)
  ]

  -- What the test of a `retain` says holds of what stays.
  pub Each-retain_test :
      (p : String → V → Bool) (m : GoMap V)
      → ((k : String) (v : V) → p k v ≡ true → P k v)
      → Each P (retain p m)
  unfolding retain
  Each-retain_test p [] h = tt
  Each-retain_test p ((i, w) ∷ m) h = elim (Bool-cases (p i w)) [
    | inl q ↦ rw (q, if◌then◌else◌) (h i w q, Each-retain_test p m h)
    | inr q ↦ rw (q, if◌then◌else◌) (Each-retain_test p m h)
  ]

  -- A `range` that finds nothing has seen every entry fail.
  pub Each_of_any :
      (p : String → V → Bool) (m : GoMap V)
      → ((k : String) (v : V) → p k v ≡ false → P k v)
      → any p m ≡ false
      → Each P m
  unfolding any
  Each_of_any p [] h e = tt
  Each_of_any p ((i, w) ∷ m) h e = elim (Bool-cases (p i w)) [
    | inl q ↦ cc (rw (q, if◌then◌else◌) at e)
    | inr q ↦ (h i w q, Each_of_any p m h (rw (q, if◌then◌else◌) at e))
  ]

module _ {ℓ κ ι} {V : Type ℓ} (P : String → V → Type κ) (Q : String → V → Type ι) where
  pub Each-map : (m : GoMap V) → ((k : String) (v : V) → P k v → Q k v) → Each P m → Each Q m
  Each-map [] f e = tt
  Each-map ((i, w) ∷ m) f e = (f i w e.0, Each-map m f e.1)

module _ {ℓ κ ι ν} {V : Type ℓ} (P : String → V → Type κ) (Q : String → V → Type ι)
    (R : String → V → Type ν) where
  pub Each-map2 :
      (m : GoMap V)
      → ((k : String) (v : V) → P k v → Q k v → R k v)
      → Each P m
      → Each Q m
      → Each R m
  Each-map2 [] f e d = tt
  Each-map2 ((i, w) ∷ m) f e d = (f i w e.0 d.0, Each-map2 m f e.1 d.1)

module _ {ℓ κ ι} {V : Type ℓ} {W : Type κ} (Q : String → W → Type ι) (f : String → V → W) where
  pub Each-update : (m : GoMap V) → Each (λ k v. Q k (f k v)) m → Each Q (update f m)
  unfolding update
  Each-update [] e = tt
  Each-update ((i, w) ∷ m) e = (e.0, Each-update m e.1)

module _ {ℓ κ} {V : Type ℓ} (P : V → Type κ) where
  pub All-values : (m : GoMap V) → Each (λ _ v. P v) m → All P (values m)
  unfolding values
  All-values [] e = tt
  All-values ((i, w) ∷ m) e = (e.0, All-values m e.1)

  pub Each_of_values : (m : GoMap V) → All P (values m) → Each (λ _ v. P v) m
  unfolding values
  Each_of_values [] e = tt
  Each_of_values ((i, w) ∷ m) e = (e.0, Each_of_values m e.1)

module _ {ℓ} {V : Type ℓ} (p : String → V → Bool) where
  -- A found value passes the test, and stands under some key.
  pub find-some : (m : GoMap V) (v : V) → find p m ≡ some v → (k : String) × (p k v ≡ true)
  unfolding find
  find-some [] v h = cc
  find-some ((i, w) ∷ m) v h = elim (Bool-cases (p i w)) [
    | inl q ↦ (i, ground arith)
    | inr q ↦ find-some m v (rw (q, if◌then◌else◌) at h)
  ]

  pub find-none : (m : GoMap V) → find p m ≡ none → Each (λ k v. p k v ≡ false) m
  unfolding find
  find-none [] h = tt
  find-none ((i, w) ∷ m) h = elim (Bool-cases (p i w)) [
    | inl q ↦ cc (rw (q, if◌then◌else◌) at h)
    | inr q ↦ (q, find-none m (rw (q, if◌then◌else◌) at h))
  ]

module _ {ℓ} {V : Type ℓ} where
  -- What a `range` sees under a key is what a lookup of the key finds.
  pub Each_self : (m : GoMap V) → Unique m → Each (λ k v. get k m ≡ some v) m
  unfolding get
  Each_self [] u = tt
  Each_self ((i, w) ∷ m) u = (
    simp eq_refl,
    Each-map (λ k v. get k m ≡ some v) _ m (λ k v h. ground (arith, eq_iff i k, u.0))
        (Each_self m u.1),
  )

  -- An entry that passes the test is seen by the `range`.
  pub any_of_get :
      (p : String → V → Bool) (k : String) (v : V) (m : GoMap V)
      → get k m ≡ some v
      → p k v ≡ true
      → any p m ≡ true
  unfolding any get
  any_of_get p k v [] h t = cc
  any_of_get p k v ((i, w) ∷ m) h t = ground (arith, eq_iff i k, any_of_get p k v m)
