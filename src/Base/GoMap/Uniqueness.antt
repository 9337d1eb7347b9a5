-- ===== src/Base/GoMap/Uniqueness.antt =====
-- Every operation keeps the keys distinct.
use Prim.Native.String.{String}
use mathlib.Core.Path.{refl}
use mathlib.Core.Bool.{Bool}
use mathlib.Core.List.{[], ◌∷◌}
use mathlib.Core.Logic.{inl, inr}
use native.Mathlib.Omega.{arith}
use text.Mathlib.Text.{◌==◌}
use text.Mathlib.TextEquality.{eq_iff}
use ferventio_backend.Base.Tests.{if◌then◌else◌, Bool-cases}
use ferventio_backend.Base.GoMap.{
  GoMap, get, put, delete, retain, update, Unique, get-put, get-delete, get-retain-none, get-update,
}

module _ {ℓ} {V : Type ℓ} where
  pub Unique-put : (k : String) (v : V) (m : GoMap V) → Unique m → Unique (put k v m)
  unfolding put get
  Unique-put k v [] u = (refl, tt)
  Unique-put k v ((i, w) ∷ m) u = elim (Bool-cases (i == k)) [
    | inl q ↦ rw (q, if◌then◌else◌) (ground (arith, eq_iff i k, u.0), u.1)
    | inr q ↦
        rw (q, if◌then◌else◌)
          (ground (arith, get-put k i v m, eq_iff i k, eq_iff k i, u.0), Unique-put k v m u.1)
  ]

  pub Unique-delete : (k : String) (m : GoMap V) → Unique m → Unique (delete k m)
  unfolding delete
  Unique-delete k [] u = tt
  Unique-delete k ((i, w) ∷ m) u = elim (Bool-cases (i == k)) [
    | inl q ↦ rw (q, if◌then◌else◌) (Unique-delete k m u.1)
    | inr q ↦ rw (q, if◌then◌else◌) (ground (arith, get-delete k i m, u.0), Unique-delete k m u.1)
  ]

  pub Unique-retain : (p : String → V → Bool) (m : GoMap V) → Unique m → Unique (retain p m)
  unfolding retain
  Unique-retain p [] u = tt
  Unique-retain p ((i, w) ∷ m) u = elim (Bool-cases (p i w)) [
    | inl q ↦ rw (q, if◌then◌else◌) (get-retain-none p i m u.0, Unique-retain p m u.1)
    | inr q ↦ rw (q, if◌then◌else◌) (Unique-retain p m u.1)
  ]

module _ {ℓ κ} {V : Type ℓ} {W : Type κ} (f : String → V → W) where
  pub Unique-update : (m : GoMap V) → Unique m → Unique (update f m)
  unfolding update
  Unique-update [] u = tt
  Unique-update ((i, w) ∷ m) u = (ground (arith, get-update f i m, u.0), Unique-update m u.1)
