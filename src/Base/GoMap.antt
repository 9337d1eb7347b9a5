-- ===== src/Base/GoMap.antt =====
-- Go's `map[string]V` as an association list. The order of the list is the order in which one
-- `range` visits the entries; the theorems hold for every list, so for every order.
pub mod Sizes
pub mod Entries
pub mod Uniqueness
use Prim.Native.Nat.{ℕ}
use Prim.Native.String.{String}
use mathlib.Core.Path.{◌≡◌, refl, ◌∙◌}
use mathlib.Core.Logic.{◌≢◌, inl, inr}
use mathlib.Core.Bool.{Bool, true, false, not, ◌&&◌}
use mathlib.Core.Option
use mathlib.Core.Option.{Option, none, some}
use mathlib.Core.List.{List, [], ◌∷◌}
use native.Mathlib.Omega.{arith}
use text.Mathlib.Text.{◌==◌}
use text.Mathlib.TextEquality.{eq_iff}
use text.Mathlib.TextPositions.{eq_refl}
use ferventio_backend.Base.Tests.{if◌then◌else◌, is_some, Bool-cases, Option-cases}
use ferventio_backend.Base.Lists.{length}

abbrev pub GoMap {ℓ} : Type ℓ → Type ℓ
GoMap V = List (String × V)

module _ {ℓ} {V : Type ℓ} where
  -- m[k] with its `ok`
  unfoldable pub get : String → GoMap V → Option V
  get k [] = none
  get k ((j, v) ∷ m) = if j == k then some v else get k m

  unfoldable pub has : String → GoMap V → Bool
  unfolding get
  has k m = is_some (get k m)

  -- m[k] = v
  unfoldable pub put : String → V → GoMap V → GoMap V
  put k v [] = (k, v) ∷ []
  put k v ((j, w) ∷ m) = if j == k then (k, v) ∷ m else (j, w) ∷ put k v m

  -- delete(m, k)
  unfoldable pub delete : String → GoMap V → GoMap V
  delete k [] = []
  delete k ((j, w) ∷ m) = let rest = delete k m in if j == k then rest else (j, w) ∷ rest

  -- for k, v := range m { if !p(k, v) { delete(m, k) } }
  unfoldable pub retain : (String → V → Bool) → GoMap V → GoMap V
  retain p [] = []
  retain p ((j, w) ∷ m) = let rest = retain p m in if p j w then (j, w) ∷ rest else rest

  unfoldable pub values : GoMap V → List V
  values [] = []
  values ((j, w) ∷ m) = w ∷ values m

  unfoldable pub keys : GoMap V → List String
  keys [] = []
  keys ((j, w) ∷ m) = j ∷ keys m

  unfoldable pub size : GoMap V → ℕ
  size m = length m

  -- for k, v := range m { if p(k, v) { return true } }; return false
  unfoldable pub any : (String → V → Bool) → GoMap V → Bool
  any p [] = false
  any p ((j, w) ∷ m) = let rest = any p m in if p j w then true else rest

  -- for k, v := range m { if p(k, v) { return v } }
  unfoldable pub find : (String → V → Bool) → GoMap V → Option V
  find p [] = none
  find p ((j, w) ∷ m) = let rest = find p m in if p j w then some w else rest

  abbrev pub Each {κ} : (String → V → Type κ) → GoMap V → Type κ
  Each P [] = Unit
  Each P ((j, w) ∷ m) = P j w × Each P m

  -- No key stands twice: what makes the list a map.
  abbrev pub Unique : GoMap V → Type ℓ
  Unique [] = Unit
  Unique ((j, w) ∷ m) = (get j m ≡ none) × Unique m

-- for k, v := range m { m[k] = f(k, v) }
unfoldable pub update {ℓ κ} : {V : Type ℓ} {W : Type κ} → (String → V → W) → GoMap V → GoMap W
update f [] = []
update f ((j, w) ∷ m) = (j, f j w) ∷ update f m

module _ {ℓ} {V : Type ℓ} where
  pub get-put :
      (k j : String) (v : V) (m : GoMap V)
      → get j (put k v m) ≡ (if k == j then some v else get j m)
  unfolding get put
  get-put k j v [] = refl
  get-put k j v ((i, w) ∷ m) = ground (arith, eq_iff k j, eq_iff i k, eq_iff i j, get-put k j v m)

  pub get-put_self : (k : String) (v : V) (m : GoMap V) → get k (put k v m) ≡ some v
  get-put_self k v m = simp (get-put, eq_refl)

  pub get-delete :
      (k j : String) (m : GoMap V) → get j (delete k m) ≡ (if k == j then none else get j m)
  unfolding get delete
  get-delete k j [] = ground arith
  get-delete k j ((i, w) ∷ m) = ground (arith, eq_iff k j, eq_iff i k, eq_iff i j, get-delete k j m)

  pub get-delete_self : (k : String) (m : GoMap V) → get k (delete k m) ≡ none
  get-delete_self k m = simp (get-delete, eq_refl)

  pub get-retain-none :
      (p : String → V → Bool) (k : String) (m : GoMap V)
      → get k m ≡ none
      → get k (retain p m) ≡ none
  unfolding get retain
  get-retain-none p k [] h = refl
  get-retain-none p k ((i, w) ∷ m) h = ground (arith, get-retain-none p k m)

  -- What one entry becomes under `retain`.
  abbrev pub kept : (String → V → Bool) → String → Option V → Option V
  kept p k none = none
  kept p k (some v) = if p k v then some v else none

  pub get-retain :
      (p : String → V → Bool) (k : String) (m : GoMap V)
      → Unique m
      → get k (retain p m) ≡ kept p k (get k m)
  unfolding get retain
  get-retain p k [] u = refl
  get-retain p k ((i, w) ∷ m) u =
      ground (arith, eq_iff i k, get-retain p k m u.1, get-retain-none p i m u.0)

  pub get-update {κ} :
      {W : Type κ} (f : String → V → W) (k : String) (m : GoMap V)
      → get k (update f m) ≡ Option.map (f k) (get k m)
  unfolding get update
  get-update f k [] = refl
  get-update f k ((i, w) ∷ m) = elim (Bool-cases (i == k)) [
    | inl e ↦ rw (e, if◌then◌else◌, (eq_iff i k).0 e)
    | inr e ↦ rw (e, if◌then◌else◌) (get-update f k m)
  ]

  pub has_of_get : (k : String) (v : V) (m : GoMap V) → get k m ≡ some v → has k m ≡ true
  unfolding has
  has_of_get k v m h = rw h

  pub has_of_none : (k : String) (m : GoMap V) → get k m ≡ none → has k m ≡ false
  unfolding has
  has_of_none k m h = rw h

  pub has_of_some : (k : String) (m : GoMap V) (v : V) → get k m ≡ some v → has k m ≡ true
  unfolding has
  has_of_some k m v h = rw h refl

  pub none_of_has : (k : String) (m : GoMap V) → has k m ≡ false → get k m ≡ none
  unfolding has
  none_of_has k m h = ground arith

  -- An entry that passes the test stays.
  pub get-retain-some :
      (p : String → V → Bool) (k : String) (v : V) (m : GoMap V)
      → Unique m
      → get k m ≡ some v
      → p k v ≡ true
      → get k (retain p m) ≡ some v
  get-retain-some p k v m u h t = get-retain p k m u ∙ rw (h, t)

pub ruleset map_laws = (get-put, get-delete, get-update)
