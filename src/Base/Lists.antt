-- ===== src/Base/Lists.antt =====
-- Lists measured by native numbers, and predicates on their elements.
pub mod Ends
use Prim.Native.Nat.{ℕ, zero, suc, ◌+◌, ◌-◌, ◌≤◌, ◌<◌, min}
use mathlib.Core.Path.{◌≡◌, refl, ap}
use mathlib.Core.Logic.{◌⊎◌, inl, inr}
use mathlib.Core.Bool.{Bool, true, false}
use mathlib.Core.List.{List, [], ◌∷◌, ◌++◌, map}
use mathlib.Core.Option.{Option, none, some}
use native.Mathlib.Omega.{arith}
use ferventio_backend.Base.Tests.{Bool-cases, if◌then◌else◌}

module _ {ℓ} {A : Type ℓ} where
  abbrev pub length : List A → ℕ
  length [] = 0
  length (x ∷ xs) = suc (length xs)

  abbrev pub take : ℕ → List A → List A
  take zero xs = []
  take (suc n) [] = []
  take (suc n) (x ∷ xs) = x ∷ take n xs

  abbrev pub drop : ℕ → List A → List A
  drop zero xs = xs
  drop (suc n) [] = []
  drop (suc n) (x ∷ xs) = drop n xs

  -- The library's `filter` takes a decision; this one takes a test.
  abbrev pub select : (A → Bool) → List A → List A
  select p [] = []
  select p (x ∷ xs) = let rest = select p xs in if p x then x ∷ rest else rest

  abbrev pub All {κ} : (A → Type κ) → List A → Type κ
  All P [] = Unit
  All P (x ∷ xs) = P x × All P xs

  pub length-append : (xs ys : List A) → length (xs ++ ys) ≡ length xs + length ys
  length-append [] ys = omega arith
  length-append (x ∷ xs) ys = omega (arith, length-append xs ys)

  pub length-take : (n : ℕ) (xs : List A) → length (take n xs) ≡ min n (length xs)
  length-take zero xs = omega arith
  length-take (suc n) [] = omega arith
  length-take (suc n) (x ∷ xs) = omega (arith, length-take n xs)

  pub length-drop : (n : ℕ) (xs : List A) → length (drop n xs) ≡ length xs - n
  length-drop zero xs = omega arith
  length-drop (suc n) [] = omega arith
  length-drop (suc n) (x ∷ xs) = omega (arith, length-drop n xs)

  pub take-append-drop : (n : ℕ) (xs : List A) → take n xs ++ drop n xs ≡ xs
  take-append-drop zero xs = refl
  take-append-drop (suc n) [] = refl
  take-append-drop (suc n) (x ∷ xs) = rw (take-append-drop n xs)

  -- A cut is full, or it cuts nothing off.
  pub take_full : (n : ℕ) (xs : List A) → (length (take n xs) ≡ n) ⊎ (drop n xs ≡ [])
  take_full zero xs = inl refl
  take_full (suc n) [] = inr refl
  take_full (suc n) (x ∷ xs) = elim (take_full n xs) [ inl e ↦ inl (ap suc e) | inr e ↦ inr e ]

  pub All-select_self : (p : A → Bool) (xs : List A) → All (λ x. p x ≡ true) (select p xs)
  All-select_self p [] = tt
  All-select_self p (x ∷ xs) = elim (Bool-cases (p x)) [
    | inl e ↦ rw (e, if◌then◌else◌) (e, All-select_self p xs)
    | inr e ↦ rw (e, if◌then◌else◌) (All-select_self p xs)
  ]

module _ {ℓ κ} {A : Type ℓ} (P : A → Type κ) (p : A → Bool) where
  -- What the test implies of each element holds of the selected ones.
  pub All-select_given : (xs : List A) → All (λ x. p x ≡ true → P x) xs → All P (select p xs)
  All-select_given [] h = tt
  All-select_given (x ∷ xs) h = elim (Bool-cases (p x)) [
    | inl e ↦ rw (e, if◌then◌else◌) (h.0 e, All-select_given xs h.1)
    | inr e ↦ rw (e, if◌then◌else◌) (All-select_given xs h.1)
  ]

module _ {ℓ κ} {A : Type ℓ} (P : A → Type κ) where
  pub All-take : (n : ℕ) (xs : List A) → All P xs → All P (take n xs)
  All-take zero xs h = tt
  All-take (suc n) [] h = tt
  All-take (suc n) (x ∷ xs) h = (h.0, All-take n xs h.1)

  pub All-drop : (n : ℕ) (xs : List A) → All P xs → All P (drop n xs)
  All-drop zero xs h = h
  All-drop (suc n) [] h = tt
  All-drop (suc n) (x ∷ xs) h = All-drop n xs h.1

  pub All-append : (xs ys : List A) → All P xs → All P ys → All P (xs ++ ys)
  All-append [] ys h k = k
  All-append (x ∷ xs) ys h k = (h.0, All-append xs ys h.1 k)
