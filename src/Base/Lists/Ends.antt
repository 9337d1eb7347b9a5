-- ===== src/Base/Lists/Ends.antt =====
-- The end of a list: xs[k:] and the last items.
use Prim.Native.Nat.{ℕ, zero, suc, ◌+◌, ◌-◌, ◌≤◌}
use mathlib.Core.Path.{◌≡◌, refl, ap, sym, ◌∙◌}
use mathlib.Core.List.{List, [], ◌∷◌, ◌++◌}
use native.Mathlib.Omega.{arith}
use ferventio_backend.Base.Lists.{length, drop, length-append, length-drop}

next : (k j : ℕ) → suc k + j ≡ suc (k + j)
next k j = omega arith

nothing_below : (k : ℕ) → suc k ≤ 0 → ⊥
nothing_below k h = omega arith

module _ {ℓ} {A : Type ℓ} where
  drop-same : {j k : ℕ} (xs : List A) → j ≡ k → drop j xs ≡ drop k xs
  drop-same xs e = ap (λ i. drop i xs) e

  drop-nil : (k : ℕ) → drop {A = A} k [] ≡ []
  drop-nil zero = refl
  drop-nil (suc k) = refl

  pub drop-drop : (j k : ℕ) (xs : List A) → drop j (drop k xs) ≡ drop (k + j) xs
  drop-drop j zero xs = drop-same xs (omega arith)
  drop-drop j (suc k) [] = drop-nil j ∙ sym (drop-nil (suc k + j))
  drop-drop j (suc k) (x ∷ xs) = drop-drop j k xs ∙ sym (drop-same (x ∷ xs) (next k j))

  pub drop-append : (k : ℕ) (xs ys : List A) → k ≤ length xs → drop k (xs ++ ys) ≡ drop k xs ++ ys
  drop-append zero xs ys h = refl
  drop-append (suc k) [] ys h = absurd (nothing_below k h)
  drop-append (suc k) (x ∷ xs) ys h = drop-append k xs ys (omega arith)

  -- The last n items: xs[max(0, len(xs)-n):].
  abbrev pub last_of : ℕ → List A → List A
  last_of n xs = drop (length xs - n) xs

  pub last_of_small : (n : ℕ) (xs : List A) → length xs ≤ n → last_of n xs ≡ xs
  last_of_small n xs h = ap (λ k. drop k xs) zero_left
    where
      zero_left : length xs - n ≡ zero
      zero_left = omega arith

  last_of-drop : (n k : ℕ) (xs : List A) → k ≤ length xs - n → last_of n (drop k xs) ≡ last_of n xs
  last_of-drop n k xs h =
      drop-drop (length (drop k xs) - n) k xs
      ∙ ap (λ j. drop j xs) (omega (arith, length-drop k xs))

  -- Cutting early loses nothing of the last n.
  pub last_of-append :
      (n : ℕ) (xs ys : List A) → last_of n (last_of n xs ++ ys) ≡ last_of n (xs ++ ys)
  last_of-append n xs ys =
      ap (last_of n) (sym (drop-append (length xs - n) xs ys (omega arith)))
      ∙ last_of-drop n (length xs - n) (xs ++ ys) (omega (arith, length-append xs ys))
