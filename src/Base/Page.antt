-- ===== src/Base/Page.antt =====
-- A sorted slice cut to a limit: `sort.Slice` and `result[:limit]`.
use mathlib.Core.List.{Perm}
use ferventio_backend.Base.Lists.{
  length, take, drop, All, All-drop, length-take, take-append-drop, take_full,
}
use ferventio_backend.Base.Sort.{IsLess, sort, Sorted, Sorted-take, sort-Sorted, sort-perm}
use Prim.Native.Nat.{ℕ, zero, suc, ◌≤◌}
use mathlib.Core.Path.{◌≡◌, sym, subst}
use mathlib.Core.Logic.{◌⊎◌}
use mathlib.Core.Bool.{Bool, false}
use mathlib.Core.List.{List, [], ◌∷◌, ◌++◌}
use native.Mathlib.Omega.{arith}

-- The page holds the first of the items, in order; what is left out comes after all of it, and
-- something is left out only of a full page.
pub record IsPage {ℓ} {A : Type ℓ} (less : A → A → Bool) (xs : List A) (n : ℕ) (page : List A)
    : Type ℓ where
  pub rest : List A
  pub complete : Perm (page ++ rest) xs
  pub sorted : Sorted less page
  pub bounded : length page ≤ n
  pub first : All (λ a. All (λ b. less b a ≡ false) rest) page
  pub full : (length page ≡ n) ⊎ (rest ≡ [])

module _ {ℓ} {A : Type ℓ} (less : A → A → Bool) (o : IsLess less) where
  before_rest :
      (n : ℕ) (xs : List A)
      → Sorted less xs
      → All (λ a. All (λ b. less b a ≡ false) (drop n xs)) (take n xs)
  before_rest zero xs s = tt
  before_rest (suc n) [] s = tt
  before_rest (suc n) (x ∷ xs) s = (All-drop _ n xs s.0, before_rest n xs s.1)

  pub page_lem : (n : ℕ) (xs : List A) → IsPage less xs n (take n (sort less xs))
  page_lem n xs = record {
    rest = drop n (sort less xs);
    complete =
        subst (λ ys. Perm ys xs) (sym (take-append-drop n (sort less xs))) (sort-perm less xs);
    sorted = Sorted-take less n _ (sort-Sorted less o xs);
    bounded = omega (arith, length-take n (sort less xs));
    first = before_rest n _ (sort-Sorted less o xs);
    full = take_full n (sort less xs);
  }
