-- ===== src/Base/Sort.antt =====
-- `sort.Slice`: the comparator is the argument. Ties keep the order of the slice, which is any order
-- where the slice was filled by ranging over a map.
use mathlib.Core.List.Perm
use mathlib.Core.List.{Perm}
use Prim.Native.Nat.{ℕ, zero, suc}
use mathlib.Core.Path.{◌≡◌}
use mathlib.Core.Logic.{inl, inr}
use mathlib.Core.Bool.{Bool, true, false}
use mathlib.Core.List.{List, [], ◌∷◌}
use ferventio_backend.Base.Tests.{if◌then◌else◌, Bool-cases}
use ferventio_backend.Base.Lists.{All, All-take, take}

-- A strict order up to ties, as a comparator must be.
pub record IsLess {ℓ} {A : Type ℓ} (less : A → A → Bool) : Type ℓ where
  pub asym : (a b : A) → less a b ≡ true → less b a ≡ false
  pub ge_trans : (a b c : A) → less b a ≡ false → less c b ≡ false → less c a ≡ false

module _ {ℓ} {A : Type ℓ} (less : A → A → Bool) where
  unfoldable pub insert : A → List A → List A
  insert x [] = x ∷ []
  insert x (y ∷ ys) = let rest = insert x ys in if less y x then y ∷ rest else x ∷ y ∷ ys

  unfoldable pub sort : List A → List A
  unfolding insert
  sort [] = []
  sort (x ∷ xs) = insert x (sort xs)

  -- No later element is below an earlier one.
  abbrev pub Sorted : List A → Type ℓ
  Sorted [] = Unit
  Sorted (x ∷ xs) = All (λ y. less y x ≡ false) xs × Sorted xs

  pub Sorted-take : (n : ℕ) (xs : List A) → Sorted xs → Sorted (take n xs)
  Sorted-take zero xs h = tt
  Sorted-take (suc n) [] h = tt
  Sorted-take (suc n) (x ∷ xs) h = (All-take _ n xs h.0, Sorted-take n xs h.1)

  pub insert-perm : (x : A) (ys : List A) → Perm (insert x ys) (x ∷ ys)
  unfolding insert
  insert-perm x [] = Perm.refl _
  insert-perm x (y ∷ ys) = elim (Bool-cases (less y x)) [
    | inl e ↦ rw (e, if◌then◌else◌) (Perm.trans (Perm.cons y (insert-perm x ys)) (Perm.swap x y ys))
    | inr e ↦ rw (e, if◌then◌else◌) (Perm.refl _)
  ]

  pub sort-perm : (xs : List A) → Perm (sort xs) xs
  unfolding sort
  sort-perm [] = Perm.refl _
  sort-perm (x ∷ xs) = Perm.trans (insert-perm x (sort xs)) (Perm.cons x (sort-perm xs))

  module _ {κ} (P : A → Type κ) where
    All-insert : (x : A) (ys : List A) → P x → All P ys → All P (insert x ys)
    unfolding insert
    All-insert x [] h k = (h, tt)
    All-insert x (y ∷ ys) h k = elim (Bool-cases (less y x)) [
      | inl e ↦ rw (e, if◌then◌else◌) (k.0, All-insert x ys h k.1)
      | inr e ↦ rw (e, if◌then◌else◌) (h, k)
    ]

    pub All-sort : (xs : List A) → All P xs → All P (sort xs)
    unfolding sort
    All-sort [] h = tt
    All-sort (x ∷ xs) h = All-insert x (sort xs) h.0 (All-sort xs h.1)

    All-of_insert : (x : A) (ys : List A) → All P (insert x ys) → P x × All P ys
    unfolding insert
    All-of_insert x [] h = h
    All-of_insert x (y ∷ ys) h = elim (Bool-cases (less y x)) [
      | inl e ↦
          let h' : P y × All P (insert x ys) = rw (e, if◌then◌else◌) at h in
          let r = All-of_insert x ys h'.1 in (r.0, (h'.0, r.1))
      | inr e ↦ rw (e, if◌then◌else◌) at h
    ]

    pub All-of_sort : (xs : List A) → All P (sort xs) → All P xs
    unfolding sort
    All-of_sort [] h = tt
    All-of_sort (x ∷ xs) h = let r = All-of_insert x (sort xs) h in (r.0, All-of_sort xs r.1)

module _ {ℓ} {A : Type ℓ} (less : A → A → Bool) (o : IsLess less) where
  All-above :
      (x y : A) (zs : List A)
      → less y x ≡ false
      → All (λ z. less z y ≡ false) zs
      → All (λ z. less z x ≡ false) zs
  All-above x y [] h k = tt
  All-above x y (z ∷ zs) h k = (o.ge_trans x y z h k.0, All-above x y zs h k.1)

  insert-Sorted : (x : A) (ys : List A) → Sorted less ys → Sorted less (insert less x ys)
  unfolding insert
  insert-Sorted x [] s = (tt, tt)
  insert-Sorted x (y ∷ ys) s = elim (Bool-cases (less y x)) [
    | inl e ↦
        rw (e, if◌then◌else◌) (All-insert less _ x ys (o.asym y x e) s.0, insert-Sorted x ys s.1)
    | inr e ↦ rw (e, if◌then◌else◌) ((e, All-above x y ys e s.0), s)
  ]

  -- Sorting by an order leaves no element below an earlier one.
  pub sort-Sorted : (xs : List A) → Sorted less (sort less xs)
  unfolding sort
  sort-Sorted [] = tt
  sort-Sorted (x ∷ xs) = insert-Sorted x (sort less xs) (sort-Sorted xs)
