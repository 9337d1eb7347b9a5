-- ===== src/Memory/Trim/Room.antt =====
-- What trimming achieves: room, or a map with nothing finished in it.
use ferventio_backend.Base.{
  ℕ, ◌≤◌, ◌≡◌, ◌⊎◌, String, Bool, true, false, inl, inr, none, some, List, [], ◌∷◌, arith, leb,
  leb→le, if◌then◌else◌, Bool-cases, select, All, sym, subst,
}
use ferventio_backend.Base.GoMap.{
  GoMap, get, delete, values, size, Each, Unique, get-delete, get-delete_self,
}
use ferventio_backend.Base.GoMap.Entries.{
  Each_self, Each-map2, Each-delete, Each-get, Each_of_values,
}
use ferventio_backend.Base.GoMap.Uniqueness.{Unique-delete}
use ferventio_backend.Base.Sort.{sort, All-of_sort}
use ferventio_backend.Memory.Trim.{delete_until, trim}
use ferventio_backend.Memory.Trim.Keeps.{Keyed, delete_until_induction}

module _ {ℓ} {V : Type ℓ} (key : V → String) where
  -- A key that is gone stays away.
  gone :
      (k : String) (limit : ℕ) (rs : List V) (m : GoMap V)
      → get k m ≡ none
      → get k (delete_until key limit rs m) ≡ none
  gone k limit rs m =
      delete_until_induction key (λ m'. get k m' ≡ none)
        (λ j m' h. ground (arith, get-delete j k m')) limit rs m

  delete_until_stop :
      (limit : ℕ) (r : V) (rs : List V) (m : GoMap V)
      → leb (size m) limit ≡ true
      → delete_until key limit (r ∷ rs) m ≡ m
  unfolding delete_until
  delete_until_stop limit r rs m e = rw (e, if◌then◌else◌)

  delete_until_step :
      (limit : ℕ) (r : V) (rs : List V) (m : GoMap V)
      → leb (size m) limit ≡ false
      → delete_until key limit (r ∷ rs) m ≡ delete_until key limit rs (delete (key r) m)
  unfolding delete_until
  delete_until_step limit r rs m e = rw (e, if◌then◌else◌)

  -- Either few enough entries are left, or every listed key is gone.
  abbrev RoomOr : ℕ → List V → GoMap V → Type ℓ
  RoomOr limit rs n = (size n ≤ limit) ⊎ All (λ q. get (key q) n ≡ none) rs

  delete_until_room :
      (limit : ℕ) (rs : List V) (m : GoMap V) → RoomOr limit rs (delete_until key limit rs m)
  delete_until_room limit [] m = inr tt
  delete_until_room limit (r ∷ rs) m = elim (Bool-cases (leb (size m) limit)) [
    | inl e ↦
        subst (RoomOr limit (r ∷ rs)) (sym (delete_until_stop limit r rs m e))
          (inl (leb→le (size m) limit e))
    | inr e ↦
        subst (RoomOr limit (r ∷ rs)) (sym (delete_until_step limit r rs m e))
          (elim (delete_until_room limit rs (delete (key r) m)) [
            | inl few ↦ inl few
            | inr all ↦
                inr (gone (key r) limit rs (delete (key r) m) (get-delete_self (key r) m), all)
          ])
  ]

  All-of_select :
      (P : V → Type ℓ) (p : V → Bool) (xs : List V)
      → All P (select p xs)
      → All (λ q. p q ≡ true → P q) xs
  All-of_select P p [] h = tt
  All-of_select P p (x ∷ xs) h = elim (Bool-cases (p x)) [
    | inl e ↦
        let h' : P x × All P (select p xs) = rw (e, if◌then◌else◌) at h in
        (λ _. h'.0, All-of_select P p xs h'.1)
    | inr e ↦
        let h' : All P (select p xs) = rw (e, if◌then◌else◌) at h in
        (λ t. cc, All-of_select P p xs h')
  ]

  nothing_finished :
      (finished : V → Bool) (m n : GoMap V)
      → Unique n
      → Keyed key n
      → ((k : String) (v : V) → get k n ≡ some v → get k m ≡ some v)
      → Each (λ _ q. finished q ≡ true → get (key q) n ≡ none) m
      → Each (λ _ q. finished q ≡ false) n
  nothing_finished finished m n u keyed below h =
      Each-map2 (λ k q. k ≡ key q) (λ k q. get k n ≡ some q) _ n
        (λ k q e s. elim (Bool-cases (finished q)) [
          | inl done ↦ cc (
            e,
            s,
            Each-get (λ _ q. finished q ≡ true → get (key q) n ≡ none) k q m h (below k q s) done,
          )
          | inr busy ↦ busy
        ])
        keyed (Each_self n u)

  -- Afterwards there are at most `limit` entries, or none that is finished.
  pub trim_room :
      (finished : V → Bool) (older : V → V → Bool) (limit : ℕ) (m : GoMap V)
      → Unique m
      → Keyed key m
      → (size (trim key finished older limit m) ≤ limit)
        ⊎ Each (λ _ q. finished q ≡ false) (trim key finished older limit m)
  unfolding trim
  trim_room finished older limit m u keyed = elim (Bool-cases (leb (size m) limit)) [
    | inl e ↦ rw (e, if◌then◌else◌) (inl (leb→le _ _ e))
    | inr e ↦
        rw (e, if◌then◌else◌)
          (elim (delete_until_room limit rs m) [
            | inl few ↦ inl few
            | inr all ↦ inr (
                nothing_finished finished m n
                  (delete_until_induction key Unique (λ k m'. Unique-delete k m') limit rs m u)
                  (delete_until_induction key (Keyed key) (Each-delete _) limit rs m keyed)
                  (delete_until_induction key
                    (λ m'. (k : String) (v : V) → get k m' ≡ some v → get k m ≡ some v)
                    (λ j m' h k v s. h k v (ground (arith, get-delete j k m'))) limit rs m
                    (λ k v s. s))
                  (Each_of_values _ m
                    (All-of_select _ finished (values m) (All-of_sort older _ _ all))))
          ])
  ]
    where
      rs : List V
      rs = sort older (select finished (values m))

      n : GoMap V
      n = delete_until key limit rs m
