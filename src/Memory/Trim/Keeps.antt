-- ===== src/Memory/Trim/Keeps.antt =====
-- What trimming keeps: every predicate that deletion keeps, and every entry that is not finished.
use ferventio_backend.Base.{
  ℕ, ◌≡◌, String, Bool, true, false, inl, inr, some, List, [], ◌∷◌, arith, leb, if◌then◌else◌,
  Bool-cases, select, All, ◌==◌, eq_iff,
}
use ferventio_backend.Base.GoMap.{GoMap, get, delete, values, size, Each, Unique, get-delete}
use ferventio_backend.Base.GoMap.Entries.{Each_self, Each-map2, All-values}
use ferventio_backend.Base.Sort.{All-sort}
use ferventio_backend.Memory.Trim.{delete_until, trim}

module _ {ℓ} {V : Type ℓ} (key : V → String) where
  module _ {κ} (P : GoMap V → Type κ)
      (step : (k : String) (m : GoMap V) → P m → P (delete k m)) where
    pub delete_until_induction :
        (limit : ℕ) (rs : List V) (m : GoMap V) → P m → P (delete_until key limit rs m)
    unfolding delete_until
    delete_until_induction limit [] m h = h
    delete_until_induction limit (r ∷ rs) m h = elim (Bool-cases (leb (size m) limit)) [
      | inl e ↦ rw (e, if◌then◌else◌) h
      | inr e ↦ rw (e, if◌then◌else◌) (delete_until_induction limit rs _ (step (key r) m h))
    ]

    -- What every deletion keeps, trimming keeps.
    pub trim_induction :
        (finished : V → Bool) (older : V → V → Bool) (limit : ℕ) (m : GoMap V)
        → P m
        → P (trim key finished older limit m)
    unfolding trim
    trim_induction finished older limit m h = elim (Bool-cases (leb (size m) limit)) [
      | inl e ↦ rw (e, if◌then◌else◌) h
      | inr e ↦ rw (e, if◌then◌else◌) (delete_until_induction limit _ m h)
    ]

  -- Every entry is stored under its own key.
  abbrev pub Keyed : GoMap V → Type 0
  Keyed = Each (λ k r. k ≡ key r)

  get-delete_until :
      (k : String) (r : V) (limit : ℕ) (rs : List V) (m : GoMap V)
      → All (λ q. (key q == k) ≡ false) rs
      → get k m ≡ some r
      → get k (delete_until key limit rs m) ≡ some r
  unfolding delete_until
  get-delete_until k r limit [] m a h = h
  get-delete_until k r limit (q ∷ rs) m a h = elim (Bool-cases (leb (size m) limit)) [
    | inl e ↦ rw (e, if◌then◌else◌) h
    | inr e ↦
        rw (e, if◌then◌else◌)
          (get-delete_until k r limit rs (delete (key q) m) a.1
            (ground (arith, get-delete (key q) k m, a.0)))
  ]

  other_key :
      (finished : V → Bool) (k : String) (r q : V) (m : GoMap V)
      → get k m ≡ some r
      → finished r ≡ false
      → get (key q) m ≡ some q
      → finished q ≡ true
      → (key q == k) ≡ false
  other_key finished k r q m h busy hq done = ground (arith, eq_iff (key q) k, h, hq, busy, done)

  All-select :
      (finished : V → Bool) (k : String) (r : V) (m : GoMap V) (xs : List V)
      → get k m ≡ some r
      → finished r ≡ false
      → All (λ q. get (key q) m ≡ some q) xs
      → All (λ q. (key q == k) ≡ false) (select finished xs)
  All-select finished k r m [] h busy a = tt
  All-select finished k r m (x ∷ xs) h busy a = elim (Bool-cases (finished x)) [
    | inl e ↦
        rw (e, if◌then◌else◌)
          (other_key finished k r x m h busy a.0 e, All-select finished k r m xs h busy a.1)
    | inr e ↦ rw (e, if◌then◌else◌) (All-select finished k r m xs h busy a.1)
  ]

  stored : (m : GoMap V) → Unique m → Keyed m → Each (λ _ q. get (key q) m ≡ some q) m
  stored m u keyed =
      Each-map2 (λ k q. k ≡ key q) (λ k q. get k m ≡ some q) _ m (λ k q e h. rw (← e) h) keyed
        (Each_self m u)

  -- An entry that is not finished stays.
  pub get-trim :
      (finished : V → Bool) (older : V → V → Bool) (limit : ℕ) (m : GoMap V) (k : String) (r : V)
      → Unique m
      → Keyed m
      → get k m ≡ some r
      → finished r ≡ false
      → get k (trim key finished older limit m) ≡ some r
  unfolding trim
  get-trim finished older limit m k r u keyed h busy = elim (Bool-cases (leb (size m) limit)) [
    | inl e ↦ rw (e, if◌then◌else◌) h
    | inr e ↦
        rw (e, if◌then◌else◌)
          (get-delete_until k r limit _ m
            (All-sort older _ _ (
              All-select finished k r m (values m) h busy
                (All-values (λ q. get (key q) m ≡ some q) m (stored m u keyed))))
            h)
  ]
