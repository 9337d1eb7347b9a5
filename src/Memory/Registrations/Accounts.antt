-- ===== src/Memory/Registrations/Accounts.antt =====
-- internal/storage/memory/store.go: the registrations that go with an account.
use ferventio_backend.Base.{
  String, Bool, true, false, not, ◌≡◌, ◌≢◌, ◌⊎◌, ◌==◌, inl, inr, eq_iff, ne_of_eq_false,
  eq_false_of_ne, Bool-cases, refl, sym, ◌∙◌, none, some, List, [], ◌∷◌, if◌then◌else◌, arith,
  is_some,
}
use ferventio_backend.Base.GoMap.{GoMap, get, retain, keys, Unique, get-retain}
use ferventio_backend.Base.Sort.{IsLess, insert, sort, Sorted, sort-Sorted}
use ferventio_backend.Base.Text.{str_lt, str_lt_asym, str_lt_ge_trans, trim_space}
use ferventio_backend.Domain.Registration.{Registration}
use ferventio_backend.Memory.Registrations.{
  RegistrationStore, is_account_registration, trimmed_ids, contains, delete_for_account,
}

contains-insert :
    (less : String → String → Bool) (k x : String) (ys : List String)
    → contains k (insert less x ys) ≡ contains k (x ∷ ys)
unfolding insert
contains-insert less k x [] = refl
contains-insert less k x (y ∷ ys) = ground (arith, contains-insert less k x ys)

contains-sort :
    (less : String → String → Bool) (k : String) (xs : List String)
    → contains k (sort less xs) ≡ contains k xs
unfolding sort
contains-sort less k [] = refl
contains-sort less k (x ∷ xs) =
    contains-insert less k x (sort less xs) ∙ ground (arith, contains-sort less k xs)

pub contains-keys {ℓ} :
    {V : Type ℓ} (k : String) (m : GoMap V) → contains k (keys m) ≡ is_some (get k m)
unfolding keys get
contains-keys k [] = refl
contains-keys k ((j, r) ∷ m) = ground (arith, contains-keys k m)

-- Whether DeleteForAccount is to remove this entry.
abbrev goes : String → List String → String → Registration → Bool
goes user_id ids = is_account_registration (trim_space user_id) (trimmed_ids ids)

IsLess-str_lt : IsLess str_lt
IsLess-str_lt = record { asym = str_lt_asym; ge_trans = str_lt_ge_trans }

stays_unless :
    (b : Bool) (r : Registration) → (if not b then some r else none) ≡ (if b then none else some r)
stays_unless true r = refl
stays_unless false r = refl

is_some_kept : (b : Bool) (r : Registration) → is_some (if b then some r else none) ≡ b
is_some_kept true r = refl
is_some_kept false r = refl

removed_lem :
    (user_id : String) (ids : List String) (s : RegistrationStore) (id : String) (r : Registration)
    → Unique s.registrations
    → get id s.registrations ≡ some r
    → let (s', removed) = delete_for_account user_id ids s in
      (get id s'.registrations ≡ (if goes user_id ids id r then none else some r))
      × (contains id removed ≡ goes user_id ids id r)
      × Sorted str_lt removed
unfolding delete_for_account
removed_lem user_id ids s id r u found =
    let p = goes user_id ids in
    let removed = retain p s.registrations in
    (
      get-retain (λ k v. not (p k v)) id s.registrations u ∙ rw found (stays_unless (p id r) r),
      contains-sort str_lt id (keys removed)
          ∙ contains-keys id removed
          ∙ rw (get-retain p id s.registrations u, found) (is_some_kept (p id r) r),
      sort-Sorted str_lt IsLess-str_lt (keys removed),
    )

-- An installation is listed, in a list of texts that may have spaces around and may be blank.
abbrev pub IsListed : String → List String → Type 0
IsListed id [] = ⊥
IsListed id (x ∷ xs) = (trim_space x ≡ id) ⊎ IsListed id xs

-- An entry of the account: of the account's user, if one is given, or of a listed installation.
abbrev pub IsOfAccount : String → List String → String → Registration → Type 0
IsOfAccount user_id ids id r =
    ((trim_space user_id ≢ "") × (r.user_id ≡ trim_space user_id)) ⊎ ((id ≢ "") × IsListed id ids)

IsListed-given :
    (id : String) (ids : List String)
    → contains id (trimmed_ids ids) ≡ true
    → (id ≢ "") × IsListed id ids
IsListed-given id [] h = cc
IsListed-given id (x ∷ xs) h = elim (Bool-cases (trim_space x == "")) [
  | inl e ↦ let rest = IsListed-given id xs (rw e at h) in (rest.0, inr rest.1)
  | inr e ↦ elim (Bool-cases (trim_space x == id)) [
    | inl q ↦ (
      λ blank. ne_of_eq_false _ _ e ((eq_iff (trim_space x) id).0 q ∙ blank),
      inl ((eq_iff (trim_space x) id).0 q),
    )
    | inr q ↦ let rest = IsListed-given id xs (rw (e, q) at h) in (rest.0, inr rest.1)
  ]
]

given_listed :
    (id : String) (ids : List String)
    → id ≢ ""
    → IsListed id ids
    → contains id (trimmed_ids ids) ≡ true
given_listed id [] named l = absurd l
given_listed id (x ∷ xs) named (inl e) =
    let filled = eq_false_of_ne (trim_space x) "" (λ blank. named (sym e ∙ blank)) in
    rw (filled, (eq_iff (trim_space x) id).1 e)
given_listed id (x ∷ xs) named (inr l) = elim (Bool-cases (trim_space x == "")) [
  | inl e ↦ rw e (given_listed id xs named l)
  | inr e ↦ rw e (ground (arith, given_listed id xs named l))
]

IsOfAccount-given :
    (user_id : String) (ids : List String) (id : String) (r : Registration)
    → goes user_id ids id r ≡ true
    → IsOfAccount user_id ids id r
unfolding is_account_registration
IsOfAccount-given user_id ids id r h = elim (Bool-cases (contains id (trimmed_ids ids))) [
  | inl l ↦ inr (IsListed-given id ids l)
  | inr l ↦ inl (
    ne_of_eq_false _ _ (ground (arith, h, l)),
    (eq_iff r.user_id (trim_space user_id)).0 (ground (arith, h, l)),
  )
]

given_of_account :
    (user_id : String) (ids : List String) (id : String) (r : Registration)
    → IsOfAccount user_id ids id r
    → goes user_id ids id r ≡ true
unfolding is_account_registration
given_of_account user_id ids id r (inl (named, e)) =
    ground (arith, eq_false_of_ne _ _ named, (eq_iff r.user_id (trim_space user_id)).1 e)
given_of_account user_id ids id r (inr (named, l)) = ground (arith, given_listed id ids named l)

-- In a store with distinct keys, DeleteForAccount removes an entry exactly when it is the account's:
-- its user is the given one, trimmed and not blank, or its installation is listed, trimmed and
-- not blank. It leaves every other entry as it is, and returns the sorted list of the installations
-- that it removed.
pub delete_for_account_lem :
    (user_id : String) (ids : List String) (s : RegistrationStore) (id : String) (r : Registration)
    → Unique s.registrations
    → get id s.registrations ≡ some r
    → let (s', removed) = delete_for_account user_id ids s in
      ((IsOfAccount user_id ids id r
          × (get id s'.registrations ≡ none)
          × (contains id removed ≡ true))
        ⊎ ((IsOfAccount user_id ids id r → ⊥)
            × (get id s'.registrations ≡ some r)
            × (contains id removed ≡ false)))
      × Sorted str_lt removed
delete_for_account_lem user_id ids s id r u found =
    let l = removed_lem user_id ids s id r u found in
    (
      elim (Bool-cases (goes user_id ids id r)) [
        | inl e ↦ inl (IsOfAccount-given user_id ids id r e, rw e at l.0, l.1 ∙ e)
        | inr e ↦ inr (λ o. cc (e, given_of_account user_id ids id r o), rw e at l.0, l.1 ∙ e)
      ],
      l.2,
    )
