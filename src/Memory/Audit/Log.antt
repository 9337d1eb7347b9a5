-- ===== src/Memory/Audit/Log.antt =====
-- internal/storage/memory/audit_store.go: what is left of a sequence of appends, and what is shown.
use mathlib.Core.List.{Perm, append-nil, append_assoc}
use mathlib.Core.Option
use ferventio_backend.Base.{
  ℕ, ◌-◌, ◌≤◌, ◌≡◌, ◌∙◌, sym, String, inl, inr, Option, none, some, List, [], ◌∷◌, ◌++◌, arith, leb,
  ◌==◌, if◌then◌else◌, Bool-cases, Option-cases, length, leb→le, length-drop,
}
use ferventio_backend.Base.Lists.Ends.{last_of, last_of_small, last_of-append}
use ferventio_backend.Base.Sort.{IsLess, Sorted, sort-Sorted, sort-perm}
use ferventio_backend.Domain.Clock.{Time}
use ferventio_backend.Domain.Audit.{AuditRecord, max_audit_records}
use ferventio_backend.Memory.Audit.{
  AuditStore, trim_records, append_filled, append, filled_in, list_limit, later, list_audit,
}

trim_records_lem : (s : AuditStore) → (trim_records s).records ≡ last_of max_audit_records s.records
unfolding trim_records
trim_records_lem s = elim (Bool-cases (leb (length s.records) max_audit_records)) [
  | inl e ↦ rw (e, if◌then◌else◌) (sym (last_of_small max_audit_records s.records (leb→le _ _ e)))
  | inr e ↦ rw (e, if◌then◌else◌)
]

-- The arguments of one Append.
pub record AppendCall : Type 0 where
  pub token : Option String
  pub now : Time
  pub entry : AuditRecord

-- The record that a call stores, none where it fails.
unfoldable pub stored : AppendCall → Option AuditRecord
stored c =
    if c.entry.id == ""
    then elim c.token [ none ↦ none | some id ↦ some (filled_in id c.now c.entry) ]
    else some (filled_in c.entry.id c.now c.entry)

abbrev pub all_stored : List AppendCall → List AuditRecord
all_stored [] = []
all_stored (c ∷ cs) = elim (stored c) [ none ↦ all_stored cs | some r ↦ r ∷ all_stored cs ]

-- The store after a call; a failed one leaves it.
abbrev pub appended : AppendCall → AuditStore → AuditStore
appended c s = elim (append c.token c.now c.entry s) [ none ↦ s | some s' ↦ s' ]

abbrev pub append_all : List AppendCall → AuditStore → AuditStore
append_all [] s = s
append_all (c ∷ cs) s = append_all cs (appended c s)

append_filled_lem :
    (r : AuditRecord) (s : AuditStore)
    → (append_filled r s).records ≡ last_of max_audit_records (s.records ++ r ∷ [])
unfolding append_filled
append_filled_lem r s = trim_records_lem (record { records = s.records ++ r ∷ [] })

append_filled_bounded :
    (r : AuditRecord) (s : AuditStore) → length (append_filled r s).records ≤ max_audit_records
append_filled_bounded r s =
    let all = s.records ++ r ∷ [] in
    rw (append_filled_lem r s) (omega (arith, length-drop (length all - max_audit_records) all))

append_lem :
    (c : AppendCall) (s : AuditStore)
    → append c.token c.now c.entry s ≡ Option.map (λ r. append_filled r s) (stored c)
unfolding append stored
append_lem c s = elim (Bool-cases (c.entry.id == "")) [
  | inl e ↦ elim (Option-cases c.token) [
    | inl h ↦ rw (e, if◌then◌else◌, h)
    | inr (id, h) ↦ rw (e, if◌then◌else◌, h)
  ]
  | inr e ↦ rw (e, if◌then◌else◌)
]

-- On a store within its bound, after any appends, of which some may fail, the log holds the last
-- 20000 of what it held and of the stored records, in this order: trimming at each append loses no
-- more than trimming once.
pub append_all_lem :
    (cs : List AppendCall) (s : AuditStore)
    → length s.records ≤ max_audit_records
    → (append_all cs s).records ≡ last_of max_audit_records (s.records ++ all_stored cs)
append_all_lem [] s h =
    sym (last_of_small max_audit_records s.records h) ∙ rw (append-nil s.records)
append_all_lem (c ∷ cs) s h = elim (Option-cases (stored c)) [
  | inl e ↦ rw (append_all, all_stored, appended, append_lem c s, e) (append_all_lem cs s h)
  | inr (r, e) ↦
      rw (append_all, all_stored, appended, append_lem c s, e)
        (append_all_lem cs (append_filled r s) (append_filled_bounded r s)
          ∙ rw (append_filled_lem r s) (
              last_of-append max_audit_records (s.records ++ r ∷ []) (all_stored cs)
              ∙ rw (append_assoc s.records (r ∷ []) (all_stored cs))))
]

IsLess-later : IsLess later
IsLess-later = record { asym = λ a b h. ground arith; ge_trans = λ a b c h k. ground arith }

-- List shows the last appended records, as many as the limit allows, sorted with the latest
-- timestamp first.
list_audit_lem :
    (limit : ℕ) (s : AuditStore)
    → Sorted later (list_audit limit s)
      × Perm (list_audit limit s) (last_of (list_limit limit) s.records)
unfolding list_audit
list_audit_lem limit s = (
  sort-Sorted later IsLess-later (last_of (list_limit limit) s.records),
  sort-perm later (last_of (list_limit limit) s.records),
)
