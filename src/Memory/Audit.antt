-- ===== src/Memory/Audit.antt =====
-- internal/storage/memory/audit_store.go: the audit log. `persistLocked` returns nil.
pub mod Log
use ferventio_backend.Base.{
  ℕ, ◌-◌, String, Bool, Option, none, some, List, [], ◌∷◌, ◌++◌, ltb, leb, eqb, ◌==◌, ◌||◌,
  if◌then◌else◌, take, drop, length,
}
use ferventio_backend.Base.Sort.{sort}
use ferventio_backend.Domain.Clock.{Time, is_zero, after}
use ferventio_backend.Domain.Audit.{AuditRecord, max_audit_records}

pub record AuditStore : Type 0 where
  pub records : List AuditRecord

abbrev pub new_memory_audit_store : AuditStore
new_memory_audit_store = record { records = [] }

unfoldable pub trim_records : AuditStore → AuditStore
trim_records s =
    if leb (length s.records) max_audit_records
    then s
    else record { records = drop (length s.records - max_audit_records) s.records }

-- The record as it is stored. The identifier is the caller's or the new token.
unfoldable pub filled_in : String → Time → AuditRecord → AuditRecord
filled_in id now r = record r {
  id = id;
  timestamp = if is_zero r.timestamp then now else r.timestamp;
  detail = if ltb 1_000 (length r.detail) then take 1_000 r.detail else r.detail;
}

unfoldable pub append_filled : AuditRecord → AuditStore → AuditStore
append_filled r s = trim_records (record { records = s.records ++ r ∷ [] })

-- Append. The token is what randomToken returns, none for its error; on it nothing is stored.
unfoldable pub append : Option String → Time → AuditRecord → AuditStore → Option AuditStore
append token now r s =
    if r.id == ""
    then elim token [ none ↦ none | some id ↦ some (append_filled (filled_in id now r) s) ]
    else some (append_filled (filled_in r.id now r) s)

unfoldable pub list_limit : ℕ → ℕ
list_limit limit = if eqb limit 0 || ltb 1_000 limit then 200 else limit

abbrev pub later : AuditRecord → AuditRecord → Bool
later a b = after a.timestamp b.timestamp

-- List and ListAudit. A negative limit and 0 are alike, so a limit is a natural number; `start`
-- stops at 0.
unfoldable pub list_audit : ℕ → AuditStore → List AuditRecord
list_audit limit s = sort later (drop (length s.records - list_limit limit) s.records)
