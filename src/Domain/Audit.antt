-- ===== src/Domain/Audit.antt =====
-- internal/domain/audit.go. The detail is its bytes, since the store cuts it at a byte.
use ferventio_backend.Base.{ℕ, String, List}
use ferventio_backend.Domain.Clock.{Time}

abbrev pub max_audit_records : ℕ
max_audit_records = 20_000

pub record AuditRecord : Type 0 where
  pub id : String
  pub timestamp : Time
  pub action : String
  pub status : String
  pub installation_id : String
  pub user_id : String
  pub channel_id : String
  pub event_id : String
  pub detail : List ℕ
