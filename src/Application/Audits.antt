-- ===== src/Application/Audits.antt =====
-- internal/application/server.go: what the server passes to `auditRecord`. A field that a call leaves
-- out is empty.
use ferventio_backend.Base.{String}

pub record AuditEntry : Type 0 where
  pub action : String
  pub status : String
  pub installation_id : String
  pub user_id : String
  pub channel_id : String
  pub event_id : String
  pub detail : String

abbrev pub audit_entry : String → String → AuditEntry
audit_entry action status = record {
  action = action;
  status = status;
  installation_id = "";
  user_id = "";
  channel_id = "";
  event_id = "";
  detail = "";
}
