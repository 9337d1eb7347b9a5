-- ===== src/Memory/Auth.antt =====
-- internal/storage/memory/auth_store.go: sign-in attempts, handoffs, credentials and sessions of the
-- devices. `persistLocked` returns nil, and the maps are never nil. Each operation takes the times
-- that `time.Now()` gives it, and the random bytes that it draws.
pub mod Vault
pub mod Pending
pub mod Handoffs
pub mod Credentials
pub mod Sessions
pub mod Revocation
pub mod Bounds
use ferventio_backend.Base.{String, Bool, not, ◌&&◌, ◌||◌, [], ◌==◌, if◌then◌else◌}
use ferventio_backend.Base.GoMap.{GoMap, retain, any, delete, has}
use ferventio_backend.Domain.Clock.{Time, after}
use ferventio_backend.Domain.Auth.{
  AuthCredentialRecord, AuthSessionRecord, PendingAuthRecord, AuthHandoffRecord,
}

pub record AuthStore : Type 0 where
  pub credentials : GoMap AuthCredentialRecord
  pub sessions : GoMap AuthSessionRecord
  pub pending : GoMap PendingAuthRecord
  pub handoffs : GoMap AuthHandoffRecord

abbrev pub open_auth_store : AuthStore
open_auth_store = record { credentials = []; sessions = []; pending = []; handoffs = [] }

unfoldable pub credential_in_use : String → AuthStore → Bool
credential_in_use id s =
    any (λ _ session. session.credential_id == id) s.sessions
    || any (λ _ handoff. handoff.credential_id == id) s.handoffs

-- The last loop of cleanupExpiredLocked, RevokeInstallation and RevokeAccount.
unfoldable pub delete_unused : AuthStore → AuthStore
delete_unused s = record s { credentials = retain (λ id _. credential_in_use id s) s.credentials }

unfoldable pub cleanup_expired : Time → AuthStore → AuthStore
cleanup_expired now s = delete_unused (record s {
  pending = retain (λ _ p. not (after now p.expires_at)) s.pending;
  handoffs = retain (λ _ h. not (after now h.expires_at)) s.handoffs;
  sessions = retain (λ _ x. not (after now x.expires_at)) s.sessions;
})

-- The credential of this name goes, unless a session or a handoff uses it.
unfoldable pub release_credential : String → AuthStore → AuthStore
release_credential id s =
    if credential_in_use id s then s else record s { credentials = delete id s.credentials }

-- DeleteCredentialIfUnused
abbrev pub delete_credential_if_unused : String → AuthStore → AuthStore
delete_credential_if_unused id s =
    if credential_in_use id s
    then s
    else if not (has id s.credentials)
    then s
    else record s { credentials = delete id s.credentials }
