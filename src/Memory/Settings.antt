-- ===== src/Memory/Settings.antt =====
-- internal/storage/memory/sync_store.go: each user's settings, their revisions and their history.
-- A snapshot is a value here, so `cloneSettingsSyncSnapshot` is the identity; `persistLocked` returns
-- nil, so the branch that undoes a change after its failure has no model.
pub mod Versions
pub mod Writers
use ferventio_backend.Base.{
  ℕ, ◌+◌, String, Bool, true, false, not, ◌&&◌, Option, none, some, List, [], ◌∷◌, ltb, eqb, ◌==◌,
  if◌then◌else◌, take, length, is_some,
}
use ferventio_backend.Base.GoMap.{GoMap, get, put}
use ferventio_backend.Base.Sort.{sort}
use ferventio_backend.Domain.Clock.{Time}
use ferventio_backend.Domain.Settings.{
  SettingsSyncSnapshot, SettingsSyncUserState, max_settings_sync_history,
}

pub record SettingsSyncStore : Type 0 where
  pub users : GoMap SettingsSyncUserState

abbrev pub new_memory_settings_sync_store : SettingsSyncStore
new_memory_settings_sync_store = record { users = [] }

-- What Put and Restore return: a snapshot and no error, ErrSettingsSyncConflict beside the current
-- snapshot (none: the zero one), or ErrSettingsSyncRevisionNotFound.
pub data Reply : Type 0 where
  saved : SettingsSyncSnapshot → Reply
  conflict : Option SettingsSyncSnapshot → Reply
  revision_not_found : Reply

abbrev pub no_state : SettingsSyncUserState
no_state = record { current = none; history = [] }

-- users[userID], the zero value for a missing key.
unfoldable pub user_state : String → SettingsSyncStore → SettingsSyncUserState
user_state user_id s = elim (get user_id s.users) [ none ↦ no_state | some u ↦ u ]

abbrev pub revision_of : Option SettingsSyncSnapshot → ℕ
revision_of none = 0
revision_of (some c) = c.revision

unfoldable pub current : String → SettingsSyncStore → Option SettingsSyncSnapshot
unfolding user_state
current user_id s = (user_state user_id s).current

-- The arguments of one write, the time included.
pub record Write : Type 0 where
  pub installation_id : String
  pub base_revision : ℕ
  pub force : Bool
  pub app_version : String
  pub content_hash : String
  pub payload : String
  pub now : Time

abbrev pub has_hash : String → Option SettingsSyncSnapshot → Bool
has_hash hash none = false
has_hash hash (some c) = c.content_hash == hash

-- The history after the current snapshot has joined it.
abbrev pub pushed :
    Option SettingsSyncSnapshot → List SettingsSyncSnapshot → List SettingsSyncSnapshot
pushed none history = history
pushed (some c) history =
    if ltb max_settings_sync_history (length (c ∷ history))
    then take max_settings_sync_history (c ∷ history)
    else c ∷ history

abbrev pub next_snapshot : Write → SettingsSyncUserState → SettingsSyncSnapshot
next_snapshot w u = record {
  revision = revision_of u.current + 1;
  updated_at = w.now;
  updated_by_installation_id = w.installation_id;
  app_version = w.app_version;
  content_hash = w.content_hash;
  payload = w.payload;
}

-- The user's state after a write, and the reply.
unfoldable pub put_state : Write → SettingsSyncUserState → Option SettingsSyncUserState × Reply
put_state w u =
    if not w.force && not (eqb w.base_revision (revision_of u.current))
    then (none, conflict u.current)
    else (if has_hash w.content_hash u.current
        then (none, elim u.current [ none ↦ conflict none | some c ↦ saved c ])
        else (
          some
              (record { current = some (next_snapshot w u); history = pushed u.current u.history }),
          saved (next_snapshot w u),
        ))

-- Put and putLocked
unfoldable pub put_settings : String → Write → SettingsSyncStore → SettingsSyncStore × Reply
put_settings user_id w s =
    let (changed, reply) = put_state w (user_state user_id s) in
    elim changed [ none ↦ (s, reply) | some u ↦ (record { users = put user_id u s.users }, reply) ]

abbrev pub newest_revision : SettingsSyncSnapshot → SettingsSyncSnapshot → Bool
newest_revision a b = ltb b.revision a.revision

abbrev pub all_snapshots : SettingsSyncUserState → List SettingsSyncSnapshot
all_snapshots u = elim u.current [ none ↦ u.history | some c ↦ c ∷ u.history ]

unfoldable pub history : String → SettingsSyncStore → List SettingsSyncSnapshot
history user_id s = sort newest_revision (all_snapshots (user_state user_id s))

unfoldable pub find_revision : ℕ → List SettingsSyncSnapshot → Option SettingsSyncSnapshot
find_revision revision [] = none
find_revision revision (c ∷ cs) =
    let rest = find_revision revision cs in if eqb c.revision revision then some c else rest

-- The current snapshot is looked at first.
unfoldable pub restore_source : ℕ → SettingsSyncUserState → Option SettingsSyncSnapshot
restore_source revision u = elim u.current [
  | none ↦ find_revision revision u.history
  | some c ↦ if eqb c.revision revision then some c else find_revision revision u.history
]

abbrev pub restoring : String → Time → SettingsSyncSnapshot → SettingsSyncUserState → Write
restoring installation_id now source u = record {
  installation_id = installation_id;
  base_revision = revision_of u.current;
  force = true;
  app_version = source.app_version;
  content_hash = source.content_hash;
  payload = source.payload;
  now = now;
}

-- A missing user has nothing to restore, like the zero state.
unfoldable pub restore : String → String → ℕ → Time → SettingsSyncStore → SettingsSyncStore × Reply
restore user_id installation_id revision now s =
    let u = user_state user_id s in
    elim (restore_source revision u) [
      | none ↦ (s, revision_not_found)
      | some source ↦ put_settings user_id (restoring installation_id now source u) s
    ]
