-- ===== src/Memory/Settings/Writers.antt =====
-- internal/storage/memory/sync_store.go: two devices that write, and the way back to a revision.
use ferventio_backend.Base.{
  ℕ, ◌+◌, ◌≡◌, refl, String, true, false, inl, inr, Option, none, some, arith, ap, eq_iff, ◌⊎◌,
  if◌then◌else◌, Bool-cases, eq_false_of_ne, Option-cases, ◌==◌, eq_refl, ◌≢◌, ◌∙◌,
}
use ferventio_backend.Base.GoMap.{put, get-put}
use ferventio_backend.Domain.Clock.{Time}
use ferventio_backend.Domain.Settings.{SettingsSyncSnapshot, SettingsSyncUserState}
use ferventio_backend.Memory.Settings.{
  SettingsSyncStore, Write, saved, conflict, user_state, current, put_state, put_settings, restore,
  restore_source, restoring, pushed, revision_of, has_hash, next_snapshot,
}

-- What a user's state becomes.
settled : Option SettingsSyncUserState → SettingsSyncUserState → SettingsSyncUserState
settled none u = u
settled (some v) u = v

user_state-put :
    (user_id other : String) (u : SettingsSyncUserState) (s : SettingsSyncStore)
    → user_state other (record { users = put user_id u s.users })
      ≡ (if user_id == other then u else user_state other s)
unfolding user_state
user_state-put user_id other u s = elim (Bool-cases (user_id == other)) [
  | inl e ↦ rw (user_state, get-put, e, if◌then◌else◌)
  | inr e ↦ rw (user_state, get-put, e, if◌then◌else◌)
]

user_state-put_settings :
    (user_id : String) (w : Write) (s : SettingsSyncStore)
    → user_state user_id (put_settings user_id w s).0
      ≡ settled (put_state w (user_state user_id s)).0 (user_state user_id s)
unfolding put_settings settled
user_state-put_settings user_id w s = elim (Option-cases (put_state w (user_state user_id s)).0) [
  | inl e ↦ rw (e, put_settings)
  | inr (u, e) ↦ rw (e, put_settings, user_state-put, eq_refl)
]

put_settings-reply :
    (user_id : String) (w : Write) (s : SettingsSyncStore)
    → (put_settings user_id w s).1 ≡ (put_state w (user_state user_id s)).1
unfolding put_settings
put_settings-reply user_id w s = elim (Option-cases (put_state w (user_state user_id s)).0) [
  | inl e ↦ rw (e, put_settings)
  | inr (u, e) ↦ rw (e, put_settings)
]

-- A write that is not forced and was made from another revision than the current one changes
-- nothing, and is answered with a conflict and the current snapshot.
stale_write_refused :
    (user_id : String) (w : Write) (s : SettingsSyncStore)
    → w.force ≡ false
    → w.base_revision ≢ revision_of (current user_id s)
    → put_settings user_id w s ≡ (s, conflict (current user_id s))
unfolding put_settings current put_state user_state
stale_write_refused user_id w s calm stale = ground arith

-- What a write that becomes a revision makes of a user's state.
abbrev pub succeeded : Write → SettingsSyncUserState → SettingsSyncUserState
succeeded w u = record { current = some (next_snapshot w u); history = pushed u.current u.history }

put_state_fresh :
    (w : Write) (u : SettingsSyncUserState)
    → w.force ≡ true ⊎ w.base_revision ≡ revision_of u.current
    → has_hash w.content_hash u.current ≡ false
    → put_state w u ≡ (some (succeeded w u), saved (next_snapshot w u))
unfolding put_state
put_state_fresh w u base other = ground arith

-- A write with other content than the current snapshot's, forced or made from the current
-- revision, becomes the next revision: it is the reply and the current snapshot, and the one
-- before joins the history.
fresh_write_saved :
    (user_id : String) (w : Write) (s : SettingsSyncStore)
    → w.force ≡ true ⊎ w.base_revision ≡ revision_of (current user_id s)
    → has_hash w.content_hash (current user_id s) ≡ false
    → ((put_settings user_id w s).1 ≡ saved (next_snapshot w (user_state user_id s)))
      × (user_state user_id (put_settings user_id w s).0 ≡ succeeded w (user_state user_id s))
unfolding current
fresh_write_saved user_id w s base other =
    let e = put_state_fresh w (user_state user_id s) base other in
    (
      put_settings-reply user_id w s ∙ ap (λ p. p.1) e,
      user_state-put_settings user_id w s
          ∙ ap (λ p. settled p.0 (user_state user_id s)) e
          ∙ (unfold settled in refl),
    )

current_of :
    (user_id : String) (s : SettingsSyncStore) {u : SettingsSyncUserState}
    → user_state user_id s ≡ u
    → current user_id s ≡ u.current
unfolding current
current_of user_id s e = ap (λ u. u.current) e

-- Of two writes that were made from the same current revision, the second, not forced, changes
-- nothing once the first, with other content, is saved: it is answered with a conflict and the
-- snapshot that the first made.
pub second_writer_refused :
    (user_id : String) (first second : Write) (s : SettingsSyncStore)
    → first.base_revision ≡ revision_of (current user_id s)
    → has_hash first.content_hash (current user_id s) ≡ false
    → second.base_revision ≡ first.base_revision
    → second.force ≡ false
    → let s1 = (put_settings user_id first s).0 in
      put_settings user_id second s1
      ≡ (s1, conflict (some (next_snapshot first (user_state user_id s))))
unfolding current
second_writer_refused user_id first second s base other same calm =
    let s1 = (put_settings user_id first s).0 in
    let stale_base : (r : ℕ) → r ≡ revision_of (current user_id s) + 1 → second.base_revision ≢ r =
      λ r e h. ground arith in
    let now_current =
      current_of user_id s1 (fresh_write_saved user_id first s (inr base) other).1 in
    stale_write_refused user_id second s1 calm
      (stale_base (revision_of (current user_id s1)) (ap revision_of now_current))
    ∙ ap (λ c. (s1, conflict c)) now_current

-- A write of one user leaves every other user's state.
put_settings_others :
    (user_id other : String) (w : Write) (s : SettingsSyncStore)
    → user_id ≢ other
    → user_state other (put_settings user_id w s).0 ≡ user_state other s
unfolding put_settings
put_settings_others user_id other w s away =
    elim (Option-cases (put_state w (user_state user_id s)).0) [
      | inl e ↦ rw (e, put_settings)
      | inr (u, e) ↦ rw (e, put_settings, user_state-put, eq_false_of_ne user_id other away)
    ]

forced_put_state :
    (w : Write) (u : SettingsSyncUserState)
    → w.force ≡ true
    → (c : SettingsSyncSnapshot) × ((put_state w u).1 ≡ saved c)
      × ((settled (put_state w u).0 u).current ≡ some c)
      × (c.content_hash ≡ w.content_hash)
unfolding put_state settled
forced_put_state w u forced = elim (Option-cases u.current) [
  | inl e ↦ (next_snapshot w u, rw (forced, e), rw (forced, e), refl)
  | inr (c, e) ↦ elim (Bool-cases (c.content_hash == w.content_hash)) [
    | inl h ↦ (c, rw (forced, e, h), rw (forced, e, h), (eq_iff c.content_hash w.content_hash).0 h)
    | inr h ↦ (next_snapshot w u, rw (forced, e, h), rw (forced, e, h), refl)
  ]
]

restore_found_lem :
    (user_id installation_id : String) (revision : ℕ) (now : Time) (s : SettingsSyncStore)
    (source : SettingsSyncSnapshot)
    → restore_source revision (user_state user_id s) ≡ some source
    → restore user_id installation_id revision now s
      ≡ put_settings user_id (restoring installation_id now source (user_state user_id s)) s
unfolding restore put_settings
restore_found_lem user_id installation_id revision now s source found = rw (restore, found)

-- Restore of a revision that the user's state holds is answered with a snapshot that has this
-- revision's content hash, and this snapshot is then the current one.
restore_found :
    (user_id installation_id : String) (revision : ℕ) (now : Time) (s : SettingsSyncStore)
    (source : SettingsSyncSnapshot)
    → restore_source revision (user_state user_id s) ≡ some source
    → let (s', reply) = restore user_id installation_id revision now s in
      (c : SettingsSyncSnapshot) × (reply ≡ saved c)
      × (current user_id s' ≡ some c)
      × (c.content_hash ≡ source.content_hash)
restore_found user_id installation_id revision now s source found =
    let u = user_state user_id s in
    let w = restoring installation_id now source u in
    let (c, reply, stays, hash) = forced_put_state w u refl in
    let e = restore_found_lem user_id installation_id revision now s source found in
    (
      c,
      rw e (put_settings-reply user_id w s ∙ reply),
      rw e (
          current_of user_id (put_settings user_id w s).0 (user_state-put_settings user_id w s)
          ∙ stays),
      hash,
    )
