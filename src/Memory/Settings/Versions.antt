-- ===== src/Memory/Settings/Versions.antt =====
-- internal/storage/memory/sync_store.go: the order of the revisions and the length of the history.
use ferventio_backend.Base.{
  ℕ, zero, suc, ◌+◌, ◌≤◌, ◌<◌, ◌≡◌, String, inl, inr, Option, none, some, List, [], ◌∷◌, arith, ltb,
  if◌then◌else◌, Bool-cases, Option-cases, take, length, length-take,
}
use ferventio_backend.Base.GoMap.{get, Each}
use ferventio_backend.Base.GoMap.Entries.{Each-get, Each-put}
use ferventio_backend.Domain.Clock.{Time}
use ferventio_backend.Domain.Settings.{
  SettingsSyncSnapshot, SettingsSyncUserState, max_settings_sync_history,
}
use ferventio_backend.Memory.Settings.{
  SettingsSyncStore, Write, new_memory_settings_sync_store, user_state, put_state, put_settings,
  restore, restore_source, pushed, revision_of, next_snapshot,
}

-- Revisions fall along the list, and stay under the bound.
abbrev pub Falling : ℕ → List SettingsSyncSnapshot → Type 0
Falling n [] = Unit {0}
Falling n (c ∷ cs) = (c.revision < n) × Falling c.revision cs

Falling-take : (k n : ℕ) (cs : List SettingsSyncSnapshot) → Falling n cs → Falling n (take k cs)
Falling-take zero n cs h = tt
Falling-take (suc k) n [] h = tt
Falling-take (suc k) n (c ∷ cs) h = (h.0, Falling-take k c.revision cs h.1)

-- Each snapshot is newer than all below it, and the history is not longer than its bound.
pub record IsVersioned (u : SettingsSyncUserState) : Type 0 where
  pub falling : Falling (revision_of u.current) u.history
  pub bounded : length u.history ≤ max_settings_sync_history

Falling-mono : (m n : ℕ) (cs : List SettingsSyncSnapshot) → m ≤ n → Falling m cs → Falling n cs
Falling-mono m n [] h f = tt
Falling-mono m n (c ∷ cs) h f = (omega arith, f.1)

pushed-IsVersioned :
    (c : Option SettingsSyncSnapshot) (h : List SettingsSyncSnapshot)
    → Falling (revision_of c) h
    → length h ≤ max_settings_sync_history
    → Falling (revision_of c + 1) (pushed c h) × (length (pushed c h) ≤ max_settings_sync_history)
pushed-IsVersioned none h f b = (Falling-mono 0 _ h (omega arith) f, b)
pushed-IsVersioned (some c) h f b =
    elim (Bool-cases (ltb max_settings_sync_history (length (c ∷ h)))) [
      | inl long ↦
          rw (long, if◌then◌else◌)
            (
              Falling-take max_settings_sync_history (c.revision + 1) (c ∷ h) (omega arith, f),
              omega (arith, length-take max_settings_sync_history (c ∷ h)),
            )
      | inr short ↦ rw (short, if◌then◌else◌) ((omega arith, f), ground arith)
    ]

-- A write that changes the state makes the next revision, and puts the current one into the history.
put_state_changed :
    (w : Write) (u u' : SettingsSyncUserState)
    → (put_state w u).0 ≡ some u'
    → (u'.current ≡ some (next_snapshot w u)) × (u'.history ≡ pushed u.current u.history)
unfolding put_state
put_state_changed w u u' h = ground arith

put_state-IsVersioned :
    (w : Write) (u u' : SettingsSyncUserState)
    → IsVersioned u
    → (put_state w u).0 ≡ some u'
    → IsVersioned u'
put_state-IsVersioned w u u' v h =
    let (c, t) = put_state_changed w u u' h in
    let (f, b) = pushed-IsVersioned u.current u.history v.falling v.bounded in
    record { falling = rw (c, t) f; bounded = rw t b }

-- Every user's state is versioned.
pub IsStoreVersioned : SettingsSyncStore → Type 0
IsStoreVersioned s = Each (λ _ u. IsVersioned u) s.users

user_state-IsVersioned :
    (user_id : String) (s : SettingsSyncStore)
    → IsStoreVersioned s
    → IsVersioned (user_state user_id s)
unfolding user_state IsStoreVersioned
user_state-IsVersioned user_id s v = elim (Option-cases (get user_id s.users)) [
  | inl e ↦ rw (e, user_state) (record { falling = tt; bounded = omega arith })
  | inr (u, e) ↦ rw (e, user_state) (Each-get (λ _ u. IsVersioned u) user_id u s.users v e)
]

put_settings-IsStoreVersioned :
    (user_id : String) (w : Write) (s : SettingsSyncStore)
    → IsStoreVersioned s
    → IsStoreVersioned (put_settings user_id w s).0
unfolding put_settings IsStoreVersioned
put_settings-IsStoreVersioned user_id w s v =
    elim (Option-cases (put_state w (user_state user_id s)).0) [
      | inl e ↦ rw (e, put_settings) v
      | inr (u, e) ↦
          rw (e, put_settings)
            (Each-put (λ _ u. IsVersioned u) user_id u s.users
              (put_state-IsVersioned w _ u (user_state-IsVersioned user_id s v) e) v)
    ]

restore-IsStoreVersioned :
    (user_id installation_id : String) (revision : ℕ) (now : Time) (s : SettingsSyncStore)
    → IsStoreVersioned s
    → IsStoreVersioned (restore user_id installation_id revision now s).0
unfolding restore
restore-IsStoreVersioned user_id installation_id revision now s v =
    elim (Option-cases (restore_source revision (user_state user_id s))) [
      | inl e ↦ rw (e, restore) v
      | inr (c, e) ↦ rw (e, restore) (put_settings-IsStoreVersioned user_id _ s v)
    ]

-- The calls that may change the store.
pub data SettingsCall : Type 0 where
  put_call : String → Write → SettingsCall
  restore_call : String → String → ℕ → Time → SettingsCall

pub step : SettingsSyncStore → SettingsCall → SettingsSyncStore
step s (put_call user_id w) = (put_settings user_id w s).0
step s (restore_call user_id installation_id revision now) =
    (restore user_id installation_id revision now s).0

pub run : SettingsSyncStore → List SettingsCall → SettingsSyncStore
run s [] = s
run s (c ∷ cs) = run (step s c) cs

step-IsStoreVersioned :
    (s : SettingsSyncStore) (c : SettingsCall) → IsStoreVersioned s → IsStoreVersioned (step s c)
unfolding step
step-IsStoreVersioned s (put_call user_id w) v = put_settings-IsStoreVersioned user_id w s v
step-IsStoreVersioned s (restore_call user_id i revision now) v =
    restore-IsStoreVersioned user_id i revision now s v

run_from :
    (s : SettingsSyncStore) (cs : List SettingsCall)
    → IsStoreVersioned s
    → IsStoreVersioned (run s cs)
unfolding run
run_from s [] v = v
run_from s (c ∷ cs) v = run_from (step s c) cs (step-IsStoreVersioned s c v)

-- After any writes and restores on a new store, the revisions of each user's history fall strictly
-- from the current one on, and the history is not longer than its bound.
pub run-IsStoreVersioned :
    (cs : List SettingsCall) → IsStoreVersioned (run new_memory_settings_sync_store cs)
unfolding IsStoreVersioned
run-IsStoreVersioned cs = run_from new_memory_settings_sync_store cs tt
