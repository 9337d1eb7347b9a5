-- ===== src/Memory/Auth/Bounds/SignIn.antt =====
-- internal/storage/memory/auth_store.go: the calls that sign a device in keep the bounds.
use ferventio_backend.Base.{
  String, not, inl, inr, Option, arith, ltb, leb, if◌then◌else◌, Option-cases, Bool-cases,
}
use ferventio_backend.Base.GoMap.{get, has, put, delete, retain, size, any}
use ferventio_backend.Base.GoMap.Sizes.{size-retain-le}
use ferventio_backend.Base.GoMap.Uniqueness.{Unique-put, Unique-delete, Unique-retain}
use ferventio_backend.Domain.Clock.{Time, Duration, after}
use ferventio_backend.Domain.Auth.{
  PendingAuthRecord, AuthHandoffRecord, max_pending_auth_records, max_auth_handoffs,
  max_auth_sessions,
}
use ferventio_backend.Memory.Secrets.{Hashing}
use ferventio_backend.Memory.Auth.{AuthStore, cleanup_expired, delete_unused}
use ferventio_backend.Memory.Auth.Pending.{put_pending, consume_pending, without_earlier}
use ferventio_backend.Memory.Auth.Handoffs.{
  put_handoff, replace_handoff, consume_handoff, is_other_device, same_handoff_device,
}
use ferventio_backend.Memory.Secrets.{secure_hash_equal}
use ferventio_backend.Memory.Auth.Sessions.{create_session, is_rival_session, gives_way}
use ferventio_backend.Memory.Auth.Bounds.{
  IsBounded, retain-IsWithin, delete-IsWithin, put-IsWithin, size-delete-retain-put,
  cleanup_expired-IsBounded,
}

module _ (h : Hashing) where
  pub without_earlier-IsBounded :
      (r : PendingAuthRecord) (now : Time) (s : AuthStore)
      → IsBounded s
      → IsBounded (without_earlier r now s)
  unfolding without_earlier
  without_earlier-IsBounded r now s w =
      let c = cleanup_expired-IsBounded now s w in
      record {
        pending = retain-IsWithin _ _ (cleanup_expired now s).pending c.pending;
        handoffs = c.handoffs;
        sessions = c.sessions;
        credentials = c.credentials;
      }

  pub put_pending-IsBounded :
      (state : String) (r : PendingAuthRecord) (now : Time) (s : AuthStore)
      → IsBounded s
      → IsBounded (put_pending h state r now s).0
  unfolding put_pending
  put_pending-IsBounded state r now s w =
      let s' = without_earlier r now s in
      let c = without_earlier-IsBounded r now s w in
      elim (Bool-cases (leb max_pending_auth_records (size s'.pending))) [
        | inl e ↦ rw (put_pending, e, if◌then◌else◌) c
        | inr e ↦
            rw (put_pending, e, if◌then◌else◌)
              (record {
                pending =
                    put-IsWithin _ (h.hash_secret state) r s'.pending c.pending (ground arith);
                handoffs = c.handoffs;
                sessions = c.sessions;
                credentials = c.credentials;
              })
      ]

  pub consume_pending-IsBounded :
      (state : String) (now : Time) (s : AuthStore)
      → IsBounded s
      → IsBounded (consume_pending h state now s).0
  unfolding consume_pending
  consume_pending-IsBounded state now s w =
      elim (Option-cases (get (h.hash_secret state) s.pending)) [
        | inl e ↦ rw (consume_pending, e) w
        | inr (r, e) ↦
            rw (consume_pending, e)
              (record {
                pending = delete-IsWithin _ (h.hash_secret state) s.pending w.pending;
                handoffs = w.handoffs;
                sessions = w.sessions;
                credentials = w.credentials;
              })
      ]

  pub put_handoff-IsBounded :
      (code : String) (r : AuthHandoffRecord) (now later : Time) (s : AuthStore)
      → IsBounded s
      → IsBounded (put_handoff h code r now later s).0
  unfolding put_handoff replace_handoff cleanup_expired delete_unused
  put_handoff-IsBounded code r now later s w =
      let key = h.hash_secret code in
      let m = retain (λ _ x. not (same_handoff_device r x)) s.handoffs in
      let s' = cleanup_expired now (replace_handoff key r s) in
      let unique =
        Unique-retain _ (put key r m)
          (Unique-put key r m (Unique-retain _ s.handoffs w.handoffs.unique)) in
      let pending = retain-IsWithin _ (λ _ p. not (after now p.expires_at)) s.pending w.pending in
      let sessions =
        retain-IsWithin _ (λ _ x. not (after now x.expires_at)) s.sessions w.sessions in
      let alive = λ (_ : String) (x : AuthHandoffRecord). not (after now x.expires_at) in
      elim (Bool-cases (ltb max_auth_handoffs (size s'.handoffs))) [
        | inl e ↦
            rw (put_handoff, e, if◌then◌else◌)
              (cleanup_expired-IsBounded later _ (record {
                pending = pending;
                handoffs = record {
                  unique = Unique-delete key s'.handoffs unique;
                  bounded = omega (
                    arith,
                    size-delete-retain-put key r alive m,
                    size-retain-le (λ _ x. not (same_handoff_device r x)) s.handoffs,
                    w.handoffs.bounded,
                  );
                };
                sessions = sessions;
                credentials = Unique-retain _ s.credentials w.credentials;
              }))
        | inr e ↦
            rw (put_handoff, e, if◌then◌else◌)
              (record {
                pending = pending;
                handoffs = record { unique = unique; bounded = ground arith };
                sessions = sessions;
                credentials = Unique-retain _ s.credentials w.credentials;
              })
      ]

  pub consume_handoff-IsBounded :
      (code inst secret state : String) (now : Time) (s : AuthStore)
      → IsBounded s
      → IsBounded (consume_handoff h code inst secret state now s).0
  unfolding consume_handoff
  consume_handoff-IsBounded code inst secret state now s w =
      let consumed : IsBounded (record s { handoffs = delete (h.hash_secret code) s.handoffs }) =
        record {
          pending = w.pending;
          handoffs = delete-IsWithin _ (h.hash_secret code) s.handoffs w.handoffs;
          sessions = w.sessions;
          credentials = w.credentials;
        } in
      elim (Option-cases (get (h.hash_secret code) s.handoffs)) [
        | inl e ↦ rw (consume_handoff, e) w
        | inr (r, e) ↦ elim (Bool-cases (after now r.expires_at)) [
          | inl a ↦ rw (consume_handoff, e, a, if◌then◌else◌) consumed
          | inr a ↦ elim (Bool-cases (is_other_device h inst secret r)) [
            | inl b ↦ rw (consume_handoff, e, a, b, if◌then◌else◌) w
            | inr b ↦ elim (Bool-cases (secure_hash_equal r.state_hash (h.hash_secret state))) [
              | inl c ↦ rw (consume_handoff, e, a, b, c, if◌then◌else◌) consumed
              | inr c ↦ rw (consume_handoff, e, a, b, c, if◌then◌else◌) w
            ]
          ]
        ]
      ]

  pub create_session-IsBounded :
      (credential_id inst secret : String) (ttl : Duration) (token : Option String) (now : Time)
      (s : AuthStore)
      → IsBounded s
      → IsBounded (create_session h credential_id inst secret ttl token now s).0
  unfolding create_session
  create_session-IsBounded credential_id inst secret ttl token now s w =
      let kept = retain (λ _ x. not (gives_way h inst now x)) s.sessions in
      let within = retain-IsWithin _ (λ _ x. not (gives_way h inst now x)) s.sessions w.sessions in
      let cleared : IsBounded (record s { sessions = kept }) = record {
        pending = w.pending;
        handoffs = w.handoffs;
        sessions = within;
        credentials = w.credentials;
      } in
      elim (Bool-cases (has credential_id s.credentials)) [
        | inr a ↦ rw (create_session, a, if◌then◌else◌) w
        | inl a ↦ elim (Bool-cases (any (λ _ x. is_rival_session h inst secret now x) s.sessions)) [
          | inl b ↦ rw (create_session, a, b, if◌then◌else◌) w
          | inr b ↦ elim (Bool-cases (leb max_auth_sessions (size kept))) [
            | inl c ↦ rw (create_session, a, b, c, if◌then◌else◌) cleared
            | inr c ↦ elim (Option-cases token) [
              | inl d ↦ rw (create_session, a, b, c, d, if◌then◌else◌) cleared
              | inr (t, d) ↦
                  rw (create_session, a, b, c, d, if◌then◌else◌)
                    (cleanup_expired-IsBounded now _ (record {
                      pending = w.pending;
                      handoffs = w.handoffs;
                      sessions = put-IsWithin _ (h.hash_secret t) _ kept within (ground arith);
                      credentials = w.credentials;
                    }))
            ]
          ]
        ]
      ]
