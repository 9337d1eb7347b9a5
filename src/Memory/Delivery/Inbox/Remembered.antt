-- ===== src/Memory/Delivery/Inbox/Remembered.antt =====
-- internal/storage/memory/delivery_store.go: how long a completed EventSub message is remembered.
use ferventio_backend.Base.{
  ℕ, suc, ◌+◌, ◌*◌, ◌≤◌, ◌≡◌, ◌≢◌, refl, ◌∙◌, String, Bool, true, false, not, ◌⊎◌, inl, inr, Option,
  some, List, [], ◌∷◌, arith, leb, ltb, ◌-◌, if◌then◌else◌, Bool-cases, Option-cases, ◌==◌, ok,
  leb→le,
}
use ferventio_backend.Base.Lists.{All}
use ferventio_backend.Base.Text.{trim_space}
use ferventio_backend.Base.GoMap.{
  GoMap, get, has, size, Unique, get-put, get-put_self, get-retain-some, has_of_some,
}
use ferventio_backend.Base.GoMap.Sizes.{size-put-le, size-retain-le}
use ferventio_backend.Base.GoMap.Uniqueness.{Unique-put, Unique-retain}
use ferventio_backend.Domain.Clock.{Time, hour}
use ferventio_backend.Domain.EventSub.{EventSubEnvelope}
use ferventio_backend.Domain.Delivery.{EventSubInboxRecord, max_seen_event_records}
use ferventio_backend.Memory.Delivery.{DeliveryStore, cleanup_seen, add_seen_event_sub, cleanup}
use ferventio_backend.Memory.Delivery.Inbox.{
  enqueue_event_sub, enqueue_trimmed, insert_item, make_inbox_room, forget_old, complete_event_sub,
  mark_event_sub_failed, retry_event_sub, seen_before,
}
use ferventio_backend.Memory.Delivery.Inbox.Admission.{enqueue_seen}
use ferventio_backend.Memory.Delivery.Run.{
  DeliveryCall, enqueue_call, mark_sent_call, mark_failed_call, ack_through_call, ack_call,
  delete_for_installation_call, enqueue_event_sub_call, complete_event_sub_call,
  mark_event_sub_failed_call, retry_event_sub_call, has_seen_call, seen_call, forget_call,
  save_channel_state_call, update_channel_state_call, cleanup_call, step, run, enqueue-SameInbox,
  ack_through-SameInbox, mark_sent-SameInbox, mark_failed-SameInbox, ack-SameInbox,
  delete-SameInbox, save-SameBut, update-SameBut,
}

-- What may come between: the calls that forget seen messages come until the deadline, no other method
-- looks into the seen messages or forgets one, and no call completes the message again.
abbrev pub is_quiet : String → Time → DeliveryCall → Bool
is_quiet id deadline (enqueue_call r now) = leb now deadline
is_quiet id deadline (enqueue_event_sub_call k envelope now) = leb now deadline
is_quiet id deadline (cleanup_call now) = leb now deadline
is_quiet id deadline (complete_event_sub_call k t) = not (k == id)
is_quiet id deadline (has_seen_call k now ttl) = false
is_quiet id deadline (seen_call k now ttl) = false
is_quiet id deadline (forget_call k) = false
is_quiet id deadline c = true

-- How many messages the calls may add to the seen ones.
abbrev pub adds : DeliveryCall → ℕ
adds (complete_event_sub_call k t) = 1
adds c = 0

abbrev pub completions : List DeliveryCall → ℕ
completions [] = 0
completions (c ∷ cs) = adds c + completions cs

-- The message is remembered, and there is room for more.
record Remembers (id : String) (done : Time) (more : ℕ) (seen : GoMap Time) : Type 0 where
  there : get id seen ≡ some done
  unique : Unique seen
  room : size seen + more ≤ max_seen_event_records

cleaned-Remembers :
    (id : String) (done now more : ℕ) (seen : GoMap Time)
    → now ≤ done + 24 * hour
    → Remembers id done more seen
    → Remembers id done more (cleanup_seen now (24 * hour) seen)
unfolding cleanup_seen
cleaned-Remembers id done now more seen soon w = record {
  there = get-retain-some _ id done seen w.unique w.there (ground arith);
  unique = Unique-retain _ seen w.unique;
  room =
      omega (
        arith,
        w.room,
        size-retain-le (λ _ timestamp. not (ltb (24 * hour) (now - timestamp))) seen,
      );
}

added-Remembers :
    (id k : String) (done t more : ℕ) (seen : GoMap Time)
    → (k == id) ≡ false
    → Remembers id done (suc more) seen
    → Remembers id done more (add_seen_event_sub k t seen)
unfolding add_seen_event_sub
added-Remembers id k done t more seen other w =
    elim (Bool-cases (leb max_seen_event_records (size seen))) [
      | inl full ↦ absurd (omega (arith, leb→le _ _ full, w.room))
      | inr free ↦
          rw (free, if◌then◌else◌)
            (record {
              there = get-put k id t seen ∙ rw (other, if◌then◌else◌) w.there;
              unique = Unique-put k t seen w.unique;
              room = omega (arith, w.room, size-put-le k t seen);
            })
    ]

added :
    (id : String) (done more : ℕ) (seen : GoMap Time)
    → Unique seen
    → size seen + suc more ≤ max_seen_event_records
    → Remembers id done more (add_seen_event_sub id done seen)
unfolding add_seen_event_sub
added id done more seen u room = elim (Bool-cases (leb max_seen_event_records (size seen))) [
  | inl full ↦ absurd (omega (arith, leb→le _ _ full, room))
  | inr free ↦
      rw (free, if◌then◌else◌)
        (record {
          there = get-put_self id done seen;
          unique = Unique-put id done seen u;
          room = omega (arith, room, size-put-le id done seen);
        })
]

insert_item-seen :
    (id : String) (envelope : EventSubEnvelope) (now : Time) (s : DeliveryStore)
    → (insert_item id envelope now s).0.seen ≡ s.seen
unfolding insert_item make_inbox_room
insert_item-seen id envelope now s = ground arith

admitted-seen :
    (id : String) (envelope : EventSubEnvelope) (now : Time) (s : DeliveryStore)
    → ((enqueue_trimmed id envelope now s).0.seen ≡ s.seen)
      ⊎ ((enqueue_trimmed id envelope now s).0.seen ≡ cleanup_seen now (24 * hour) s.seen)
unfolding enqueue_trimmed
admitted-seen id envelope now s = elim (Bool-cases (id == "")) [
  | inl e ↦ inl (rw (enqueue_trimmed, e, if◌then◌else◌) refl)
  | inr e ↦
      let s' = forget_old now (24 * hour) s in
      inr (elim (Bool-cases (has id s'.seen)) [
        | inl k ↦ rw (enqueue_trimmed, e, if◌then◌else◌, k) refl
        | inr k ↦ elim (Option-cases (get id s'.event_sub_inbox)) [
          | inr (x, q) ↦ rw (enqueue_trimmed, e, if◌then◌else◌, k, q) refl
          | inl q ↦
              rw (enqueue_trimmed, e, if◌then◌else◌, k, q) (insert_item-seen id envelope now s')
        ]
      ])
]

completed-seen :
    (k : String) (t : Time) (s : DeliveryStore)
    → ((complete_event_sub k t s).0.seen ≡ s.seen)
      ⊎ ((complete_event_sub k t s).0.seen ≡ add_seen_event_sub k t s.seen)
unfolding complete_event_sub
completed-seen k t s = elim (Option-cases (get k s.event_sub_inbox)) [
  | inl e ↦ inl (rw (complete_event_sub, e) (ground arith))
  | inr (r, e) ↦ inr (rw (complete_event_sub, e) refl)
]

cleanup-seen :
    (now : Time) (s : DeliveryStore) → (cleanup now s).seen ≡ cleanup_seen now (24 * hour) s.seen
unfolding cleanup
cleanup-seen now s = refl

failed-seen :
    (k : String) (failure : Option String) (t : Time) (s : DeliveryStore)
    → (mark_event_sub_failed k failure t s).0.seen ≡ s.seen
unfolding mark_event_sub_failed
failed-seen k failure t s = ground arith

retried-seen : (k : String) (t : Time) (s : DeliveryStore) → (retry_event_sub k t s).0.seen ≡ s.seen
unfolding retry_event_sub
retried-seen k t s = ground arith

fewer :
    {id : String} {done more total : ℕ} {seen : GoMap Time}
    → more ≤ total
    → Remembers id done total seen
    → Remembers id done more seen
fewer h w = record { there = w.there; unique = w.unique; room = omega (arith, w.room) }

-- A quiet call leaves the message remembered.
step-Remembers :
    (id : String) (done more total : ℕ) (c : DeliveryCall) (s : DeliveryStore)
    → is_quiet id (done + 24 * hour) c ≡ true
    → adds c + more ≤ total
    → Remembers id done total s.seen
    → Remembers id done more (step s c).seen
unfolding step
step-Remembers id done more total (enqueue_call r now) s q h w =
    rw ((enqueue-SameInbox r now s).seen, cleanup-seen now s)
      (cleaned-Remembers id done now more s.seen (leb→le _ _ q) (fewer (omega (arith, h)) w))
step-Remembers id done more total (mark_sent_call k t) s q h w =
    rw ((mark_sent-SameInbox k t s).seen) (fewer (omega (arith, h)) w)
step-Remembers id done more total (mark_failed_call k f t) s q h w =
    rw ((mark_failed-SameInbox k f t s).seen) (fewer (omega (arith, h)) w)
step-Remembers id done more total (ack_through_call i e t) s q h w =
    rw ((ack_through-SameInbox i e t s).seen) (fewer (omega (arith, h)) w)
step-Remembers id done more total (ack_call i e t) s q h w =
    rw ((ack-SameInbox i e t s).seen) (fewer (omega (arith, h)) w)
step-Remembers id done more total (delete_for_installation_call i) s q h w =
    rw ((delete-SameInbox i s).seen) (fewer (omega (arith, h)) w)
step-Remembers id done more total (enqueue_event_sub_call k envelope now) s q h w =
    unfold enqueue_event_sub in
    elim (admitted-seen (trim_space k) envelope now s) [
      | inl e ↦ rw e (fewer (omega (arith, h)) w)
      | inr e ↦
          rw e
            (cleaned-Remembers id done now more s.seen (leb→le _ _ q) (fewer (omega (arith, h)) w))
    ]
step-Remembers id done more total (complete_event_sub_call k t) s q h w =
    elim (completed-seen k t s) [
      | inl e ↦ rw e (fewer (omega (arith, h)) w)
      | inr e ↦
          rw e (
            added-Remembers id k done t more s.seen (ground (arith, q))
              (fewer (omega (arith, h)) w))
    ]
step-Remembers id done more total (mark_event_sub_failed_call k f t) s q h w =
    rw (failed-seen k f t s) (fewer (omega (arith, h)) w)
step-Remembers id done more total (retry_event_sub_call k t) s q h w =
    rw (retried-seen k t s) (fewer (omega (arith, h)) w)
step-Remembers id done more total (has_seen_call k now ttl) s q h w = cc
step-Remembers id done more total (seen_call k now ttl) s q h w = cc
step-Remembers id done more total (forget_call k) s q h w = cc
step-Remembers id done more total (save_channel_state_call c t g now) s q h w =
    rw ((save-SameBut c t g now s).same_inbox.seen) (fewer (omega (arith, h)) w)
step-Remembers id done more total (update_channel_state_call c t g now) s q h w =
    rw ((update-SameBut c t g now s).same_inbox.seen) (fewer (omega (arith, h)) w)
step-Remembers id done more total (cleanup_call now) s q h w =
    rw (cleanup-seen now s)
      (cleaned-Remembers id done now more s.seen (leb→le _ _ q) (fewer (omega (arith, h)) w))

run-Remembers :
    (id : String) (done : Time) (cs : List DeliveryCall) (s : DeliveryStore)
    → All (λ c. is_quiet id (done + 24 * hour) c ≡ true) cs
    → Remembers id done (completions cs) s.seen
    → Remembers id done 0 (run s cs).seen
unfolding run
run-Remembers id done [] s q w = w
run-Remembers id done (c ∷ cs) s q w =
    run-Remembers id done cs (step s c) q.1
      (step-Remembers id done (completions cs) _ c s q.0 (omega arith) w)

completed-Remembers :
    (id : String) (done more : ℕ) (s : DeliveryStore) (r : EventSubInboxRecord)
    → get id s.event_sub_inbox ≡ some r
    → Unique s.seen
    → size s.seen + suc more ≤ max_seen_event_records
    → Remembers id done more (complete_event_sub id done s).0.seen
unfolding complete_event_sub
completed-Remembers id done more s r waits u room =
    rw (complete_event_sub, waits) (added id done more s.seen u room)

-- A message that waited in the inbox and was completed is not admitted again for 24 hours, whatever is
-- called between: EnqueueEventSub answers that it was seen, and only old seen messages are forgotten.
-- The calls between that forget old messages come within the 24 hours; none of them is HasSeenEventSub,
-- SeenEventSub or ForgetEventSub, or completes the message itself; and there is room among the seen
-- messages for those that they complete. The seen messages have distinct keys and the trimmed identifier
-- is not empty.
pub completed_not_readmitted :
    (message_id : String) (envelope : EventSubEnvelope) (done now : Time) (s : DeliveryStore)
    (r : EventSubInboxRecord) (between : List DeliveryCall)
    → trim_space message_id ≢ ""
    → Unique s.seen
    → size s.seen + suc (completions between) ≤ max_seen_event_records
    → get (trim_space message_id) s.event_sub_inbox ≡ some r
    → All (λ c. is_quiet (trim_space message_id) (done + 24 * hour) c ≡ true) between
    → now ≤ done + 24 * hour
    → let s' = run (complete_event_sub (trim_space message_id) done s).0 between in
      enqueue_event_sub message_id envelope now s' ≡ (forget_old now (24 * hour) s', ok seen_before)
completed_not_readmitted message_id envelope done now s r between named u room waits quiet soon =
    let id = trim_space message_id in
    let first = completed-Remembers id done (completions between) s r waits u room in
    let kept = run-Remembers id done between (complete_event_sub id done s).0 quiet first in
    enqueue_seen message_id envelope now _ named
      (has_of_some id _ done (cleaned-Remembers id done now 0 _ soon kept).there)
