-- ===== src/Memory/Delivery/Outbox/Retry.antt =====
-- internal/storage/memory/delivery_store.go: MarkSent and MarkFailed, the back-off and its end.
use ferventio_backend.Base.{
  ℕ, suc, zero, ◌+◌, ◌-◌, ◌*◌, ◌^◌, ◌≤◌, ◌<◌, ◌≡◌, refl, String, true, ◌&&◌, inl, inr, some, List,
  [], ◌∷◌, arith, leb, ltb, if◌then◌else◌, Bool-cases, ◌⊎◌, length, eq_refl, ◌∙◌,
}
use ferventio_backend.Base.GoMap.{get, get-put_self, any, get-update}
use ferventio_backend.Base.GoMap.Entries.{any_of_get}
use ferventio_backend.Domain.Clock.{Time, second}
use ferventio_backend.Domain.Delivery.{DeliveryRecord, pending, sent, dead}
use ferventio_backend.Memory.Delivery.{DeliveryStore, min_int, retry_delay}
use ferventio_backend.Memory.Delivery.Outbox.{
  sent_record, mark_sent, failed_record, mark_failed, is_due, ack, matches, acked_record,
}

pow_table : (n : ℕ) → n ≤ 6 → (1 ≤ 2 ^ n) × (2 ^ n ≤ 64)
pow_table zero h = omega arith
pow_table (suc zero) h = omega arith
pow_table (suc (suc zero)) h = omega arith
pow_table (suc (suc (suc zero))) h = omega arith
pow_table (suc (suc (suc (suc zero)))) h = omega arith
pow_table (suc (suc (suc (suc (suc zero))))) h = omega arith
pow_table (suc (suc (suc (suc (suc (suc zero)))))) h = omega arith
pow_table (suc (suc (suc (suc (suc (suc (suc n))))))) h = absurd (omega arith)

min_int-le : (a b : ℕ) → min_int a b ≤ b
unfolding min_int
min_int-le a b = ground arith

-- A retry waits at least a second and at most 64.
pub retry_delay_bounds : (n : ℕ) → (second ≤ retry_delay n) × (retry_delay n ≤ 64 * second)
unfolding retry_delay
retry_delay_bounds n =
    let attempt : ℕ = if ltb n 1 then 1 else n in
    let p = pow_table (min_int (attempt - 1) 6) (min_int-le (attempt - 1) 6) in omega arith

pub failed_record_lem :
    (failure : String) (t : Time) (r : DeliveryRecord)
    → ((failed_record failure t r).status ≡ dead) × ((8 ≤ r.attempt_count + 1) ⊎ (r.expires_at ≤ t))
      ⊎ (((failed_record failure t r).status ≡ pending)
          × (r.attempt_count + 1 < 8)
          × (t < r.expires_at)
          × (t + second ≤ (failed_record failure t r).available_at)
          × ((failed_record failure t r).available_at ≤ t + 64 * second))
unfolding failed_record
failed_record_lem failure t r = ground (arith, retry_delay_bounds (r.attempt_count + 1))

-- One failure after another.
pub fail_each : String → List (String × Time) → DeliveryStore → DeliveryStore
fail_each id [] s = s
fail_each id ((failure, t) ∷ fs) s = fail_each id fs (mark_failed id failure t s).0

get-mark_failed :
    (id failure : String) (t : Time) (s : DeliveryStore) (r : DeliveryRecord)
    → get id s.records ≡ some r
    → get id (mark_failed id failure t s).0.records ≡ some (failed_record failure t r)
unfolding mark_failed
get-mark_failed id failure t s r h = rw (h, mark_failed) (get-put_self id _ s.records)

failed_record_count :
    (failure : String) (t : Time) (r : DeliveryRecord)
    → (failed_record failure t r).attempt_count ≡ r.attempt_count + 1
unfolding failed_record
failed_record_count failure t r = ground arith

fail_each-dead :
    (id failure : String) (t : Time) (fs : List (String × Time)) (s : DeliveryStore)
    (r : DeliveryRecord)
    → get id s.records ≡ some r
    → 8 ≤ r.attempt_count + length fs + 1
    → (q : DeliveryRecord) × (get id (fail_each id ((failure, t) ∷ fs) s).records ≡ some q)
      × (q.status ≡ dead)
unfolding fail_each
fail_each-dead id failure t [] s r h n = (
  failed_record failure t r,
  get-mark_failed id failure t s r h,
  ground (arith, failed_record_lem failure t r),
)
fail_each-dead id failure t ((failure', t') ∷ fs) s r h n =
    fail_each-dead id failure' t' fs (mark_failed id failure t s).0 (failed_record failure t r)
      (get-mark_failed id failure t s r h) (omega (arith, failed_record_count failure t r))

-- Retrying ends: whatever fails and whenever, a stored delivery is dead once one or more failures
-- in a row have brought its attempts to eight.
pub retries_end :
    (id failure : String) (t : Time) (fs : List (String × Time)) (s : DeliveryStore)
    (r : DeliveryRecord)
    → get id s.records ≡ some r
    → 8 ≤ r.attempt_count + length ((failure, t) ∷ fs)
    → (q : DeliveryRecord) × (get id (fail_each id ((failure, t) ∷ fs) s).records ≡ some q)
      × (q.status ≡ dead)
retries_end id failure t fs s r h n = fail_each-dead id failure t fs s r h (omega arith)

-- A delivery that was sent is due for its installation exactly from the end of its back-off until
-- it expires.
sent_record-is_due :
    (t now : Time) (r : DeliveryRecord)
    → is_due r.installation_id now (sent_record t r)
      ≡ (leb (t + retry_delay (r.attempt_count + 1)) now && ltb now r.expires_at)
unfolding sent_record is_due
sent_record-is_due t now r = ground (arith, eq_refl r.installation_id)

-- What Ack makes of a stored delivery.
pub get-ack :
    (i e id : String) (t : Time) (s : DeliveryStore) (r : DeliveryRecord)
    → get id s.records ≡ some r
    → get id (ack i e t s).0.records ≡ some (if matches i e r then acked_record t r else r)
unfolding ack
get-ack i e id t s r h = elim (Bool-cases (any (λ _ q. matches i e q) s.records)) [
  | inl found ↦
      rw (found, if◌then◌else◌)
        (get-update (λ _ q. if matches i e q then acked_record t q else q) id s.records ∙ rw h)
  | inr none_there ↦
      rw (none_there, if◌then◌else◌)
        (ground (arith, any_of_get (λ _ q. matches i e q) id r s.records h, none_there, h))
]

get-mark_sent :
    (id : String) (t : Time) (s : DeliveryStore) (r : DeliveryRecord)
    → get id s.records ≡ some r
    → get id (mark_sent id t s).0.records ≡ some (sent_record t r)
unfolding mark_sent
get-mark_sent id t s r h = rw (h, mark_sent) (get-put_self id _ s.records)

matches_self : (r : DeliveryRecord) → matches r.installation_id r.event_id r ≡ true
matches_self r = rw (eq_refl r.installation_id, eq_refl r.event_id)

sent_record-status : (t : Time) (r : DeliveryRecord) → (sent_record t r).status ≡ sent
unfolding sent_record
sent_record-status t r = refl

-- MarkSent does not look at the status: a stored delivery that its installation acknowledges
-- before it is marked as sent is sent, not acknowledged, and due again for the installation after
-- the back-off, until it expires.
pub ack_undone_by_mark_sent :
    (id : String) (acked_at sent_at now : Time) (s : DeliveryStore) (r : DeliveryRecord)
    → get id s.records ≡ some r
    → sent_at + retry_delay (r.attempt_count + 1) ≤ now
    → now < r.expires_at
    → let s' = (mark_sent id sent_at (ack r.installation_id r.event_id acked_at s).0).0 in
      (q : DeliveryRecord) × (get id s'.records ≡ some q)
      × (q.status ≡ sent)
      × (is_due r.installation_id now q ≡ true)
ack_undone_by_mark_sent id acked_at sent_at now s r h late live =
    (sent_record sent_at (acked_record acked_at r), stored, sent_status, due)
  where
    s₁ : DeliveryStore
    s₁ = (ack r.installation_id r.event_id acked_at s).0

    acked_now : get id s₁.records ≡ some (acked_record acked_at r)
    acked_now =
        get-ack r.installation_id r.event_id id acked_at s r h ∙ rw (matches_self r, if◌then◌else◌)

    stored :
        get id (mark_sent id sent_at s₁).0.records
        ≡ some (sent_record sent_at (acked_record acked_at r))
    stored = get-mark_sent id sent_at s₁ (acked_record acked_at r) acked_now

    sent_status : (sent_record sent_at (acked_record acked_at r)).status ≡ sent
    sent_status = sent_record-status sent_at (acked_record acked_at r)

    due : is_due r.installation_id now (sent_record sent_at (acked_record acked_at r)) ≡ true
    due = ground (arith, sent_record-is_due sent_at now (acked_record acked_at r))
