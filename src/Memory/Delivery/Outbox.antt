-- ===== src/Memory/Delivery/Outbox.antt =====
-- internal/storage/memory/delivery_store.go: the deliveries, from Enqueue to DeleteForInstallation.
pub mod Invariant
pub mod Preserves
pub mod Retry
pub mod Pending
pub mod Acks
pub mod Enqueue
use ferventio_backend.Base.{
  ℕ, ◌+◌, ◌-◌, ◌*◌, String, Bool, true, false, not, ◌&&◌, ◌||◌, Option, none, some, List, [], ltb,
  leb, eqb, ◌==◌, if◌then◌else◌, select, take, length,
}
use ferventio_backend.Base.{Result, ok, err}
use ferventio_backend.Base.GoMap.{get, put, delete, retain, update, values, size, find, any}
use ferventio_backend.Base.GoMap.Sizes.{count_if}
use ferventio_backend.Base.Sort.{sort}
use ferventio_backend.Base.Text.{str_lt}
use ferventio_backend.Domain.Clock.{Time, is_zero, before, after, hour}
use ferventio_backend.Domain.Delivery.{
  DeliveryRecord, pending, sent, acked, dead, is_unset, is_acked, is_dead, max_delivery_records,
}
use ferventio_backend.Memory.Delivery.{
  DeliveryStore, DeliveryError, ids_required, queue_full, not_found, retry_delay, cleanup,
  trim_completed_deliveries,
}

abbrev pub matches : String → String → DeliveryRecord → Bool
matches installation_id event_id r = r.installation_id == installation_id && r.event_id == event_id

-- The defaults of the fields that the caller left out.
unfoldable pub with_defaults : Time → DeliveryRecord → DeliveryRecord
with_defaults now r = record r {
  status = if is_unset r.status then pending else r.status;
  created_at = if is_zero r.created_at then now else r.created_at;
  available_at = if is_zero r.available_at then now else r.available_at;
  expires_at = if is_zero r.expires_at then now + 24 * hour else r.expires_at;
}

-- Room for one more, made from completed deliveries when the queue is full.
unfoldable pub make_room : DeliveryStore → DeliveryStore
make_room s =
    if leb max_delivery_records (size s.records)
    then record s { records = trim_completed_deliveries (max_delivery_records - 1) s.records }
    else s

unfoldable pub store_record : DeliveryRecord → DeliveryStore → DeliveryStore
store_record r s = record s { records = put r.id r s.records }

unfoldable pub insert_new :
    DeliveryRecord → DeliveryStore → DeliveryStore × Result DeliveryError (DeliveryRecord × Bool)
unfolding make_room store_record
insert_new r s =
    let s' = make_room s in
    if leb max_delivery_records (size s'.records)
    then (s', err queue_full)
    else (store_record r s', ok (r, true))

unfoldable pub missing_ids : DeliveryRecord → Bool
missing_ids r = r.id == "" || r.event_id == "" || r.installation_id == ""

-- The record that is stored for this event, and whether this call has stored it.
unfoldable pub enqueue :
    DeliveryRecord
    → Time
    → DeliveryStore
    → DeliveryStore × Result DeliveryError (DeliveryRecord × Bool)
unfolding with_defaults insert_new missing_ids
enqueue r now s =
    let s' = cleanup now s in
    elim (find (λ _ r'. matches r.installation_id r.event_id r') s'.records) [
      | some existing ↦ (s', ok (existing, false))
      | none ↦ if missing_ids r then (s', err ids_required) else insert_new (with_defaults now r) s'
    ]

abbrev pub page_limit : ℕ → ℕ
page_limit limit = if eqb limit 0 || ltb 1_000 limit then 200 else limit

abbrev pub newest_first : DeliveryRecord → DeliveryRecord → Bool
newest_first a b =
    if eqb a.created_at b.created_at then str_lt b.id a.id else after a.created_at b.created_at

-- List and ListDeliveries
unfoldable pub list_deliveries : ℕ → DeliveryStore → List DeliveryRecord
list_deliveries limit s = take (page_limit limit) (sort newest_first (values s.records))

abbrev pub oldest_first : DeliveryRecord → DeliveryRecord → Bool
oldest_first a b =
    if eqb a.created_at b.created_at then str_lt a.id b.id else before a.created_at b.created_at

unfoldable pub is_due : String → Time → DeliveryRecord → Bool
is_due installation_id now r =
    not (not (r.installation_id == installation_id) || is_acked r.status || is_dead r.status)
    && not (before now r.available_at || not (before now r.expires_at))

unfoldable pub pending_for_installation : String → ℕ → Time → DeliveryStore → List DeliveryRecord
unfolding is_due
pending_for_installation installation_id limit now s =
    take (if eqb limit 0 then 100 else limit)
      (sort oldest_first (select (is_due installation_id now) (values s.records)))

unfoldable pub sent_record : Time → DeliveryRecord → DeliveryRecord
sent_record sent_at r = record r {
  status = sent;
  attempt_count = r.attempt_count + 1;
  sent_at = sent_at;
  last_error = "";
  available_at = sent_at + retry_delay (r.attempt_count + 1);
}

unfoldable pub mark_sent : String → Time → DeliveryStore → DeliveryStore × Option DeliveryError
unfolding sent_record
mark_sent id sent_at s = elim (get id s.records) [
  | none ↦ (s, some not_found)
  | some r ↦ (record s { records = put id (sent_record sent_at r) s.records }, none)
]

unfoldable pub failed_record : String → Time → DeliveryRecord → DeliveryRecord
failed_record failure failed_at r =
    let r' = record r { attempt_count = r.attempt_count + 1; last_error = failure } in
    if leb 8 (r.attempt_count + 1) || not (before failed_at r.expires_at)
    then record r' { status = dead }
    else record r' {
      status = pending;
      available_at = failed_at + retry_delay (r.attempt_count + 1);
    }

unfoldable pub mark_failed :
    String → String → Time → DeliveryStore → DeliveryStore × Option DeliveryError
unfolding failed_record
mark_failed id failure failed_at s = elim (get id s.records) [
  | none ↦ (s, some not_found)
  | some r ↦ (record s { records = put id (failed_record failure failed_at r) s.records }, none)
]

abbrev pub acked_record : Time → DeliveryRecord → DeliveryRecord
acked_record acked_at r = record r { status = acked; acked_at = acked_at; last_error = "" }

-- The time up to which AckThrough acknowledges: that of the event, or the zero time.
unfoldable pub ack_target : String → String → DeliveryStore → Time
ack_target installation_id event_id s =
    elim (find (λ _ r. matches installation_id event_id r) s.records) [
      | none ↦ 0
      | some r ↦ r.created_at
    ]

unfoldable pub ack_through :
    String → String → Time → DeliveryStore → DeliveryStore × Option DeliveryError
unfolding ack_target
ack_through installation_id event_id acked_at s =
    let target = ack_target installation_id event_id s in
    let ack_one = λ (id : String) (r : DeliveryRecord).
      (if not (r.installation_id == installation_id) || after r.created_at target
        then r
        else acked_record acked_at r) in
    if is_zero target
    then (s, some not_found)
    else (record s { records = update ack_one s.records }, none)

unfoldable pub ack : String → String → Time → DeliveryStore → DeliveryStore × Option DeliveryError
ack installation_id event_id acked_at s =
    if any (λ _ r. matches installation_id event_id r) s.records
    then (
      record s {
        records =
            update
              (λ _ r. if matches installation_id event_id r then acked_record acked_at r else r)
              s.records;
      },
      none,
    )
    else (s, some not_found)

-- The number of deleted deliveries; the store never fails here.
unfoldable pub delete_for_installation : String → DeliveryStore → DeliveryStore × ℕ
delete_for_installation installation_id s = (
  record s { records = retain (λ _ r. not (r.installation_id == installation_id)) s.records },
  count_if (λ _ r. r.installation_id == installation_id) s.records,
)
