-- ===== src/Memory/Delivery.antt =====
-- internal/storage/memory/delivery_store.go: the state, and the helpers that run under its lock.
-- `persistLocked` returns nil, so the branches that undo a change after its failure are unreachable
-- and have no model.
pub mod Outbox
pub mod Inbox
pub mod Channels
pub mod Seen
pub mod Run
use ferventio_backend.Base.{
  ℕ, ◌+◌, ◌-◌, ◌*◌, ◌^◌, String, Bool, not, ◌&&◌, ◌||◌, List, [], ◌∷◌, ltb, leb, eqb, min, ◌==◌,
  if◌then◌else◌, select,
}
use ferventio_backend.Base.GoMap.{GoMap, put, delete, retain, update, values, size}
use ferventio_backend.Memory.Trim.{trim}
use ferventio_backend.Domain.Clock.{Time, Duration, is_zero, before, second, hour, week}
use ferventio_backend.Domain.Delivery.{
  DeliveryRecord, EventSubInboxRecord, ChannelNotificationState, dead, is_acked, is_dead,
  max_delivery_records, max_seen_event_records, max_event_sub_inbox_records,
}

pub record DeliveryStore : Type 0 where
  pub records : GoMap DeliveryRecord
  pub seen : GoMap Time
  pub event_sub_inbox : GoMap EventSubInboxRecord
  pub channel_states : GoMap ChannelNotificationState

pub data DeliveryError : Type 0 where
  ids_required queue_full message_id_required inbox_full channel_id_required not_found :
      DeliveryError

abbrev pub new_memory_delivery_store : DeliveryStore
new_memory_delivery_store = record {
  records = [];
  seen = [];
  event_sub_inbox = [];
  channel_states = [];
}

unfoldable pub min_int : ℕ → ℕ → ℕ
min_int left right = if ltb left right then left else right

-- `1 << n` is `2 ^ n`. An attempt below 1 counts as the first.
unfoldable pub retry_delay : ℕ → Duration
unfolding min_int
retry_delay attempt =
    let attempt' = if ltb attempt 1 then 1 else attempt in 2 ^ min_int (attempt' - 1) 6 * second

abbrev pub completed : DeliveryRecord → Bool
completed r = is_acked r.status || is_dead r.status

abbrev pub older_record : DeliveryRecord → DeliveryRecord → Bool
older_record a b = before a.created_at b.created_at

unfoldable pub trim_completed_deliveries : ℕ → GoMap DeliveryRecord → GoMap DeliveryRecord
trim_completed_deliveries = trim (λ r. r.id) completed older_record

abbrev pub older_item : EventSubInboxRecord → EventSubInboxRecord → Bool
older_item a b = before a.received_at b.received_at

abbrev pub is_dead_item : EventSubInboxRecord → Bool
is_dead_item r = is_dead r.status

unfoldable pub trim_dead_event_sub_inbox : ℕ → GoMap EventSubInboxRecord → GoMap EventSubInboxRecord
trim_dead_event_sub_inbox = trim (λ r. r.message_id) is_dead_item older_item

unfoldable pub cleanup_seen : Time → Duration → GoMap Time → GoMap Time
cleanup_seen now ttl = retain (λ _ timestamp. not (ltb ttl (now - timestamp)))

-- One step of the search for the oldest entry: the best key so far and its time, against the next.
unfoldable pub older_of : String × Time → String × Time → String × Time
older_of best entry = if best.0 == "" || before entry.1 best.1 then entry else best

unfoldable pub oldest_from : String × Time → GoMap Time → String × Time
unfolding older_of
oldest_from best [] = best
oldest_from best (entry ∷ m) = oldest_from (older_of best entry) m

unfoldable pub add_seen_event_sub : String → Time → GoMap Time → GoMap Time
unfolding oldest_from
add_seen_event_sub message_id now seen = put message_id now (
    if leb max_seen_event_records (size seen)
    then delete (oldest_from ("", 0) seen).0 seen
    else seen)

-- A delivery that has run out of time is dead, unless it was acknowledged.
unfoldable pub expire_record : Time → DeliveryRecord → DeliveryRecord
expire_record now r =
    if not (before now r.expires_at) && not (is_acked r.status)
    then record r { status = dead }
    else r

unfoldable pub is_stale_record : Time → DeliveryRecord → Bool
is_stale_record now r =
    (is_acked r.status && not (is_zero r.acked_at) && ltb week (now - r.acked_at))
    || (is_dead r.status && ltb week (now - r.created_at))

abbrev pub expired_message : String
expired_message = "EventSub inbox item expired before processing"

unfoldable pub expire_item : Time → EventSubInboxRecord → EventSubInboxRecord
expire_item now r =
    if not (before now r.expires_at) && not (is_dead r.status)
    then record r { status = dead; last_error = expired_message }
    else r

unfoldable pub is_stale_item : Time → EventSubInboxRecord → Bool
is_stale_item now r = is_dead r.status && ltb week (now - r.received_at)

abbrev pub at_most {ℓ} : {V : Type ℓ} → ℕ → (ℕ → GoMap V → GoMap V) → GoMap V → GoMap V
at_most limit trim m = if ltb limit (size m) then trim limit m else m

-- Each entry is written and deleted on its own, so the two effects of one loop are two passes.
unfoldable pub cleanup : Time → DeliveryStore → DeliveryStore
unfolding expire_record is_stale_record expire_item is_stale_item cleanup_seen
cleanup now s = record s {
  records =
      at_most max_delivery_records trim_completed_deliveries (
        retain (λ _ r. not (is_stale_record now r))
          (update (λ _ r. expire_record now r) s.records));
  event_sub_inbox = at_most max_event_sub_inbox_records trim_dead_event_sub_inbox (
      retain (λ _ r. not (is_stale_item now r))
        (update (λ _ r. expire_item now r) s.event_sub_inbox));
  seen = cleanup_seen now (24 * hour) s.seen;
}
