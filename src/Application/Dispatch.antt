-- ===== src/Application/Dispatch.antt =====
-- internal/application/delivery_dispatch.go, the flush of push_socket.go, and processEventSubNotification of
-- eventsub.go: an event becomes deliveries, and they go to the devices. A call reads the clock once.
pub mod Kept
pub mod Steps
pub mod States
pub mod Worker
use Prim.Native.String.{◌++◌ as ◌<>◌}
use ferventio_backend.Base.{
  ℕ, suc, length, ◌+◌, ◌*◌, ◌/◌, String, Bool, true, false, not, ◌&&◌, ◌||◌, Option, none, some,
  List, [], ◌∷◌, ◌++◌, eqb, ◌==◌, if◌then◌else◌, Result, ok, err,
}
use ferventio_backend.Base.GoMap.{put}
use ferventio_backend.Base.Text.{decimal}
use ferventio_backend.Domain.Clock.{Time, Duration, millisecond, minute, hour}
use ferventio_backend.Domain.Delivery.{Notification, DeliveryRecord, pending}
use ferventio_backend.Domain.EventSub.{EventSubEnvelope}
use ferventio_backend.Domain.Json.{boolean}
use ferventio_backend.Domain.Registration.{Registration}
use ferventio_backend.Memory.Delivery.{DeliveryStore, DeliveryError}
use ferventio_backend.Memory.Delivery.Outbox.{
  enqueue, pending_for_installation, mark_sent, mark_failed, ack,
}
use ferventio_backend.Memory.Delivery.Channels.{Changes, channel_state_changes, save_channel_state}
use ferventio_backend.Memory.Registrations.{RegistrationStore, get_registration, list_registrations}
use ferventio_backend.Application.Audits.{AuditEntry, audit_entry}
use ferventio_backend.Application.PushSocket.Hub.{
  PushHub, SendError, not_connected, socket_failed, send_to,
}
use ferventio_backend.Application.EventSub.Values.{Event, string_value, join_with}
use ferventio_backend.Application.EventSub.Routing.{event_notification_for_registration}

-- The state that a delivery changes.
pub record DispatchState : Type 0 where
  pub deliveries : DeliveryStore
  pub hub : PushHub
  pub audits : List AuditEntry

-- What the server has from elsewhere: the JSON of a socket's notification, the text of a socket's
-- error, the sender of pushes, whose error is a text, and the texts and tables of Go's library.
pub record Outside : Type 0 where
  pub socket_message : Notification → List ℕ
  pub socket_error : SendError → String
  pub push_sender : Option (Registration → Notification → Option String)
  pub store_error : DeliveryError → String
  -- time.UnixMilli
  pub unix_milli : Time → ℕ
  pub to_lower : String → String
  pub equal_fold : String → String → Bool
  pub format_number : String → String
  pub token_error : String
  -- randomToken with "pe_" and "pd_" for a registration; none is its error.
  pub event_token : Registration → Option String
  pub delivery_token : Registration → Option String

unfoldable pub notification_ttl : String → Duration
notification_ttl event_type =
    if event_type == "title_change" || event_type == "game_change"
    then 30 * minute
    else if event_type == "stream_online"
    then 2 * hour
    else 24 * hour

-- auditRecord, with the parts of a registration and its notification.
unfoldable pub audit_delivery :
    String → String → String → Registration → Notification → DispatchState → DispatchState
audit_delivery action status detail r n s = record s {
  audits =
      s.audits
      ++ record (audit_entry action status) {
        installation_id = r.installation_id;
        user_id = r.user_id;
        channel_id = n.channel_id;
        event_id = n.event_id;
        detail = detail;
      }
        ∷ [];
}

abbrev pub audit_event : String → String → String → String → DispatchState → DispatchState
audit_event status message_id channel_id detail s = record s {
  audits =
      s.audits
      ++ record (audit_entry "eventsub.process" status) {
        event_id = message_id;
        channel_id = channel_id;
        detail = detail;
      }
        ∷ [];
}

abbrev pub with_changes : Changes → Event → Event
with_changes c event =
    put "_ferventio_game_changed" (boolean c.game_changed)
      (put "_ferventio_title_changed" (boolean c.title_changed) event)

module _ (o : Outside) where
  -- The send of one delivery: the state after it, and whether the flush goes on.
  unfoldable pub send_on_socket :
      Registration → DeliveryRecord → Notification → Time → DispatchState → DispatchState × Bool
  send_on_socket r d payload now s =
      let (hub, failed) = send_to r.installation_id (o.socket_message payload) s.hub in
      let s' = record s { hub = hub } in
      elim failed [
        | none ↦ (record s' { deliveries = (mark_sent d.id now s.deliveries).0 }, true)
        | some not_connected ↦ (s', false)
        | some (socket_failed e) ↦ (
          record s' {
            deliveries = (mark_failed d.id (o.socket_error (socket_failed e)) now s.deliveries).0;
          },
          false,
        )
      ]

  abbrev pub sender_error : Registration → Notification → Option String
  sender_error r payload = elim o.push_sender [
    | none ↦ some "push sender is not configured"
    | some send ↦ send r payload
  ]

  unfoldable pub send_by_push :
      Registration → DeliveryRecord → Notification → Time → DispatchState → DispatchState × Bool
  send_by_push r d payload now s = elim (sender_error r payload) [
    | some failure ↦ (
      audit_delivery "push.delivery.send" "failed" failure r payload
          (record s { deliveries = (mark_failed d.id failure now s.deliveries).0 }),
      false,
    )
    | none ↦
        let sent = (mark_sent d.id now s.deliveries).0 in
        (
          audit_delivery "push.delivery.send" "acked" payload.type_name r payload
              (record s { deliveries = (ack r.installation_id d.event_id now sent).0 }),
          true,
        )
  ]

  unfoldable pub send_delivery :
      Registration → DeliveryRecord → Time → DispatchState → DispatchState × Bool
  send_delivery r d now s =
      let payload = record d.notification { event_id = d.event_id } in
      if r.provider == "embedded_socket"
      then send_on_socket r d payload now s
      else send_by_push r d payload now s

  -- The loop of flushPending.
  unfoldable pub flush_records :
      Registration → List DeliveryRecord → Time → DispatchState → DispatchState
  flush_records r [] now s = s
  flush_records r (d ∷ ds) now s =
      let (s', go_on) = send_delivery r d now s in
      let rest = flush_records r ds now s' in if go_on then rest else s'

  unfoldable pub flush_pending : String → RegistrationStore → Time → DispatchState → DispatchState
  flush_pending installation_id registrations now s =
      elim (get_registration installation_id registrations) [
        | err e ↦ s
        | ok r ↦
            flush_records r (pending_for_installation installation_id 100 now s.deliveries) now s
      ]

  -- The notification with what it lacks.
  unfoldable pub completed_notification : String → Time → Notification → Notification
  completed_notification event_id now n = record n {
    event_id = event_id;
    type_name = if n.type_name == "" then "generic" else n.type_name;
    created_at_epoch_millis =
        if eqb n.created_at_epoch_millis 0 then o.unix_milli now else n.created_at_epoch_millis;
  }

  abbrev pub new_delivery : String → Registration → Notification → Time → DeliveryRecord
  new_delivery id r n now = record {
    id = id;
    event_id = n.event_id;
    installation_id = r.installation_id;
    notification = n;
    status = pending;
    attempt_count = 0;
    available_at = now;
    expires_at = now + notification_ttl n.type_name;
    created_at = now;
    sent_at = 0;
    acked_at = 0;
    last_error = "";
  }

  -- Enqueue, the audit of a new delivery, and the flush.
  unfoldable pub enqueue_and_flush :
      Registration
      → Notification
      → String
      → RegistrationStore
      → Time
      → DispatchState
      → DispatchState × Option String
  enqueue_and_flush r n id registrations now s =
      let (deliveries, stored) = enqueue (new_delivery id r n now) now s.deliveries in
      let s' = record s { deliveries = deliveries } in
      let audited = audit_delivery "push.delivery.enqueue" "pending" n.type_name r n s' in
      elim stored [
        | err e ↦ (s', some ("enqueue notification: " <> o.store_error e))
        | ok (d, created) ↦ (
          flush_pending r.installation_id registrations now (if created then audited else s'),
          none,
        )
      ]

  unfoldable pub deliver_to_registration :
      Registration
      → Notification
      → RegistrationStore
      → Time
      → DispatchState
      → DispatchState × Option String
  deliver_to_registration r n registrations now s =
      let event_id = if n.event_id == "" then o.event_token r else some n.event_id in
      elim event_id [
        | none ↦ (s, some ("create event id: " <> o.token_error))
        | some id ↦ elim (o.delivery_token r) [
          | none ↦ (s, some ("create delivery id: " <> o.token_error))
          | some delivery_id ↦
              enqueue_and_flush r (completed_notification id now n) delivery_id registrations now s
        ]
      ]

  -- The loop over the registrations: the state, the matches and the failed deliveries.
  unfoldable pub deliver_all :
      String
      → String
      → Event
      → List Registration
      → RegistrationStore
      → Time
      → DispatchState
      → DispatchState × ℕ × List String
  deliver_all message_id type_name event [] registrations now s = (s, 0, [])
  deliver_all message_id type_name event (r ∷ rs) registrations now s =
      elim (event_notification_for_registration o.to_lower o.equal_fold o.format_number
        (o.unix_milli now) message_id type_name event r) [
          | none ↦ deliver_all message_id type_name event rs registrations now s
          | some n ↦
              let (s', failed) = deliver_to_registration r n registrations now s in
              let (s'', matched, errors) =
                deliver_all message_id type_name event rs registrations now s' in
              elim failed [
                | none ↦ (s'', suc matched, errors)
                | some e ↦ (s'', suc matched, (r.installation_id <> ": " <> e) ∷ errors)
              ]
        ]

  -- What follows the loop: the audit, and the channel's state if there is one to save. The error is its
  -- text, in which errors.Join puts each error on a line.
  unfoldable pub conclude :
      String
      → String
      → Option (String × String × String)
      → Time
      → DispatchState × ℕ × List String
      → DispatchState × Option String
  conclude message_id type_name change now (s, matched, e ∷ errors) = (
    audit_event "retry_pending" message_id ""
        ("type="
          <> type_name
          <> " matched="
          <> decimal matched
          <> " failed="
          <> decimal (length (e ∷ errors)))
        s,
    some (join_with "\n" (e ∷ errors)),
  )
  conclude message_id type_name none now (s, matched, []) = (
    audit_event "processed" message_id "" ("type=" <> type_name <> " matched=" <> decimal matched)
        s,
    none,
  )
  conclude message_id type_name (some (channel_id, title, category)) now (s, matched, []) =
      let (deliveries, failed) = save_channel_state channel_id title category now s.deliveries in
      let s' = record s { deliveries = deliveries } in
      elim failed [
        | some e ↦ (s', some ("save channel notification state: " <> o.store_error e))
        | none ↦ (
          audit_event "processed" message_id ""
              ("type=" <> type_name <> " matched=" <> decimal matched) s',
          none,
        )
      ]

  unfoldable pub process_changes :
      String
      → EventSubEnvelope
      → Changes
      → RegistrationStore
      → Time
      → DispatchState
      → DispatchState × Option String
  process_changes message_id envelope changes registrations now s =
      let type_name = envelope.subscription.type_name in
      let channel_id = string_value envelope.event "broadcaster_user_id" in
      let title = string_value envelope.event "title" in
      let category = string_value envelope.event "category_name" in
      let (deliveries, failed) = save_channel_state channel_id title category now s.deliveries in
      let saved = record s { deliveries = deliveries } in
      if changes.initialized
      then elim failed [
        | some e ↦ (saved, some ("initialize channel notification state: " <> o.store_error e))
        | none ↦ (audit_event "state_initialized" message_id channel_id type_name saved, none)
      ]
      else if not changes.title_changed && not changes.game_changed
      then (audit_event "unchanged" message_id channel_id type_name s, none)
      else conclude message_id type_name (some (channel_id, title, category)) now (
          deliver_all message_id type_name (with_changes changes envelope.event)
            (list_registrations registrations) registrations now s)

  unfoldable pub process_event_sub_notification :
      String
      → EventSubEnvelope
      → RegistrationStore
      → Time
      → DispatchState
      → DispatchState × Option String
  process_event_sub_notification message_id envelope registrations now s =
      let type_name = envelope.subscription.type_name in
      let channel_id = string_value envelope.event "broadcaster_user_id" in
      let title = string_value envelope.event "title" in
      let category = string_value envelope.event "category_name" in
      if type_name == "channel.update"
      then elim (channel_state_changes channel_id title category s.deliveries) [
        | err e ↦ (s, some ("inspect channel notification state: " <> o.store_error e))
        | ok changes ↦ process_changes message_id envelope changes registrations now s
      ]
      else conclude message_id type_name none now (
          deliver_all message_id type_name envelope.event (list_registrations registrations)
            registrations now s)
