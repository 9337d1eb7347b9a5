-- ===== src/Tests/Events.antt =====
-- internal/application/eventsub.go: the routing, the queue and the processing of events.
use ferventio_backend.Base.{
  false, ◌*◌, ◌+◌, ◌≡◌, refl, String, Bool, true, ◌⊎◌, Option, none, some, [], ◌∷◌, ◌==◌,
  if◌then◌else◌,
}
use ferventio_backend.Base.Text.{trim_space}
use ferventio_backend.Base.GoMap.{get, has, values}
use ferventio_backend.Domain.Clock.{second}
use ferventio_backend.Domain.Json.{text}
use ferventio_backend.Domain.EventSub.{EventSubEnvelope}
use ferventio_backend.Domain.Delivery.{Notification, EventSubInboxRecord}
use ferventio_backend.Memory.Delivery.Inbox.{failed_item}
use ferventio_backend.Domain.Registration.{Registration}
use ferventio_backend.Memory.Delivery.{new_memory_delivery_store}
use ferventio_backend.Memory.Delivery.Channels.{channel_state_changes, save_channel_state}
use ferventio_backend.Memory.Registrations.{RegistrationStore, list_registrations}
use ferventio_backend.Application.PushSocket.Hub.{new_push_hub}
use ferventio_backend.Application.EventSub.Values.{
  Event, string_value, first_non_blank, contains_string, join_with,
}
use ferventio_backend.Application.EventSub.Rules.{
  rule_enabled, rule_configured_for_channel, rule_enabled_for_channel,
}
use ferventio_backend.Application.EventSub.Routing.{
  base_notification, online_notification, if_wanted, typed_notification,
  event_notification_for_registration,
}
use ferventio_backend.Application.EventSub.Wanted.{notification_is_wanted}
use ferventio_backend.Application.EventSub.Queue.{
  EventQueue, new_event_queue, schedule_event_sub, receive,
}
use ferventio_backend.Application.EventSub.Queue.Once.{
  opened, scheduled, received, occurrences, handled_once,
}
use ferventio_backend.Application.Dispatch.{
  DispatchState, Outside, conclude, deliver_all, deliver_to_registration, process_changes,
  process_event_sub_notification,
}
use ferventio_backend.Application.Dispatch.States.{
  failed_event_keeps_channels, processed_change_notifies_once,
}
use ferventio_backend.Application.Dispatch.Worker.{
  WorkerState, handle_queued_event_sub, handled_is_settled,
}
use ferventio_backend.Tests.Samples.{phone, item, one_item, envelope}
use ferventio_backend.Tests.Sockets.{sockets}

abbrev follower : Registration
follower = record (phone "s") { channel_ids = "c" ∷ [] }

abbrev online : Event
online = ("broadcaster_user_id", text "c") ∷ ("broadcaster_user_login", text "casts") ∷ []

abbrev no_fold : String → String → Bool
no_fold s t = s == t

abbrev plain : String → String
plain s = s

abbrev online_notice : Notification
online_notice = online_notification (base_notification 5 "e" online) online

notified :
    event_notification_for_registration plain no_fold plain 5 "e" "stream.online" online follower
    ≡ some online_notice
unfolding event_notification_for_registration typed_notification if_wanted online_notification
    rule_enabled_for_channel rule_configured_for_channel rule_enabled contains_string
    first_non_blank string_value get trim_space
notified = refl

notification_is_wanted_example :
    (online_notice.event_id ≡ "e")
    × (rule_enabled_for_channel 5 follower online_notice.type_name online_notice.channel_id ≡ true)
    × ((online_notice.channel_id ≡ "")
        ⊎ (contains_string follower.channel_ids online_notice.channel_id ≡ true))
notification_is_wanted_example =
    notification_is_wanted plain no_fold plain 5 follower "e" "stream.online" online online_notice
      notified

-- A queue of one message, which a worker has received.
abbrev filled : EventQueue
filled = (schedule_event_sub item (new_event_queue 4)).0

handled_once_example :
    occurrences "m1" (receive filled).event_queue + occurrences "m1" (receive filled).working
    ≡ (if has "m1" (receive filled).event_in_flight then 1 else 0)
handled_once_example =
    handled_once 4 (receive filled) "m1"
      (received filled (scheduled (new_event_queue 4) item opened))

abbrev busy : EventQueue
busy = record {
  event_queue = [];
  capacity = 4;
  event_in_flight = ("m1", true) ∷ [];
  working = record { message_id = "m1"; envelope = envelope } ∷ [];
}

-- A server with no sender of pushes, whose random tokens fail or do not.
abbrev outside : Option String → Outside
outside token = record {
  socket_message = λ n. [];
  socket_error = λ e. "closed";
  push_sender = none;
  store_error = λ e. "full";
  unix_milli = λ t. t;
  to_lower = plain;
  equal_fold = no_fold;
  format_number = plain;
  token_error = "entropy";
  event_token = λ r. token;
  delivery_token = λ r. token;
}

abbrev idle : DispatchState
idle = record { deliveries = new_memory_delivery_store; hub = new_push_hub sockets; audits = [] }

abbrev one_follower : RegistrationStore
one_follower = record { registrations = ("phone", follower) ∷ [] }

abbrev message : String → Event → EventSubEnvelope
message type_name event = record envelope {
  subscription = record envelope.subscription { type_name = type_name };
  event = event;
}

no_token :
    (process_event_sub_notification
      (outside none)
      "m1"
      (message "stream.online" online)
      one_follower
      second
      idle).1
    ≡ some "phone: create delivery id: entropy"
unfolding process_event_sub_notification conclude deliver_all deliver_to_registration
    list_registrations join_with event_notification_for_registration typed_notification if_wanted
    online_notification rule_enabled_for_channel rule_configured_for_channel rule_enabled
    contains_string first_non_blank string_value get values trim_space
no_token = refl

failed_event_keeps_channels_example :
    (process_event_sub_notification
      (outside none)
      "m1"
      (message "stream.online" online)
      one_follower
      second
      idle).0.deliveries.channel_states
    ≡ idle.deliveries.channel_states
failed_event_keeps_channels_example =
    failed_event_keeps_channels (outside none) "m1" (message "stream.online" online) one_follower
      second idle "phone: create delivery id: entropy" no_token

abbrev update_of_c : EventSubEnvelope
update_of_c =
    message "channel.update"
      (("broadcaster_user_id", text "c") ∷ ("title", text "t") ∷ ("category_name", text "g") ∷ [])

first_update :
    (process_event_sub_notification (outside none) "m2" update_of_c one_follower second idle).1
    ≡ none
unfolding process_event_sub_notification process_changes channel_state_changes save_channel_state
    string_value get trim_space
first_update = refl

abbrev updated : DispatchState
updated =
    (process_event_sub_notification (outside none) "m2" update_of_c one_follower second idle).0

abbrev again : DispatchState × Option String
again =
    process_event_sub_notification (outside none) "m3" update_of_c one_follower (2 * second) updated

processed_change_notifies_once_example :
    (again.1 ≡ none) × (again.0.deliveries ≡ updated.deliveries) × (again.0.hub ≡ updated.hub)
processed_change_notifies_once_example =
    processed_change_notifies_once (outside none) "m2" "m3" update_of_c one_follower one_follower
      second (2 * second) idle refl first_update

-- A worker has the message of the inbox, and no token for a delivery: the processing fails.
abbrev at_work : WorkerState
at_work = record { queue = busy; dispatch = record idle { deliveries = one_item } }

abbrev online_of_c : EventSubEnvelope
online_of_c = message "stream.online" online

abbrev attempt : DispatchState × Option String
attempt =
    process_event_sub_notification (outside none) "m1" online_of_c one_follower second
      at_work.dispatch

abbrev handled : WorkerState
handled = handle_queued_event_sub (outside none) "m1" online_of_c one_follower second at_work

handled_is_settled_example :
    (has "m1" handled.queue.event_in_flight ≡ false)
    × (((attempt.1 ≡ none) × (get "m1" handled.dispatch.deliveries.event_sub_inbox ≡ none))
        ⊎ ((error : String) × (attempt.1 ≡ some error)
            × ((r : EventSubInboxRecord)
                → get "m1" attempt.0.deliveries.event_sub_inbox ≡ some r
                → get "m1" handled.dispatch.deliveries.event_sub_inbox
                  ≡ some (failed_item (some error) second r))))
handled_is_settled_example =
    handled_is_settled (outside none) "m1" online_of_c one_follower second at_work
