-- ===== src/Application/EventSub/Routing.antt =====
-- internal/application/eventsub.go: the notification of an event for a registration. The time in
-- milliseconds is read once; no notification is none.
use mathlib.Core.Option
use Prim.Native.String.{◌++◌ as ◌<>◌}
use ferventio_backend.Base.{
  ℕ, String, Bool, false, not, ◌&&◌, ◌||◌, Option, none, some, [], ◌∷◌, ◌==◌, if◌then◌else◌,
}
use ferventio_backend.Base.Text.{trim_space}
use ferventio_backend.Base.GoMap.{get}
use ferventio_backend.Domain.Delivery.{Notification}
use ferventio_backend.Domain.Registration.{Registration}
use ferventio_backend.Application.EventSub.Values.{
  Event, string_value, nested_string, bool_value, number_string, first_non_blank, non_blank,
  join_with, contains_string, contains_mention, contains_any_phrase, contains_fold,
}
use ferventio_backend.Application.EventSub.Rules.{rule_enabled_for_channel}

-- The parts of an event that each case starts from.
abbrev pub channel_of : Event → String
channel_of event =
    first_non_blank
      (string_value event "broadcaster_user_id" ∷ string_value event "to_broadcaster_user_id" ∷ [])

abbrev pub login_of : Event → String
login_of event = first_non_blank (
    string_value event "broadcaster_user_login"
    ∷ string_value event "to_broadcaster_user_login"
    ∷ [])

abbrev pub name_of : Event → String
name_of event = first_non_blank (
    string_value event "broadcaster_user_name"
    ∷ string_value event "to_broadcaster_user_name"
    ∷ login_of event
    ∷ [])

abbrev pub user_of : Event → String
user_of event =
    first_non_blank (string_value event "user_name" ∷ string_value event "user_login" ∷ [])

abbrev pub base_notification : ℕ → String → Event → Notification
base_notification now event_id event = record {
  event_id = event_id;
  type_name = "";
  title = "";
  body = "";
  channel_id = channel_of event;
  channel_login = login_of event;
  message_id = "";
  actor_id = "";
  actor_login = "";
  actor_display_name = "";
  destination = "";
  silent = false;
  created_at_epoch_millis = now;
}

-- A notification, if its rule is enabled for its channel.
unfoldable pub if_wanted : ℕ → Registration → Notification → Option Notification
if_wanted now r n = if rule_enabled_for_channel now r n.type_name n.channel_id then some n else none

abbrev pub with_body : Option Notification → Option Notification
with_body none = none
with_body (some n) = if n.body == "" then none else some n

unfoldable pub auto_mod_notification : Notification → Event → Notification
auto_mod_notification base event = record base {
  type_name = "automod_hold";
  title = "AutoMod: " <> user_of event;
  body = nested_string event "message" "text";
  message_id = string_value event "message_id";
  destination = "moderation";
}

unfoldable pub ban_notification : Notification → Event → Notification
ban_notification base event =
    let timeout =
      not (bool_value event "is_permanent") || not (string_value event "ends_at" == "") in
    record base {
      type_name = if timeout then "timeout" else "ban";
      title = (if timeout then "Timeout" else "Блокировка") <> " в #" <> name_of event;
      body = user_of event;
      destination = "moderation";
    }

unfoldable pub moderate_notification : Notification → Event → Notification
moderate_notification base event = record base {
  type_name = "moderation_action";
  title = "Действие модерации в #" <> name_of event;
  body = first_non_blank (string_value event "action" ∷ "Изменение модерации" ∷ []);
  destination = "moderation";
}

unfoldable pub online_notification : Notification → Event → Notification
online_notification base event = record base {
  type_name = "stream_online";
  title = name_of event <> " начал трансляцию";
  body = "Канал сейчас онлайн";
}

unfoldable pub changed_notification : ℕ → Registration → Notification → Event → Option Notification
changed_notification now r base event =
    let can_title =
      bool_value event "_ferventio_title_changed"
      && rule_enabled_for_channel now r "title_change" base.channel_id in
    let can_game =
      bool_value event "_ferventio_game_changed"
      && rule_enabled_for_channel now r "game_change" base.channel_id in
    let title = string_value event "title" in
    let category = string_value event "category_name" in
    if can_title && can_game
    then some (record base {
      type_name = "title_change";
      title = "Title и game изменены: " <> name_of event;
      body = trim_space (join_with " · " (non_blank (title ∷ category ∷ [])));
    })
    else if can_title
    then some (record base {
      type_name = "title_change";
      title = "Новый title: " <> name_of event;
      body = title;
    })
    else if can_game
    then some (record base {
      type_name = "game_change";
      title = "Новая категория: " <> name_of event;
      body = category;
    })
    else none

unfoldable pub update_notification : ℕ → Registration → Notification → Event → Option Notification
update_notification now r base event = with_body (changed_notification now r base event)

unfoldable pub raid_notification : (String → String) → Notification → Event → Notification
raid_notification format base event = record base {
  type_name = "raid";
  title = "Raid на " <> name_of event;
  body =
      first_non_blank (
        string_value event "from_broadcaster_user_name"
        ∷ string_value event "from_broadcaster_user_login"
        ∷ [])
      <> " · зрителей: "
      <> number_string format (get "viewers" event);
}

unfoldable pub reward_notification : Notification → Event → Notification
reward_notification base event = record base {
  type_name = "reward";
  title = "Награда в #" <> name_of event;
  body = first_non_blank (
      nested_string event "reward" "title"
      ∷ string_value event "user_input"
      ∷ "Использована награда канала"
      ∷ []);
}

unfoldable pub subscription_notification : Notification → Event → Notification
subscription_notification base event = record base {
  type_name = "subscription";
  title = "Подписка в #" <> name_of event;
  body = first_non_blank (
      string_value event "user_name"
      ∷ string_value event "user_login"
      ∷ nested_string event "message" "text"
      ∷ "Новое событие подписки"
      ∷ []);
}

abbrev pub is_subscription_event : String → Bool
is_subscription_event type_name =
    type_name == "channel.subscribe"
    || type_name == "channel.subscription.message"
    || type_name == "channel.subscription.gift"
    || type_name == "channel.chat.notification"

abbrev pub author_name : Event → String
author_name event =
    first_non_blank
      (string_value event "chatter_user_name" ∷ string_value event "chatter_user_login" ∷ [])

module _ (to_lower : String → String) (equal_fold : String → String → Bool)
    (format : String → String) where
  -- The four rules of a chat message, in the order of the code.
  unfoldable pub chat_kind : ℕ → Registration → String → Event → String → Option (String × String)
  chat_kind now r channel_id event body =
      let wants : String → Bool = λ rule. rule_enabled_for_channel now r rule channel_id in
      let parent_id = nested_string event "reply" "parent_user_id" in
      let parent_login = nested_string event "reply" "parent_user_login" in
      if wants "reply" && not (r.user_id == "") && parent_id == r.user_id
      then some ("reply", "Ответ от ")
      else if wants "reply" && not (r.user_login == "") && equal_fold parent_login r.user_login
      then some ("reply", "Ответ от ")
      else if wants "mention" && contains_mention to_lower equal_fold body r.user_login
      then some ("mention", "Упоминание от ")
      else if wants "selected_user"
          && contains_fold to_lower equal_fold r.selected_user_logins
              (string_value event "chatter_user_login")
      then some ("selected_user", "Сообщение от ")
      else if wants "highlight" && contains_any_phrase to_lower equal_fold body r.highlight_phrases
      then some ("highlight", "Highlight: ")
      else none

  unfoldable pub chat_message_notification :
      ℕ → Registration → Notification → Event → Option Notification
  chat_message_notification now r base event =
      let body = nested_string event "message" "text" in
      let author_id = string_value event "chatter_user_id" in
      let kind = chat_kind now r base.channel_id event body in
      if body == "" || (not (r.user_id == "") && author_id == r.user_id)
      then none
      else Option.map
          (λ k. record base {
            type_name = k.0;
            title = k.1 <> author_name event;
            body = body;
            message_id = string_value event "message_id";
            actor_id = author_id;
            actor_login = string_value event "chatter_user_login";
            actor_display_name = author_name event;
            destination = "mentions";
          })
          kind

  -- The switch on the type of the subscription.
  unfoldable pub typed_notification :
      ℕ → String → Registration → Notification → Event → Option Notification
  typed_notification now type_name r base event =
      if type_name == "channel.chat.message"
      then chat_message_notification now r base event
      else if type_name == "automod.message.hold"
      then with_body (if_wanted now r (auto_mod_notification base event))
      else if type_name == "channel.ban"
      then if_wanted now r (ban_notification base event)
      else if type_name == "channel.moderate"
      then if_wanted now r (moderate_notification base event)
      else if type_name == "stream.online"
      then if_wanted now r (online_notification base event)
      else if type_name == "channel.update"
      then update_notification now r base event
      else if type_name == "channel.raid"
      then if_wanted now r (raid_notification format base event)
      else if type_name == "channel.channel_points_custom_reward_redemption.add"
      then if_wanted now r (reward_notification base event)
      else if is_subscription_event type_name
      then if_wanted now r (subscription_notification base event)
      else none

  unfoldable pub event_notification_for_registration :
      ℕ → String → String → Event → Registration → Option Notification
  event_notification_for_registration now event_id type_name event r =
      if not (channel_of event == "") && not (contains_string r.channel_ids (channel_of event))
      then none
      else typed_notification now type_name r (base_notification now event_id event) event
