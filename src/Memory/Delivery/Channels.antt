-- ===== src/Memory/Delivery/Channels.antt =====
-- internal/storage/memory/delivery_store.go: the last announced title and category of each channel.
pub mod Kept
use ferventio_backend.Base.{
  String, Bool, true, false, not, Option, none, some, ◌==◌, if◌then◌else◌, Result, ok, err,
}
use ferventio_backend.Base.GoMap.{get, put}
use ferventio_backend.Domain.Clock.{Time}
use ferventio_backend.Memory.Delivery.{DeliveryStore, DeliveryError, channel_id_required}

pub record Changes : Type 0 where
  pub title_changed : Bool
  pub game_changed : Bool
  pub initialized : Bool

unfoldable pub channel_state_changes :
    String → String → String → DeliveryStore → Result DeliveryError Changes
channel_state_changes channel_id title category_name s =
    if channel_id == "" then err channel_id_required else elim (get channel_id s.channel_states) [
      | none ↦ ok (record { title_changed = false; game_changed = false; initialized = true })
      | some previous ↦ ok (record {
        title_changed = not (previous.title == title);
        game_changed = not (previous.category_name == category_name);
        initialized = false;
      })
    ]

unfoldable pub save_channel_state :
    String → String → String → Time → DeliveryStore → DeliveryStore × Option DeliveryError
save_channel_state channel_id title category_name now s =
    if channel_id == "" then (s, some channel_id_required) else (
      record s {
        channel_states =
            put channel_id
              (record { title = title; category_name = category_name; updated_at = now })
              s.channel_states;
      },
      none,
    )

unfoldable pub update_channel_state :
    String → String → String → Time → DeliveryStore → DeliveryStore × Result DeliveryError Changes
update_channel_state channel_id title category_name now s =
    elim (channel_state_changes channel_id title category_name s) [
      | err e ↦ (s, err e)
      | ok changes ↦
          (let (s', failed) = save_channel_state channel_id title category_name now s in
            elim failed [ some e ↦ (s', err e) | none ↦ (s', ok changes) ])
    ]
