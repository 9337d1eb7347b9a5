-- ===== src/Application/Webhook/Durable.antt =====
-- internal/application/eventsub.go: a notification that eventSubWebhook acknowledges is not lost.
use ferventio_backend.Base.{
  ◌*◌, leb, ◌≡◌, refl, sym, ◌∙◌, subst, not, String, Bool, true, ◌||◌, ◌⊎◌, inl, inr, arith, ◌==◌,
  if◌then◌else◌, Bool-cases, Option-cases, ok, Result-cases,
}
use ferventio_backend.Base.GoMap.{get, has, size, get-put_self, has_of_some}
use ferventio_backend.Base.Text.{trim_space}
use ferventio_backend.Domain.Clock.{Time, hour}
use ferventio_backend.Domain.Delivery.{EventSubInboxRecord, max_event_sub_inbox_records, is_pending}
use ferventio_backend.Domain.EventSub.{EventSubEnvelope}
use ferventio_backend.Memory.Delivery.{DeliveryStore}
use ferventio_backend.Memory.Delivery.Inbox.{
  Enqueued, created, queued, seen_before, enqueue_event_sub, enqueue_trimmed, insert_item,
  forget_old, make_inbox_room, fresh_item,
}
use ferventio_backend.Application.RateLimit.Requests.{RateLimits}
use ferventio_backend.Application.EventSub.Queue.{schedule_event_sub}
use ferventio_backend.Application.Webhook.{
  WebhookLibrary, WebhookRequest, WebhookState, Response, hand_over, accept_notification, accept,
  event_sub_webhook,
}
use ferventio_backend.Application.Webhook.Signed.{event_sub_webhook_cases}

-- The store has the message, or remembers that it was handled.
abbrev pub IsKnown : String → DeliveryStore → Type 0
IsKnown id d = (has id d.event_sub_inbox ≡ true) ⊎ (has id d.seen ≡ true)

inserted-IsKnown :
    (id : String) (envelope : EventSubEnvelope) (now : Time) (s : DeliveryStore) (r : Enqueued)
    → (insert_item id envelope now s).1 ≡ ok r
    → IsKnown id (insert_item id envelope now s).0
unfolding insert_item has
inserted-IsKnown id envelope now s r h =
    let room = make_inbox_room s in
    elim (Bool-cases (leb max_event_sub_inbox_records (size room.event_sub_inbox))) [
      | inl full ↦ cc (rw (full, if◌then◌else◌) at h)
      | inr free ↦
          rw (free, if◌then◌else◌)
            (inl (
              has_of_some id _ _
                (get-put_self id (fresh_item id envelope now) room.event_sub_inbox)))
    ]

enqueued-IsKnown :
    (id : String) (envelope : EventSubEnvelope) (now : Time) (s : DeliveryStore) (r : Enqueued)
    → (enqueue_trimmed id envelope now s).1 ≡ ok r
    → IsKnown id (enqueue_trimmed id envelope now s).0
unfolding enqueue_trimmed
enqueued-IsKnown id envelope now s r h =
    let s' = forget_old now (24 * hour) s in
    elim (Bool-cases (id == "")) [
      | inl e ↦ cc (rw (e, if◌then◌else◌) at h)
      | inr e ↦ elim (Bool-cases (has id s'.seen)) [
        | inl k ↦ rw (enqueue_trimmed, e, if◌then◌else◌, k) (inr k)
        | inr k ↦ elim (Option-cases (get id s'.event_sub_inbox)) [
          | inr (x, q) ↦ rw (enqueue_trimmed, e, if◌then◌else◌, k, q) (inl (has_of_some id _ x q))
          | inl q ↦
              rw (enqueue_trimmed, e, if◌then◌else◌, k, q)
                (inserted-IsKnown id envelope now s' r (rw (e, if◌then◌else◌, k, q) at h))
        ]
      ]
    ]

module _ (g : WebhookLibrary) where
  hand_over-deliveries :
      (id : String) (envelope : EventSubEnvelope) (r : EventSubInboxRecord) (s : WebhookState)
      → (hand_over g id envelope r s).0.deliveries ≡ s.deliveries
  unfolding hand_over
  hand_over-deliveries id envelope r s =
      elim (Bool-cases (r.message_id == "" || not (is_pending r.status))) [
        | inl e ↦ rw (hand_over, e, if◌then◌else◌) refl
        | inr e ↦ elim (Bool-cases (schedule_event_sub r s.queue).1) [
          | inl k ↦ rw (hand_over, e, if◌then◌else◌, k) refl
          | inr k ↦ rw (hand_over, e, if◌then◌else◌, k) refl
        ]
      ]

  -- The record that a call of EnqueueEventSub found or made is handed over.
  handed-IsKnown :
      (id key : String) (envelope : EventSubEnvelope) (r : EventSubInboxRecord) (s : WebhookState)
      → IsKnown key s.deliveries
      → IsKnown key (hand_over g id envelope r s).0.deliveries
  handed-IsKnown id key envelope r s known =
      subst (IsKnown key) (sym (hand_over-deliveries id envelope r s)) known

  accepted-IsKnown :
      (id : String) (envelope : EventSubEnvelope) (now : Time) (s : WebhookState)
      → (accept_notification g id envelope now s).1.status ≡ 204
      → IsKnown (trim_space id) (accept_notification g id envelope now s).0.deliveries
  unfolding accept_notification enqueue_event_sub
  accepted-IsKnown id envelope now s h =
      let key = trim_space id in
      let known = enqueued-IsKnown key envelope now s.deliveries in
      elim (Result-cases (enqueue_trimmed key envelope now s.deliveries).1) [
        | inl (x, e) ↦ absurd (omega (arith, rw (accept_notification, enqueue_event_sub, e) at h))
        | inr (created r, e) ↦
            rw (accept_notification, enqueue_event_sub, e)
              (handed-IsKnown id key envelope r _ (known (created r) e))
        | inr (queued r, e) ↦
            rw (accept_notification, enqueue_event_sub, e)
              (handed-IsKnown id key envelope r _ (known (queued r) e))
        | inr (seen_before, e) ↦
            rw (accept_notification, enqueue_event_sub, e) (known seen_before e)
      ]

  notified :
      (enabled : Bool) (id kind : String) (envelope : EventSubEnvelope) (now : Time)
      (s : WebhookState)
      → kind ≡ "notification"
      → accept g enabled id kind envelope now s ≡ accept_notification g id envelope now s
  unfolding accept
  notified enabled id kind envelope now s e = rw e refl

  -- Twitch is told 204 for a notification only when the inbox has the message, under its trimmed id, or
  -- the store remembers that it was handled: what is acknowledged is not lost.
  pub acknowledged_is_durable :
      (secret : String) (enabled : Bool) (limits : RateLimits) (r : WebhookRequest) (now : Time)
      (s : WebhookState)
      → r.type_header ≡ "notification"
      → (event_sub_webhook g secret enabled limits r now s).1.status ≡ 204
      → IsKnown
          (trim_space (trim_space r.id_header))
          (event_sub_webhook g secret enabled limits r now s).0.deliveries
  acknowledged_is_durable secret enabled limits r now s kind done =
      elim (event_sub_webhook_cases g secret enabled limits r now s) [
        | inr refused ↦ absurd (omega (arith, refused.3))
        | inl (body, b, signed, inl refused) ↦ absurd (omega (arith, refused.3))
        | inl (body, b, signed, inr (envelope, e)) ↦
            let taken =
              e ∙ notified enabled (trim_space r.id_header) r.type_header envelope now s kind in
            subst
              (λ (x : WebhookState × Response).
                x.1.status ≡ 204 → IsKnown (trim_space (trim_space r.id_header)) x.0.deliveries)
              (sym taken) (accepted-IsKnown (trim_space r.id_header) envelope now s) done
      ]
