-- ===== src/Application/Dispatch/Steps.antt =====
-- internal/application/delivery_dispatch.go, push_socket.go and eventsub.go: what the deliveries of an event
-- keep of the store, as soon as each of the store's methods that they call keeps it.
use ferventio_backend.Base.{
  ◌≡◌, refl, String, inl, inr, ◌⊎◌, some, List, [], ◌∷◌, ◌==◌, if◌then◌else◌, Bool-cases,
  Option-cases, Result-cases,
}
use ferventio_backend.Domain.Clock.{Time}
use ferventio_backend.Domain.Delivery.{Notification, DeliveryRecord}
use ferventio_backend.Domain.Registration.{Registration}
use ferventio_backend.Memory.Delivery.{DeliveryStore}
use ferventio_backend.Memory.Delivery.Outbox.{enqueue, mark_sent, mark_failed, ack}
use ferventio_backend.Memory.Registrations.{RegistrationStore, get_registration}
use ferventio_backend.Application.PushSocket.{SocketError}
use ferventio_backend.Application.PushSocket.Hub.{SendError, not_connected, socket_failed, send_to}
use ferventio_backend.Application.EventSub.Values.{Event}
use ferventio_backend.Application.EventSub.Routing.{event_notification_for_registration}
use ferventio_backend.Application.Dispatch.{
  DispatchState, Outside, audit_delivery, send_on_socket, sender_error, send_by_push, send_delivery,
  flush_records, flush_pending, new_delivery, enqueue_and_flush, deliver_to_registration,
  deliver_all,
}

SendError-cases :
    (e : SendError) → (e ≡ not_connected) ⊎ ((x : SocketError) × (e ≡ socket_failed x))
SendError-cases not_connected = inl refl
SendError-cases (socket_failed x) = inr (x, refl)

module _ (o : Outside) (P : DeliveryStore → Type 0)
    (enqueue_keeps : (r : DeliveryRecord) (now : Time) (s : DeliveryStore)
      → P s
      → P (enqueue r now s).0)
    (sent_keeps : (id : String) (now : Time) (s : DeliveryStore) → P s → P (mark_sent id now s).0)
    (failed_keeps : (id failure : String) (now : Time) (s : DeliveryStore)
      → P s
      → P (mark_failed id failure now s).0)
    (ack_keeps : (i e : String) (now : Time) (s : DeliveryStore) → P s → P (ack i e now s).0) where
  send_on_socket-keeps :
      (r : Registration) (d : DeliveryRecord) (n : Notification) (now : Time) (s : DispatchState)
      → P s.deliveries
      → P (send_on_socket o r d n now s).0.deliveries
  unfolding send_on_socket
  send_on_socket-keeps r d n now s p =
      elim (Option-cases (send_to r.installation_id (o.socket_message n) s.hub).1) [
        | inl e ↦ rw (send_on_socket, e) (sent_keeps d.id now s.deliveries p)
        | inr (x, e) ↦ elim (SendError-cases x) [
          | inl q ↦ rw (send_on_socket, e, q) p
          | inr (y, q) ↦ rw (send_on_socket, e, q) (failed_keeps d.id _ now s.deliveries p)
        ]
      ]

  send_by_push-keeps :
      (r : Registration) (d : DeliveryRecord) (n : Notification) (now : Time) (s : DispatchState)
      → P s.deliveries
      → P (send_by_push o r d n now s).0.deliveries
  unfolding send_by_push audit_delivery
  send_by_push-keeps r d n now s p = elim (Option-cases (sender_error o r n)) [
    | inl e ↦
        rw (send_by_push, e)
          (ack_keeps r.installation_id d.event_id now _ (sent_keeps d.id now s.deliveries p))
    | inr (x, e) ↦ rw (send_by_push, e) (failed_keeps d.id x now s.deliveries p)
  ]

  send_delivery-keeps :
      (r : Registration) (d : DeliveryRecord) (now : Time) (s : DispatchState)
      → P s.deliveries
      → P (send_delivery o r d now s).0.deliveries
  unfolding send_delivery
  send_delivery-keeps r d now s p = elim (Bool-cases (r.provider == "embedded_socket")) [
    | inl e ↦ rw (e, if◌then◌else◌) (send_on_socket-keeps r d _ now s p)
    | inr e ↦ rw (e, if◌then◌else◌) (send_by_push-keeps r d _ now s p)
  ]

  flush_records-keeps :
      (r : Registration) (ds : List DeliveryRecord) (now : Time) (s : DispatchState)
      → P s.deliveries
      → P (flush_records o r ds now s).deliveries
  unfolding flush_records
  flush_records-keeps r [] now s p = p
  flush_records-keeps r (d ∷ ds) now s p =
      let q = send_delivery-keeps r d now s p in
      elim (Bool-cases (send_delivery o r d now s).1) [
        | inl e ↦ rw (e, if◌then◌else◌) (flush_records-keeps r ds now _ q)
        | inr e ↦ rw (e, if◌then◌else◌) q
      ]

  pub flush_pending-keeps :
      (i : String) (registrations : RegistrationStore) (now : Time) (s : DispatchState)
      → P s.deliveries
      → P (flush_pending o i registrations now s).deliveries
  unfolding flush_pending
  flush_pending-keeps i registrations now s p =
      elim (Result-cases (get_registration i registrations)) [
        | inl (x, e) ↦ rw (flush_pending, e) p
        | inr (r, e) ↦ rw (flush_pending, e) (flush_records-keeps r _ now s p)
      ]

  enqueue_and_flush-keeps :
      (r : Registration) (n : Notification) (id : String) (registrations : RegistrationStore)
      (now : Time) (s : DispatchState)
      → P s.deliveries
      → P (enqueue_and_flush o r n id registrations now s).0.deliveries
  unfolding enqueue_and_flush audit_delivery
  enqueue_and_flush-keeps r n id registrations now s p =
      let q = enqueue_keeps (new_delivery o id r n now) now s.deliveries p in
      elim (Result-cases (enqueue (new_delivery o id r n now) now s.deliveries).1) [
        | inl (x, e) ↦ rw (enqueue_and_flush, e) q
        | inr ((d, created), e) ↦ elim (Bool-cases created) [
          | inl f ↦
              rw (enqueue_and_flush, e, f)
                (flush_pending-keeps r.installation_id registrations now _ q)
          | inr f ↦
              rw (enqueue_and_flush, e, f)
                (flush_pending-keeps r.installation_id registrations now _ q)
        ]
      ]

  pub deliver_to_registration-keeps :
      (r : Registration) (n : Notification) (registrations : RegistrationStore) (now : Time)
      (s : DispatchState)
      → P s.deliveries
      → P (deliver_to_registration o r n registrations now s).0.deliveries
  unfolding deliver_to_registration
  deliver_to_registration-keeps r n registrations now s p =
      elim (Option-cases (if n.event_id == "" then o.event_token r else some n.event_id)) [
        | inl e ↦ rw (deliver_to_registration, e) p
        | inr (id, e) ↦ elim (Option-cases (o.delivery_token r)) [
          | inl q ↦ rw (deliver_to_registration, e, q) p
          | inr (d, q) ↦
              rw (deliver_to_registration, e, q)
                (enqueue_and_flush-keeps r _ d registrations now s p)
        ]
      ]

  pub deliver_all-keeps :
      (id type_name : String) (event : Event) (rs : List Registration)
      (registrations : RegistrationStore) (now : Time) (s : DispatchState)
      → P s.deliveries
      → P (deliver_all o id type_name event rs registrations now s).0.deliveries
  unfolding deliver_all
  deliver_all-keeps id type_name event [] registrations now s p = p
  deliver_all-keeps id type_name event (r ∷ rs) registrations now s p =
      elim (Option-cases (
        event_notification_for_registration o.to_lower o.equal_fold o.format_number
          (o.unix_milli now) id type_name event r)) [
            | inl e ↦
                rw (deliver_all, e) (deliver_all-keeps id type_name event rs registrations now s p)
            | inr (n, e) ↦
                let q = deliver_to_registration-keeps r n registrations now s p in
                elim (Option-cases (deliver_to_registration o r n registrations now s).1) [
                  | inl f ↦
                      rw (deliver_all, e, f)
                        (deliver_all-keeps id type_name event rs registrations now _ q)
                  | inr (x, f) ↦
                      rw (deliver_all, e, f)
                        (deliver_all-keeps id type_name event rs registrations now _ q)
                ]
          ]
