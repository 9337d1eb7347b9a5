-- ===== src/Memory/Delivery/Outbox/Preserves.antt =====
-- internal/storage/memory/delivery_store.go: every method on deliveries keeps the invariant.
use ferventio_backend.Base.{
  ℕ, ◌≡◌, String, inl, inr, Option, arith, leb, eqb, leb_false→lt, if◌then◌else◌, Bool-cases,
  Option-cases,
}
use ferventio_backend.Base.GoMap.{GoMap, get, size, find, any}
use ferventio_backend.Base.GoMap.Sizes.{count_if, count_if_zero, count_if-delete-le}
use ferventio_backend.Base.GoMap.Entries.{find-none}
use ferventio_backend.Domain.Clock.{Time}
use ferventio_backend.Domain.Delivery.{DeliveryRecord, max_delivery_records}
use ferventio_backend.Memory.Trim.Keeps.{trim_induction}
use ferventio_backend.Memory.Delivery.{DeliveryStore, cleanup, trim_completed_deliveries}
use ferventio_backend.Memory.Delivery.Outbox.{
  matches, with_defaults, make_room, insert_new, missing_ids, enqueue, mark_sent, mark_failed,
  ack_target, ack_through, ack, delete_for_installation,
}
use ferventio_backend.Memory.Delivery.Outbox.Invariant.{
  Outbox, Outbox-delete, Outbox-retain, Outbox-update, Outbox-rewrite, Outbox-put, Outbox-cleanup,
}

-- The invariant, with the count of one event's deliveries still 0.
record Free (i e : String) (m : GoMap DeliveryRecord) : Type 0 where
  free : count_if (λ _ q. matches i e q) m ≡ 0
  outbox : Outbox m

Free-trim :
    (i e : String) (limit : ℕ) (m : GoMap DeliveryRecord)
    → Free i e m
    → Free i e (trim_completed_deliveries limit m)
unfolding trim_completed_deliveries
Free-trim i e limit m f =
    trim_induction _ (Free i e)
      (λ k m' g. record {
        free = omega (arith, count_if-delete-le (λ _ q. matches i e q) k m', g.free);
        outbox = Outbox-delete k m' g.outbox;
      })
      _ _ limit m f

Free-make_room :
    (i e : String) (s : DeliveryStore) → Free i e s.records → Free i e (make_room s).records
unfolding make_room
Free-make_room i e s f = elim (Bool-cases (leb max_delivery_records (size s.records))) [
  | inl full ↦ rw (full, if◌then◌else◌) (Free-trim i e _ s.records f)
  | inr room ↦ rw (room, if◌then◌else◌) f
]

insert_new-Outbox :
    (r : DeliveryRecord) (s : DeliveryStore)
    → Free r.installation_id r.event_id s.records
    → Outbox (insert_new r s).0.records
unfolding insert_new
insert_new-Outbox r s f = go (Free-make_room _ _ s f)
  where
    s' : DeliveryStore
    s' = make_room s

    go : Free r.installation_id r.event_id s'.records → Outbox (insert_new r s).0.records
    go g = elim (Bool-cases (leb max_delivery_records (size s'.records))) [
      | inl full ↦ rw (full, if◌then◌else◌) g.outbox
      | inr room ↦
          rw (room, if◌then◌else◌) (Outbox-put r s'.records (leb_false→lt _ _ room) g.free g.outbox)
    ]

-- Storing a delivery keeps the invariant: no second delivery of an event, and never too many.
pub enqueue-Outbox :
    (r : DeliveryRecord) (now : Time) (s : DeliveryStore)
    → Outbox s.records
    → Outbox (enqueue r now s).0.records
unfolding enqueue
enqueue-Outbox r now s o = elim (Option-cases found) [
  | inl e ↦
      rw (e, enqueue)
        (elim (Bool-cases (missing_ids r)) [
          | inl m ↦ rw (m, if◌then◌else◌) o'
          | inr m ↦
              rw (m, if◌then◌else◌)
                (insert_new-Outbox (with_defaults now r) s' (
                  unfold with_defaults in
                  record {
                    free = count_if_zero _ s'.records (find-none _ s'.records e);
                    outbox = o';
                  }))
        ])
  | inr (q, e) ↦ rw (e, enqueue) o'
]
  where
    s' : DeliveryStore
    s' = cleanup now s

    found : Option DeliveryRecord
    found = find (λ _ q. matches r.installation_id r.event_id q) s'.records

    o' : Outbox s'.records
    o' = Outbox-cleanup now s o

pub mark_sent-Outbox :
    (id : String) (t : Time) (s : DeliveryStore)
    → Outbox s.records
    → Outbox (mark_sent id t s).0.records
unfolding mark_sent
mark_sent-Outbox id t s o = elim (Option-cases (get id s.records)) [
  | inl e ↦ rw (e, mark_sent) o
  | inr (r, e) ↦ rw (e, mark_sent) (Outbox-rewrite id r _ s.records e (ground arith) o)
]

pub mark_failed-Outbox :
    (id failure : String) (t : Time) (s : DeliveryStore)
    → Outbox s.records
    → Outbox (mark_failed id failure t s).0.records
unfolding mark_failed
mark_failed-Outbox id failure t s o = elim (Option-cases (get id s.records)) [
  | inl e ↦ rw (e, mark_failed) o
  | inr (r, e) ↦ rw (e, mark_failed) (Outbox-rewrite id r _ s.records e (ground arith) o)
]

pub ack_through-Outbox :
    (i e : String) (t : Time) (s : DeliveryStore)
    → Outbox s.records
    → Outbox (ack_through i e t s).0.records
unfolding ack_through
ack_through-Outbox i e t s o = elim (Bool-cases (eqb (ack_target i e s) 0)) [
  | inl h ↦ rw (h, if◌then◌else◌) o
  | inr h ↦ rw (h, if◌then◌else◌) (Outbox-update _ s.records (λ _ r. ground arith) o)
]

pub ack-Outbox :
    (i e : String) (t : Time) (s : DeliveryStore)
    → Outbox s.records
    → Outbox (ack i e t s).0.records
unfolding ack
ack-Outbox i e t s o = elim (Bool-cases (any (λ _ r. matches i e r) s.records)) [
  | inl h ↦ rw (h, if◌then◌else◌) (Outbox-update _ s.records (λ _ r. ground arith) o)
  | inr h ↦ rw (h, if◌then◌else◌) o
]

pub delete_for_installation-Outbox :
    (i : String) (s : DeliveryStore)
    → Outbox s.records
    → Outbox (delete_for_installation i s).0.records
unfolding delete_for_installation
delete_for_installation-Outbox i s o = Outbox-retain _ s.records o
