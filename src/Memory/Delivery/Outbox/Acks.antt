-- ===== src/Memory/Delivery/Outbox/Acks.antt =====
-- internal/storage/memory/delivery_store.go: what Ack, AckThrough and DeleteForInstallation settle.
use ferventio_backend.Base.{
  ℕ, ◌≡◌, String, true, false, not, ◌&&◌, inl, inr, none, some, arith, ltb, eqb, if◌then◌else◌,
  Bool-cases, ◌==◌, ◌∙◌, All, All-take, All-select_given,
}
use ferventio_backend.Base.GoMap.{get, any, Each, get-update}
use ferventio_backend.Base.GoMap.Entries.{Each-update, All-values, Each_of_any, Each_all}
use ferventio_backend.Base.Sort.{All-sort}
use ferventio_backend.Domain.Clock.{Time}
use ferventio_backend.Domain.Delivery.{DeliveryRecord}
use ferventio_backend.Memory.Delivery.{DeliveryStore}
use ferventio_backend.Memory.Delivery.Outbox.{
  matches, is_due, oldest_first, pending_for_installation, acked_record, ack_target, ack_through,
  ack,
}

-- Neither an acknowledged delivery nor one of another event is both due and of this event.
settled :
    (i e : String) (t now : Time) (r : DeliveryRecord)
    → is_due i now (if matches i e r then acked_record t r else r) ≡ true
    → matches i e (if matches i e r then acked_record t r else r) ≡ false
unfolding is_due
settled i e t now r = ground arith

-- Whatever Ack answers, no delivery of the event is among those that PendingForInstallation then
-- gives for the installation, at any time and with any limit.
pub pending-ack :
    (i e : String) (limit : ℕ) (t now : Time) (s : DeliveryStore)
    → All (λ q. matches i e q ≡ false) (pending_for_installation i limit now (ack i e t s).0)
unfolding pending_for_installation ack
pending-ack i e limit t now s =
    All-take _ _ _
      (All-sort oldest_first _ _ (All-select_given _ (is_due i now) _ (All-values _ _ settled_all)))
  where
    settled_all :
        Each (λ _ q. is_due i now q ≡ true → matches i e q ≡ false) (ack i e t s).0.records
    settled_all = elim (Bool-cases (any (λ _ r. matches i e r) s.records)) [
      | inl h ↦
          rw (h, ack)
            (Each-update _ _ s.records (Each_all _ s.records (λ _ r. settled i e t now r)))
      | inr h ↦
          rw (h, ack)
            (Each_of_any _ (λ _ r. matches i e r) s.records (λ _ r none_here _. none_here) h)
    ]

-- When AckThrough finds the event, it acknowledges of the stored deliveries to the installation
-- exactly those that are not newer than the event's, and leaves every other as it was.
ack_through_lem :
    (i e id : String) (t : Time) (s : DeliveryStore) (r : DeliveryRecord)
    → get id s.records ≡ some r
    → (ack_through i e t s).1 ≡ none
    → get id (ack_through i e t s).0.records
      ≡ some (
          if (r.installation_id == i) && not (ltb (ack_target i e s) r.created_at)
          then acked_record t r
          else r)
unfolding ack_through
ack_through_lem i e id t s r h done = elim (Bool-cases (eqb (ack_target i e s) 0)) [
  | inl no_event ↦ cc (rw (no_event, if◌then◌else◌) at done)
  | inr event ↦ rw (event, if◌then◌else◌) (get-update _ id s.records ∙ rw h (ground arith))
]
