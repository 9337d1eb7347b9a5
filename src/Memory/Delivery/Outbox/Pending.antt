-- ===== src/Memory/Delivery/Outbox/Pending.antt =====
-- internal/storage/memory/delivery_store.go: what PendingForInstallation and List return.
use ferventio_backend.Base.{
  ℕ, ◌≤◌, ◌<◌, ◌≡◌, ◌≢◌, ◌⊎◌, ◌↔◌, refl, ◌||◌, true, false, inl, inr, String, Bool-cases, eq_iff,
  arith, eqb, if◌then◌else◌, select,
}
use ferventio_backend.Base.GoMap.{values}
use ferventio_backend.Base.Sort.{IsLess}
use ferventio_backend.Base.Page.{IsPage, page_lem}
use ferventio_backend.Base.Text.{str_lt, str_lt_asym, str_lt_ge_trans}
use ferventio_backend.Domain.Clock.{Time}
use ferventio_backend.Domain.Delivery.{
  DeliveryRecord, Status, unset, acked, dead, pending, sent, is_acked, is_dead,
}
use ferventio_backend.Memory.Delivery.{DeliveryStore}
use ferventio_backend.Memory.Delivery.Outbox.{
  is_due, pending_for_installation, oldest_first, list_deliveries, newest_first, page_limit,
}

oldest_first-IsLess : IsLess oldest_first
oldest_first-IsLess = record {
  asym = λ a b h. ground (arith, str_lt_asym a.id b.id);
  ge_trans = λ a b c h k. ground (arith, str_lt_ge_trans a.id b.id c.id);
}

newest_first-IsLess : IsLess newest_first
newest_first-IsLess = record {
  asym = λ a b h. ground (arith, str_lt_asym b.id a.id);
  ge_trans = λ a b c h k. ground (arith, str_lt_ge_trans c.id b.id a.id);
}

-- A delivery that is to be given to the installation now.
pub record IsPending (i : String) (now : Time) (r : DeliveryRecord) : Type 0 where
  pub recipient : r.installation_id ≡ i
  pub not_acked : r.status ≢ acked
  pub not_dead : r.status ≢ dead
  pub available : r.available_at ≤ now
  pub unexpired : now < r.expires_at

status_given : (s : Status) → (is_acked s || is_dead s) ≡ false → (s ≢ acked) × (s ≢ dead)
status_given s h = (λ e. cc (rw e at h), λ e. cc (rw e at h))

given_status : (s : Status) → s ≢ acked → s ≢ dead → (is_acked s || is_dead s) ≡ false
given_status unset p q = refl
given_status pending p q = refl
given_status sent p q = refl
given_status acked p q = absurd (p refl)
given_status dead p q = absurd (q refl)

pub due_iff :
    (i : String) (now : Time) (r : DeliveryRecord) → (is_due i now r ≡ true) ↔ IsPending i now r
unfolding is_due
due_iff i now r = (
  λ h.
      let s = status_given r.status (ground (arith, h)) in
      record {
        recipient = (eq_iff r.installation_id i).0 (ground (arith, h));
        not_acked = s.0;
        not_dead = s.1;
        available = ground (arith, h);
        unexpired = ground (arith, h);
      },
  λ p. ground (
    arith,
    (eq_iff r.installation_id i).1 p.recipient,
    given_status r.status p.not_acked p.not_dead,
    p.available,
    p.unexpired,
  ),
)

-- One delivery is older than another: it was created before it, or at the same time and with an
-- identifier that comes before.
abbrev pub IsOlder : DeliveryRecord → DeliveryRecord → Type 0
IsOlder a b =
    (a.created_at < b.created_at) ⊎ ((a.created_at ≡ b.created_at) × (str_lt a.id b.id ≡ true))

IsOlder-iff : (a b : DeliveryRecord) → (oldest_first a b ≡ true) ↔ IsOlder a b
IsOlder-iff a b = (older_given, given_older)
  where
    older_given : oldest_first a b ≡ true → IsOlder a b
    older_given h = elim (Bool-cases (eqb a.created_at b.created_at)) [
      | inl e ↦ inr (ground (arith, e), rw e at h)
      | inr e ↦ inl (ground (arith, rw e at h))
    ]

    given_older : IsOlder a b → oldest_first a b ≡ true
    given_older (inl l) = ground (arith, l)
    given_older (inr (e, l)) = ground (arith, e, l)

-- PendingForInstallation returns the first of the deliveries that are due, in their order, as many as
-- the limit allows, and leaves none out otherwise. Those are due that are the installation's, neither
-- acknowledged nor dead, available by now, and not expired; their order is by creation, and then by
-- identifier.
pub pending_for_installation-IsPage :
    (i : String) (limit : ℕ) (now : Time) (s : DeliveryStore)
    → IsPage oldest_first
        (select (is_due i now) (values s.records))
        (if eqb limit 0 then 100 else limit)
        (pending_for_installation i limit now s)
      × ((r : DeliveryRecord) → (is_due i now r ≡ true) ↔ IsPending i now r)
      × ((a b : DeliveryRecord) → (oldest_first a b ≡ true) ↔ IsOlder a b)
unfolding pending_for_installation
pending_for_installation-IsPage i limit now s =
    (page_lem oldest_first oldest_first-IsLess _ _, due_iff i now, IsOlder-iff)

-- List returns the newest deliveries in their order, as many as the limit allows, and leaves none
-- out otherwise.
pub list_deliveries-IsPage :
    (limit : ℕ) (s : DeliveryStore)
    → IsPage newest_first (values s.records) (page_limit limit) (list_deliveries limit s)
unfolding list_deliveries
list_deliveries-IsPage limit s = page_lem newest_first newest_first-IsLess _ _
