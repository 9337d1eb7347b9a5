-- ===== src/Application/PushSocket/Hub/Single.antt =====
-- internal/application/push_socket.go: the hub knows each open connection, and an installation has one.
use ferventio_backend.Base.{
  ℕ, ◌≡◌, ◌≢◌, refl, sym, ◌∙◌, ap, String, Bool, true, false, inl, inr, Option, some, List, arith,
  eqb, if◌then◌else◌, Bool-cases, Option-cases, ◌==◌, eq_iff,
}
use ferventio_backend.Base.GoMap.{GoMap, get, put, delete, get-put, get-put_self, get-delete}
use ferventio_backend.Application.PushSocket.{PushSocketConnection, write_frame}
use ferventio_backend.Application.PushSocket.Hub.{
  PushHub, new_push_hub, store_socket, close_socket, attach, detach, send_to, close_installation,
}

-- What the server does with the hub, and which connections are between their Attach and their Detach.
-- A connection is attached once, and `close_socket` may come at any time.
pub data HubRun : (ℕ → Bool) → PushHub → Type 0 where
  started : (sockets : ℕ → PushSocketConnection) → HubRun (λ _. false) (new_push_hub sockets)
  attached :
      (live : ℕ → Bool) (hub : PushHub) (p : ℕ)
      → HubRun live hub
      → live p ≡ false
      → HubRun (λ q. if eqb q p then true else live q) (attach p hub)
  detached :
      (live : ℕ → Bool) (hub : PushHub) (p : ℕ)
      → HubRun live hub
      → HubRun (λ q. if eqb q p then false else live q) (detach p hub)
  sent :
      (live : ℕ → Bool) (hub : PushHub) (id : String) (payload : List ℕ)
      → HubRun live hub
      → HubRun live (send_to id payload hub).0
  closed_one :
      (live : ℕ → Bool) (hub : PushHub) (p : ℕ) → HubRun live hub → HubRun live (close_socket p hub)
  closed_installation :
      (live : ℕ → Bool) (hub : PushHub) (id : String)
      → HubRun live hub
      → HubRun live (close_installation id hub)

-- The hub finds each open connection that is live.
abbrev IsFound : (ℕ → Bool) → PushHub → ℕ → Type 0
IsFound live hub p =
    live p ≡ true
    → (hub.sockets p).closed ≡ false
    → get (hub.sockets p).installation_id hub.connections ≡ some p

abbrev Knows : (ℕ → Bool) → PushHub → Type 0
Knows live hub = (p : ℕ) → IsFound live hub p

-- A hub that has the same connections, where each socket keeps its installation and no closed one opens.
abbrev IsSameBut : PushHub → PushHub → Type 0
IsSameBut hub hub' =
    (p : ℕ)
    → ((hub'.sockets p).installation_id ≡ (hub.sockets p).installation_id)
      × ((hub'.sockets p).closed ≡ false → (hub.sockets p).closed ≡ false)

Knows-same :
    (live : ℕ → Bool) (hub hub' : PushHub)
    → hub'.connections ≡ hub.connections
    → IsSameBut hub hub'
    → Knows live hub
    → Knows live hub'
Knows-same live hub hub' e s k p l o = rw (e, (s p).0) (k p l ((s p).1 o))

same_number : (a b : ℕ) → eqb a b ≡ true → a ≡ b
same_number a b h = ground arith

store-IsSameBut :
    (p : ℕ) (c : PushSocketConnection) (hub : PushHub)
    → c.installation_id ≡ (hub.sockets p).installation_id
    → (c.closed ≡ false → (hub.sockets p).closed ≡ false)
    → IsSameBut hub (store_socket p c hub)
store-IsSameBut p c hub i o q = elim (Bool-cases (eqb q p)) [
  | inl e ↦ rw (e, if◌then◌else◌, same_number q p e) (i, o)
  | inr e ↦ rw (e, if◌then◌else◌) (refl, λ h. h)
]

close_socket-IsSameBut : (p : ℕ) (hub : PushHub) → IsSameBut hub (close_socket p hub)
unfolding close_socket
close_socket-IsSameBut p hub = store-IsSameBut p _ hub refl (λ h. cc)

IsSameBut-trans : (a b c : PushHub) → IsSameBut a b → IsSameBut b c → IsSameBut a c
IsSameBut-trans a b c h k p = ((k p).0 ∙ (h p).0, λ o. (h p).1 ((k p).1 o))

-- A socket that is closed is not open.
closed_not_open : (p : ℕ) (hub : PushHub) → ((close_socket p hub).sockets p).closed ≡ true
unfolding close_socket
closed_not_open p hub = ground arith

write_frame-same :
    (opcode : ℕ) (payload : List ℕ) (c : PushSocketConnection)
    → ((write_frame opcode payload c).0.installation_id ≡ c.installation_id)
      × ((write_frame opcode payload c).0.closed ≡ c.closed)
unfolding write_frame
write_frame-same opcode payload c = ground arith

send_to-same :
    (id : String) (payload : List ℕ) (hub : PushHub)
    → ((send_to id payload hub).0.connections ≡ hub.connections)
      × IsSameBut hub (send_to id payload hub).0
unfolding send_to
send_to-same id payload hub = elim (Option-cases (get id hub.connections)) [
  | inl e ↦ rw (send_to, e) (refl, λ p. (refl, λ h. h))
  | inr (p, e) ↦
      let c = write_frame 1 payload (hub.sockets p) in
      let same = write_frame-same 1 payload (hub.sockets p) in
      let stored = store-IsSameBut p c.0 hub same.0 (λ h. sym same.1 ∙ h) in
      elim (Option-cases c.1) [
        | inl q ↦ rw (send_to, e, q) (refl, stored)
        | inr (error, q) ↦
            rw (send_to, e, q)
              (
                unfold close_socket in refl,
                IsSameBut-trans hub (store_socket p c.0 hub)
                    (close_socket p (store_socket p c.0 hub)) stored
                    (close_socket-IsSameBut p (store_socket p c.0 hub)),
              )
      ]
]

close_installation-same :
    (id : String) (hub : PushHub)
    → ((close_installation id hub).connections ≡ hub.connections)
      × IsSameBut hub (close_installation id hub)
unfolding close_installation close_socket
close_installation-same id hub = elim (Option-cases (get id hub.connections)) [
  | inl e ↦ rw (close_installation, e) (refl, λ p. (refl, λ h. h))
  | inr (p, e) ↦ rw (close_installation, e) (refl, close_socket-IsSameBut p hub)
]

-- An entry of another connection stays.
put-other :
    (id j : String) (p q : ℕ) (m : GoMap ℕ)
    → get j m ≡ some q
    → get id m ≢ some q
    → get j (put id p m) ≡ some q
put-other id j p q m h k = elim (Bool-cases (id == j)) [
  | inl e ↦ absurd (k (ap (λ x. get x m) ((eq_iff id j).0 e) ∙ h))
  | inr e ↦ rw (get-put id j p m, e, if◌then◌else◌) h
]

delete-other :
    (id j : String) (q : ℕ) (m : GoMap ℕ)
    → get j m ≡ some q
    → get id m ≢ some q
    → get j (delete id m) ≡ some q
delete-other id j q m h k = elim (Bool-cases (id == j)) [
  | inl e ↦ absurd (k (ap (λ x. get x m) ((eq_iff id j).0 e) ∙ h))
  | inr e ↦ rw (get-delete id j m, e, if◌then◌else◌) h
]

-- The hub after `p` took the entry of its installation, and whoever had it is closed.
Knows-put :
    (live : ℕ → Bool) (hub hub' : PushHub) (p : ℕ)
    → let id = (hub.sockets p).installation_id in
      hub'.connections ≡ put id p hub.connections
      → IsSameBut hub hub'
      → ((q : ℕ)
          → eqb q p ≡ false
          → (hub'.sockets q).closed ≡ false
          → get id hub.connections ≢ some q)
      → Knows live hub
      → Knows (λ q. if eqb q p then true else live q) hub'
Knows-put live hub hub' p e s gone k q l o = elim (Bool-cases (eqb q p)) [
  | inl same ↦ rw (e, (s q).0, same_number q p same) (get-put_self _ p hub.connections)
  | inr other ↦
      rw (e, (s q).0)
        (put-other _ _ p q hub.connections (k q (rw (other, if◌then◌else◌) at l) ((s q).1 o))
          (gone q other o))
]

still :
    (live : ℕ → Bool) (p q : ℕ)
    → (if eqb q p then false else live q) ≡ true
    → (eqb q p ≡ false) × (live q ≡ true)
still live p q h = ground arith

other_entry : (p q : ℕ) (o : Option ℕ) → o ≡ some p → eqb q p ≡ false → o ≢ some q
other_entry p q o e h k = ground arith

closed_before :
    (previous q : ℕ) (hub : PushHub) (o : Option ℕ)
    → o ≡ some previous
    → ((close_socket previous hub).sockets q).closed ≡ false
    → o ≢ some q
unfolding close_socket
closed_before previous q hub o e unclosed h = ground arith

attach-Knows :
    (live : ℕ → Bool) (hub : PushHub) (p : ℕ)
    → Knows live hub
    → Knows (λ q. if eqb q p then true else live q) (attach p hub)
unfolding attach
attach-Knows live hub p k =
    let id = (hub.sockets p).installation_id in
    let joined = record hub { connections = put id p hub.connections } in
    elim (Option-cases (get id hub.connections)) [
      | inl e ↦
          rw (attach, e)
            (Knows-put live hub joined p refl (λ q. (refl, λ h. h)) (λ q other o h. cc) k)
      | inr (previous, e) ↦ elim (Bool-cases (eqb previous p)) [
        | inl same ↦
            rw (attach, e, same)
              (Knows-put live hub joined p refl (λ q. (refl, λ h. h))
                (λ q other o. other_entry p q _ (e ∙ ap some (same_number previous p same)) other)
                k)
        | inr other ↦
            rw (attach, e, other)
              (Knows-put live hub (close_socket previous joined) p (unfold close_socket in refl)
                (close_socket-IsSameBut previous joined)
                (λ q fresh o. closed_before previous q joined _ e o) k)
      ]
    ]

detach-Knows :
    (live : ℕ → Bool) (hub : PushHub) (p : ℕ)
    → Knows live hub
    → Knows (λ q. if eqb q p then false else live q) (detach p hub)
unfolding detach
detach-Knows live hub p k =
    let id = (hub.sockets p).installation_id in
    elim (Option-cases (get id hub.connections)) [
      | inl e ↦ rw (detach, e) (λ q l o. k q (still live p q l).1 o)
      | inr (current, e) ↦ elim (Bool-cases (eqb current p)) [
        | inr other ↦ rw (detach, e, other) (λ q l o. k q (still live p q l).1 o)
        | inl same ↦
            rw (detach, e, same)
              (λ q l o.
                delete-other id _ q hub.connections (k q (still live p q l).1 o) (
                  other_entry p q _ (e ∙ ap some (same_number current p same))
                    (still live p q l).0))
      ]
    ]

run-Knows : (live : ℕ → Bool) (hub : PushHub) → HubRun live hub → Knows live hub
run-Knows live hub (started sockets) = λ p l o. cc
run-Knows live hub (attached live' hub' p run fresh) =
    attach-Knows live' hub' p (run-Knows live' hub' run)
run-Knows live hub (detached live' hub' p run) =
    detach-Knows live' hub' p (run-Knows live' hub' run)
run-Knows live hub (sent live' hub' id payload run) =
    let same = send_to-same id payload hub' in
    Knows-same live' hub' (send_to id payload hub').0 same.0 same.1 (run-Knows live' hub' run)
run-Knows live hub (closed_one live' hub' p run) =
    Knows-same live' hub' (close_socket p hub') (unfold close_socket in refl)
      (close_socket-IsSameBut p hub') (run-Knows live' hub' run)
run-Knows live hub (closed_installation live' hub' id run) =
    let same = close_installation-same id hub' in
    Knows-same live' hub' (close_installation id hub') same.0 same.1 (run-Knows live' hub' run)

-- In every run of the hub, a connection that is open, attached and not detached is the one that the hub
-- finds under its installation: a late Detach or Close of an older connection does not hide it.
pub hub_finds_open :
    (live : ℕ → Bool) (hub : PushHub) (p : ℕ)
    → HubRun live hub
    → live p ≡ true
    → (hub.sockets p).closed ≡ false
    → get (hub.sockets p).installation_id hub.connections ≡ some p
hub_finds_open live hub p run l o = run-Knows live hub run p l o

-- In every run of the hub, two open connections of one installation that are attached and not detached
-- are the same connection.
pub single_open_connection :
    (live : ℕ → Bool) (hub : PushHub) (p q : ℕ)
    → HubRun live hub
    → live p ≡ true
    → live q ≡ true
    → (hub.sockets p).closed ≡ false
    → (hub.sockets q).closed ≡ false
    → (hub.sockets p).installation_id ≡ (hub.sockets q).installation_id
    → p ≡ q
single_open_connection live hub p q run lp lq op oq same =
    cc (run-Knows live hub run p lp op, run-Knows live hub run q lq oq, same)
