-- ===== src/Tests/Sockets.antt =====
-- internal/application/push_socket.go: the sockets and the hub.
use ferventio_backend.Base.{
  ℕ, ◌≡◌, refl, Bool, true, false, some, List, [], ◌∷◌, ◌++◌, eqb, if◌then◌else◌,
}
use ferventio_backend.Base.GoMap.{get, put}
use ferventio_backend.Application.PushSocket.{PushSocketConnection}
use ferventio_backend.Application.PushSocket.Frames.{client_frame}
use ferventio_backend.Application.PushSocket.Reading.{pings_then}
use ferventio_backend.Application.PushSocket.Hub.{
  PushHub, new_push_hub, attach, detach, close_socket,
}
use ferventio_backend.Application.PushSocket.Hub.Single.{
  HubRun, started, attached, detached, hub_finds_open,
}

abbrev mask : List ℕ
mask = 1 ∷ 2 ∷ 3 ∷ 4 ∷ []

abbrev hello : List ℕ
hello = 104 ∷ 105 ∷ []

abbrev one_ping : List (List ℕ × List ℕ)
one_ping = (mask, 9 ∷ []) ∷ []

abbrev pub connection : List ℕ → PushSocketConnection
connection input = record {
  installation_id = "phone";
  connection_id = "psc_1";
  input = input;
  output = [];
  closed = false;
  broken = false;
}

abbrev sent_bytes : List ℕ
sent_bytes = pings_then one_ping (client_frame 1 mask hello ++ [])

-- A second connection of an installation, and then the late Detach of the first.
abbrev pub sockets : ℕ → PushSocketConnection
sockets p = connection []

abbrev first_attached : PushHub
first_attached = attach 1 (new_push_hub sockets)

abbrev reconnected : PushHub
reconnected = detach 1 (attach 2 first_attached)

abbrev first_live : ℕ → Bool
first_live q = if eqb q 1 then true else false

abbrev both_live : ℕ → Bool
both_live q = if eqb q 2 then true else first_live q

abbrev second_live : ℕ → Bool
second_live q = if eqb q 1 then false else both_live q

reconnection : HubRun second_live reconnected
reconnection = detached both_live (attach 2 first_attached) 1 (
    attached first_live first_attached 2
      (attached (λ _. false) (new_push_hub sockets) 1 (started sockets) refl) refl)

second_open : (reconnected.sockets 2).closed ≡ false
unfolding attach detach close_socket get put
second_open = refl

hub_finds_open_example :
    get (reconnected.sockets 2).installation_id reconnected.connections ≡ some 2
hub_finds_open_example = hub_finds_open second_live reconnected 2 reconnection refl second_open
