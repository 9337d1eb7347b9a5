-- ===== src/Application/PushSocket/Hub.antt =====
-- internal/application/push_socket.go: the hub of the connections, one for an installation. A pointer to a
-- connection is a number, and `sockets` what it points to. The bytes of a message are an argument.
pub mod Single
use ferventio_backend.Base.{
  ℕ, ◌≡◌, String, Bool, true, false, not, ◌&&◌, Option, none, some, List, [], eqb, if◌then◌else◌,
}
use ferventio_backend.Base.GoMap.{GoMap, get, put, delete}
use ferventio_backend.Application.PushSocket.{PushSocketConnection, SocketError, write_frame}

pub record PushHub : Type 0 where
  pub connections : GoMap ℕ
  pub sockets : ℕ → PushSocketConnection

pub data SendError : Type 0 where
  not_connected : SendError
  socket_failed : SocketError → SendError

abbrev pub new_push_hub : (ℕ → PushSocketConnection) → PushHub
new_push_hub sockets = record { connections = []; sockets = sockets }

-- *p = c
abbrev pub store_socket : ℕ → PushSocketConnection → PushHub → PushHub
store_socket p c hub = record hub { sockets = λ q. if eqb q p then c else hub.sockets q }

-- connection.close()
unfoldable pub close_socket : ℕ → PushHub → PushHub
close_socket p hub = store_socket p (record (hub.sockets p) { closed = true }) hub

unfoldable pub attach : ℕ → PushHub → PushHub
attach p hub =
    let id = (hub.sockets p).installation_id in
    let attached = record hub { connections = put id p hub.connections } in
    elim (get id hub.connections) [
      | none ↦ attached
      | some previous ↦ if eqb previous p then attached else close_socket previous attached
    ]

unfoldable pub detach : ℕ → PushHub → PushHub
detach p hub =
    let id = (hub.sockets p).installation_id in
    elim (get id hub.connections) [
      | none ↦ hub
      | some current ↦
          if eqb current p then record hub { connections = delete id hub.connections } else hub
    ]

-- Send
unfoldable pub send_to : String → List ℕ → PushHub → PushHub × Option SendError
send_to installation_id payload hub = elim (get installation_id hub.connections) [
  | none ↦ (hub, some not_connected)
  | some p ↦
      let (c, failed) = write_frame 1 payload (hub.sockets p) in
      elim failed [
        | none ↦ (store_socket p c hub, none)
        | some error ↦ (close_socket p (store_socket p c hub), some (socket_failed error))
      ]
]

-- Close
unfoldable pub close_installation : String → PushHub → PushHub
close_installation installation_id hub = elim (get installation_id hub.connections) [
  | none ↦ hub
  | some p ↦ close_socket p hub
]
