-- ===== src/Application/PushSocket/Reading.antt =====
-- internal/application/push_socket.go: the loop of readText answers pings until a text comes.

use Prim.Native.Nat.{bit_or}
use ferventio_backend.Base.{ℕ, ◌≤◌, ◌≡◌, false, List, [], ◌∷◌, ◌++◌, length}
use ferventio_backend.Application.PushSocket.{PushSocketConnection, size_bytes}
use ferventio_backend.Application.PushSocket.Frames.{client_frame}

-- A frame on its way from the server.
abbrev pub server_frame : ℕ → List ℕ → List ℕ
server_frame opcode payload = bit_or 0x80 opcode ∷ (size_bytes (length payload) ++ payload)

-- A ping: the mask and the payload of its frame.
abbrev pub IsPing : List ℕ × List ℕ → Type 0
IsPing ping = (length ping.0 ≡ 4) × (length ping.1 ≤ 125)

abbrev pub pings_then : List (List ℕ × List ℕ) → List ℕ → List ℕ
pings_then [] rest = rest
pings_then (ping ∷ pings) rest = client_frame 9 ping.0 ping.1 ++ pings_then pings rest

abbrev pub then_pongs : List ℕ → List (List ℕ × List ℕ) → List ℕ
then_pongs output [] = output
then_pongs output (ping ∷ pings) = then_pongs (output ++ server_frame 10 ping.1) pings

-- An open connection, on which writes reach the peer.
abbrev pub IsOpen : PushSocketConnection → Type 0
IsOpen c = (c.closed ≡ false) × (c.broken ≡ false)
