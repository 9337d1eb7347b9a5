-- ===== src/Application/PushSocket.antt =====
-- internal/application/push_socket.go: the frames of the WebSocket. A byte is a number, the input is what
-- the peer sends before its end or the deadline, and the output what reaches the peer. `eof` is any error
-- of the reader. On a connection that is `broken`, the writer returns an error.
pub mod Frames
pub mod Reading
pub mod Hub
use mathlib.Core.Option
use Prim.Native.Nat.{bit_and, bit_or, bit_xor}
use ferventio_backend.Base.{
  ℕ, zero, suc, ◌+◌, ◌-◌, ◌*◌, ◌/◌, ◌%◌, ◌^◌, String, Bool, true, false, not, ◌||◌, Option, none,
  some, List, [], ◌∷◌, ◌++◌, ltb, leb, eqb, if◌then◌else◌, take, drop, length, Result, ok, err,
}

abbrev pub max_socket_message_bytes : ℕ
max_socket_message_bytes = 64 * 1024

-- The errors of a connection; `net_closed` is net.ErrClosed.
pub data SocketError : Type 0 where
  eof reserved_bits not_masked fragmented_control control_too_long : SocketError
  fragmented too_large net_closed write_failed : SocketError
  unsupported_opcode : ℕ → SocketError

pub record PushSocketConnection : Type 0 where
  pub installation_id : String
  pub connection_id : String
  pub input : List ℕ
  pub output : List ℕ
  pub closed : Bool
  pub broken : Bool

pub record Frame : Type 0 where
  pub opcode : ℕ
  pub payload : List ℕ

-- binary.BigEndian.PutUint16 and PutUint64, of a number that fits.
abbrev pub put_uint : ℕ → ℕ → List ℕ
put_uint zero n = []
put_uint (suc k) n = n / 256 ^ k % 256 ∷ put_uint k n

-- binary.BigEndian.Uint16 and Uint64
abbrev pub get_uint : ℕ → List ℕ → ℕ
get_uint acc [] = acc
get_uint acc (b ∷ bs) = get_uint (acc * 256 + b) bs

unfoldable pub size_bytes : ℕ → List ℕ
size_bytes n =
    if leb n 125 then n ∷ [] else if leb n 65535 then 126 ∷ put_uint 2 n else 127 ∷ put_uint 8 n

unfoldable pub write_frame :
    ℕ → List ℕ → PushSocketConnection → PushSocketConnection × Option SocketError
write_frame opcode payload c =
    if c.closed then (c, some net_closed) else if c.broken then (c, some write_failed) else (
      record c {
        output = c.output ++ (bit_or 0x80 opcode ∷ (size_bytes (length payload) ++ payload));
      },
      none,
    )

-- io.ReadFull of n bytes
unfoldable pub read_full : ℕ → List ℕ → Option (List ℕ × List ℕ)
read_full n input = if ltb (length input) n then none else some (take n input, drop n input)

-- The length after the seven bits that say how it is written.
unfoldable pub read_length : ℕ → List ℕ → Option (ℕ × List ℕ)
read_length length input =
    if eqb length 126
    then Option.map (λ r. (get_uint 0 r.0, r.1)) (read_full 2 input)
    else if eqb length 127
    then Option.map (λ r. (get_uint 0 r.0, r.1)) (read_full 8 input)
    else some (length, input)

unfoldable pub check_frame : Bool → ℕ → ℕ → Option SocketError
check_frame fin opcode length =
    if leb 8 opcode
    then (if not fin
        then some fragmented_control
        else if ltb 125 length
        then some control_too_long
        else if ltb max_socket_message_bytes length
        then some too_large
        else none)
    else if not fin
    then some fragmented
    else if ltb max_socket_message_bytes length
    then some too_large
    else none

abbrev pub nth : ℕ → List ℕ → ℕ
nth n [] = 0
nth zero (b ∷ bs) = b
nth (suc n) (b ∷ bs) = nth n bs

-- payload[index] ^= mask[index%4], from an index on
abbrev pub unmask : ℕ → List ℕ → List ℕ → List ℕ
unmask index mask [] = []
unmask index mask (b ∷ bs) = bit_xor b (nth (index % 4) mask) ∷ unmask (suc index) mask bs

-- One frame off the input, masked as a client sends it.
unfoldable pub read_payload : ℕ → ℕ → List ℕ → Result SocketError (Frame × List ℕ)
read_payload opcode length input = elim (read_full 4 input) [
  | none ↦ err eof
  | some (mask, input) ↦ elim (read_full length input) [
    | none ↦ err eof
    | some (payload, rest) ↦ ok (record { opcode = opcode; payload = unmask 0 mask payload }, rest)
  ]
]

abbrev pub checked :
    Option SocketError → Result SocketError (Frame × List ℕ) → Result SocketError (Frame × List ℕ)
checked none frame = frame
checked (some error) frame = err error

-- The frame after its length.
abbrev pub read_sized : Bool → ℕ → Option (ℕ × List ℕ) → Result SocketError (Frame × List ℕ)
read_sized fin opcode none = err eof
read_sized fin opcode (some (length, rest)) =
    checked (check_frame fin opcode length) (read_payload opcode length rest)

unfoldable pub read_frame : List ℕ → Result SocketError (Frame × List ℕ)
read_frame [] = err eof
read_frame (first ∷ []) = err eof
read_frame (first ∷ second ∷ input) =
    let opcode = bit_and first 0x0f in
    let fin = not (eqb (bit_and first 0x80) 0) in
    if not (eqb (bit_and first 0x70) 0)
    then err reserved_bits
    else if eqb (bit_and second 0x80) 0
    then err not_masked
    else read_sized fin opcode (read_length (bit_and second 0x7f) input)

-- What the loop does with a frame: an answer of `some` ends it.
unfoldable pub handle_frame :
    Frame → PushSocketConnection → PushSocketConnection × Option (Result SocketError (List ℕ))
handle_frame frame c =
    let (closing, _) = write_frame 8 frame.payload c in
    let (answered, failed) = write_frame 0xa frame.payload c in
    if eqb frame.opcode 1
    then (c, some (ok frame.payload))
    else if eqb frame.opcode 8
    then (closing, some (err eof))
    else if eqb frame.opcode 9
    then (answered, Option.map err failed)
    else if eqb frame.opcode 0xa
    then (c, none)
    else (c, some (err (unsupported_opcode frame.opcode)))

-- The loop of readText, by its first rounds; none if it still runs after them. The code does not
-- bound them: each has its own deadline, and a peer may send control frames for ever.
unfoldable pub read_text_within :
    ℕ → PushSocketConnection → PushSocketConnection × Option (Result SocketError (List ℕ))
read_text_within zero c = (c, none)
read_text_within (suc rounds) c = elim (read_frame c.input) [
  | err error ↦ (c, some (err error))
  | ok (frame, rest) ↦
      let (c', answer) = handle_frame frame (record c { input = rest }) in
      elim answer [ some result ↦ (c', some result) | none ↦ read_text_within rounds c' ]
]
