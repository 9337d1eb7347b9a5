-- ===== src/Application/PushSocket/Frames.antt =====
-- internal/application/push_socket.go: the reader against a client that writes frames as RFC 6455 says.
use ferventio_backend.Base.{
  ℕ, suc, ◌+◌, ◌≤◌, ◌<◌, ◌≡◌, refl, subst, true, inl, inr, some, List, [], ◌∷◌, ◌++◌, arith, ltb,
  leb, eqb, if◌then◌else◌, Bool-cases, take, drop, length, ltb→lt,
}
use ferventio_backend.Base.Lists.{length-append}
use ferventio_backend.Application.PushSocket.{max_socket_message_bytes, put_uint, read_full, unmask}

-- The length of a payload as a client writes it: with the bit of the mask, in one byte, three or nine.
abbrev pub client_size : ℕ → List ℕ
client_size n =
    if leb n 125
    then (0x80 + n) ∷ []
    else if leb n 65535
    then (0x80 + 126) ∷ put_uint 2 n
    else (0x80 + 127) ∷ put_uint 8 n

-- A whole message of a client, in one frame.
abbrev pub client_frame : ℕ → List ℕ → List ℕ → List ℕ
client_frame opcode mask payload =
    (0x80 + opcode) ∷ client_size (length payload) ++ mask ++ unmask 0 mask payload

eqb_sound : (a b : ℕ) → eqb a b ≡ true → a ≡ b
eqb_sound a b h = ground arith

take-append : (xs ys : List ℕ) → take (length xs) (xs ++ ys) ≡ xs
take-append [] ys = refl
take-append (x ∷ xs) ys = rw (take-append xs ys)

drop-append_all : (xs ys : List ℕ) → drop (length xs) (xs ++ ys) ≡ ys
drop-append_all [] ys = refl
drop-append_all (x ∷ xs) ys = drop-append_all xs ys

read_full_all : (xs ys : List ℕ) → read_full (length xs) (xs ++ ys) ≡ some (xs, ys)
unfolding read_full
read_full_all xs ys = elim (Bool-cases (ltb (length (xs ++ ys)) (length xs))) [
  | inl e ↦ absurd (omega (arith, length-append xs ys, ltb→lt _ _ e))
  | inr e ↦ rw (e, if◌then◌else◌, take-append xs ys, drop-append_all xs ys)
]

-- What is there is read, and the rest is left.
pub read_full-append :
    (n : ℕ) (xs ys : List ℕ) → length xs ≡ n → read_full n (xs ++ ys) ≡ some (xs, ys)
read_full-append n xs ys h =
    subst (λ k. read_full k (xs ++ ys) ≡ some (xs, ys)) h (read_full_all xs ys)

pub length-unmask : (i : ℕ) (mask xs : List ℕ) → length (unmask i mask xs) ≡ length xs
length-unmask i mask [] = refl
length-unmask i mask (x ∷ xs) = omega (arith, length-unmask (suc i) mask xs)

-- The length as the client writes it is the length that the code reads.
abbrev size_head : ℕ → ℕ
size_head n = if leb n 125 then n else if leb n 65535 then 126 else 127

abbrev size_tail : ℕ → List ℕ
size_tail n = if leb n 125 then [] else if leb n 65535 then put_uint 2 n else put_uint 8 n

-- What a client may send: a control frame of up to 125 bytes, or another of up to 64 KiB.
abbrev pub IsSendable : ℕ → ℕ → Type 0
IsSendable opcode n = (opcode < 16) × (n ≤ (if leb 8 opcode then 125 else max_socket_message_bytes))
