-- ===== src/Framing.antt =====
-- src/raft/berkeley_socket_interface.py: the frames on a TCP connection between two nodes, in
-- `Talker.run` and `Listener.handle_socket`. A stream is the list of its bytes. A `recv` gives as many bytes
-- as it is asked for here, as it does when they have arrived; a socket may give fewer, which the code
-- does not look at.
pub mod Connect
pub mod Payload
pub mod Talking
pub mod Listening
use cs525_project.Common.{
  ℕ, zero, suc, ◌+◌, ◌*◌, ◌/◌, ◌%◌, ◌<◌, ◌≤◌, ◌≡◌, refl, ap, Option, none, some, List, [], ◌∷◌,
  ◌++◌, arith, length, take, drop, All, ltb, if◌then◌else◌, lt→ltb,
}

-- `messagelen.to_bytes(2, "big") + message.encode()`; a length of more than two bytes raises
-- OverflowError.
unfoldable pub frame : List ℕ → Option (List ℕ)
frame message =
    let messagelen = length message in
    if ltb messagelen 65_536 then some (messagelen / 256 ∷ messagelen % 256 ∷ message) else none

-- A frame before the frames that follow, if there was no error.
abbrev pub before : Option (List ℕ) → Option (List ℕ) → Option (List ℕ)
before (some f) (some fs) = some (f ++ fs)
before _ _ = none

-- The frames of the messages of a queue, one after the other, as the talker sends them.
unfoldable pub send_all : List (List ℕ) → Option (List ℕ)
send_all [] = some []
send_all (m ∷ rest) = before (frame m) (send_all rest)

-- `int.from_bytes(socket.recv(2), "big")` and `socket.recv(msglen)`, on a stream that has arrived
unfoldable pub handle_frame : List ℕ → Option (List ℕ × List ℕ)
handle_frame (high ∷ low ∷ rest) =
    let msglen = 256 * high + low in some (take msglen rest, drop msglen rest)
handle_frame _ = none

abbrev pub and_then : Option (List ℕ × List ℕ) → (List ℕ → List (List ℕ)) → List (List ℕ)
and_then none loop = []
and_then (some (msg, rest)) loop = msg ∷ loop rest

-- The loop of `handle_socket`, until the stream has no further frame.
unfoldable pub handle_socket : ℕ → List ℕ → List (List ℕ)
handle_socket zero stream = []
handle_socket (suc fuel) stream = and_then (handle_frame stream) (handle_socket fuel)

pub handle_frame-nil : handle_frame [] ≡ none
unfolding handle_frame
handle_frame-nil = refl

take-front : (xs ys : List ℕ) → take (length xs) (xs ++ ys) ≡ xs
take-front [] ys = refl
take-front (x ∷ xs) ys = ap (λ (l : List ℕ). x ∷ l) (take-front xs ys)

drop-front : (xs ys : List ℕ) → drop (length xs) (xs ++ ys) ≡ ys
drop-front [] ys = refl
drop-front (x ∷ xs) ys = drop-front xs ys

two_bytes : (n : ℕ) → 256 * (n / 256) + n % 256 ≡ n
two_bytes n = omega arith

pub handle_frame-frame :
    (m rest : List ℕ) → handle_frame (length m / 256 ∷ length m % 256 ∷ m ++ rest) ≡ some (m, rest)
unfolding handle_frame
handle_frame-frame m rest = rw (two_bytes (length m), take-front m rest, drop-front m rest)

-- The stream of the frames of some messages.
abbrev pub stream_of : List (List ℕ) → List ℕ
stream_of [] = []
stream_of (m ∷ rest) = length m / 256 ∷ length m % 256 ∷ m ++ stream_of rest

pub frame-small :
    (m : List ℕ) → length m < 65_536 → frame m ≡ some (length m / 256 ∷ length m % 256 ∷ m)
unfolding frame
frame-small m h = rw (lt→ltb (length m) 65_536 h)

send_all-stream :
    (ms : List (List ℕ)) → All (λ m. length m < 65_536) ms → send_all ms ≡ some (stream_of ms)
unfolding send_all
send_all-stream [] h = refl
send_all-stream (m ∷ rest) h = rw (frame-small m h.0, send_all-stream rest h.1)

pub handle_socket-stream :
    (ms : List (List ℕ)) (fuel : ℕ) → length ms ≤ fuel → handle_socket fuel (stream_of ms) ≡ ms
unfolding handle_socket
handle_socket-stream [] zero h = refl
handle_socket-stream [] (suc fuel) h = rw handle_frame-nil
handle_socket-stream (m ∷ rest) zero h = let no : ⊥ = omega (arith, h) in absurd no
handle_socket-stream (m ∷ rest) (suc fuel) h =
    rw (handle_frame-frame m (stream_of rest))
      (ap (λ (l : List (List ℕ)). m ∷ l) (handle_socket-stream rest fuel (omega (arith, h))))

-- Messages of fewer than 65536 bytes are sent without an error, and the listener takes the same
-- messages, in the same order, out of the stream; it needs one round of its loop for each.
pub handle_socket-send_all :
    (ms : List (List ℕ)) (fuel : ℕ)
    → All (λ m. length m < 65_536) ms
    → length ms ≤ fuel
    → (stream : List ℕ) × (send_all ms ≡ some stream) × (handle_socket fuel stream ≡ ms)
handle_socket-send_all ms fuel small enough =
    (stream_of ms, send_all-stream ms small, handle_socket-stream ms fuel enough)
