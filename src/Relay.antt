-- ===== src/Relay.antt =====
-- src/bluetooth_broadcast_node.py and src/edge_broadcast_node.py: the node that stands in for a
-- broadcast channel. The two files differ in their ports only.
use cs525_project.Common.{
  ℕ, suc, String, Bool, true, false, ◌≡◌, refl, List, [], ◌∷◌, All, ◌==◌, str_eq, if◌then◌else◌,
  Bool-cases, inl, inr, arith,
}

-- What connecting to a listener and sending to it may do: it succeeds, or raises OSError with a number.
pub data Attempt : Type 0 where
  sent : Attempt
  os_error : ℕ → Attempt

-- What was sent, and whether the loop ended without an error.
pub record Relayed : Type 0 where
  pub receivers : List String
  pub errno : List ℕ

abbrev pub refused : ℕ
refused = 111

-- What an attempt does with the rest of the loop.
abbrev pub after_attempt : String → Attempt → Relayed → Relayed
after_attempt listener sent rest = record rest { receivers = listener ∷ rest.receivers }
after_attempt listener (os_error errno) rest =
    if errno == refused then rest else record { receivers = []; errno = errno ∷ [] }

-- What connecting and sending do at each place of the list of recipients, for the listener there. What
-- they do may depend on what was sent before: an error that an inactive listener causes may be reported
-- at a later listener.
abbrev pub Attempts : Type 0
Attempts = ℕ → String → Attempt

-- The loop of `bluetooth_process_advertisement` and of `edge_process_advertisement`, from a place on.
unfoldable pub process_advertisement : Attempts → ℕ → String → List String → Relayed
process_advertisement attempt k sender [] = record { receivers = []; errno = [] }
process_advertisement attempt k sender (listener ∷ rest) =
    let others = process_advertisement attempt (suc k) sender rest in
    if str_eq listener sender then others else after_attempt listener (attempt k listener) others

-- What the socket does for each datagram that is passed on, by its number, at each place of the list, for
-- the address there and a port.
abbrev pub Network : Type 0
Network = ℕ → ℕ → String → ℕ → Attempt

-- The ports of the listening nodes: BLUETOOTH_TX_PORT and NODE_TX_PORT of the two files.
abbrev pub bluetooth_tx_port : ℕ
bluetooth_tx_port = 59_031

abbrev pub node_tx_port : ℕ
node_tx_port = 63_031

unfoldable pub bluetooth_process_advertisement : Network → ℕ → String → List String → Relayed
unfolding process_advertisement
bluetooth_process_advertisement network number sender recipients =
    process_advertisement (λ k a. network number k a bluetooth_tx_port) 0 sender recipients

unfoldable pub edge_process_advertisement : Network → ℕ → String → List String → Relayed
unfolding process_advertisement
edge_process_advertisement network number sender recipients =
    process_advertisement (λ k a. network number k a node_tx_port) 0 sender recipients

-- A datagram that a broadcast node receives.
pub record Datagram : Type 0 where
  pub message : String
  pub sender : String

-- What becomes of a datagram, and of those after it: an exception of the worker is raised again by
-- `.result()` and ends the loop.
abbrev pub and_then : String → Relayed → List (String × List String) → List (String × List String)
and_then message r later = elim r.errno [
  | [] ↦ (message, r.receivers) ∷ later
  | e ∷ es ↦ (message, r.receivers) ∷ []
]

-- `bluetooth_listener` and `edge_listener`, from the datagram with a number on: each message with those
-- that it was sent to.
unfoldable pub listener_loop :
    (ℕ → String → List String → Relayed)
    → ℕ
    → List String
    → List Datagram
    → List (String × List String)
listener_loop process number recipients [] = []
listener_loop process number recipients (d ∷ rest) =
    and_then d.message (process number d.sender recipients)
      (listener_loop process (suc number) recipients rest)

-- An attempt that does not end the loop.
abbrev pub IsHarmless : Attempt → Type 0
IsHarmless sent = Unit
IsHarmless (os_error errno) = errno ≡ refused

abbrev is_sent : Attempt → Bool
is_sent sent = true
is_sent (os_error _) = false

-- The recipients that are not the sender and for which sending succeeds.
abbrev pub reached : Attempts → ℕ → String → List String → List String
reached attempt k sender [] = []
reached attempt k sender (listener ∷ rest) =
    let others = reached attempt (suc k) sender rest in
    if str_eq listener sender
    then others
    else if is_sent (attempt k listener)
    then listener ∷ others
    else others

same_refused : (errno : ℕ) → errno ≡ refused → (errno == refused) ≡ true
same_refused errno h = ground arith

after_attempt-harmless :
    (listener : String) (a : Attempt) (others : List String)
    → IsHarmless a
    → after_attempt listener a (record { receivers = others; errno = [] })
      ≡ record { receivers = (if is_sent a then listener ∷ others else others); errno = [] }
after_attempt-harmless listener sent others h = refl
after_attempt-harmless listener (os_error errno) others h = rw (same_refused errno h)

-- Whatever the socket does at each place of the list of recipients, as long as it sends or reports a
-- refusal there: the loop ends without an error, and the message has gone, in their order, to exactly the
-- recipients that are not its sender and for which no refusal was reported.
pub process_advertisement-reached :
    (attempt : Attempts) (k : ℕ) (sender : String) (recipients : List String)
    → ((i : ℕ) → All (λ r. IsHarmless (attempt i r)) recipients)
    → process_advertisement attempt k sender recipients
      ≡ record { receivers = reached attempt k sender recipients; errno = [] }
unfolding process_advertisement
process_advertisement-reached attempt k sender [] h = refl
process_advertisement-reached attempt k sender (r ∷ rest) h =
    let later = process_advertisement-reached attempt (suc k) sender rest (λ i. (h i).1) in
    elim (Bool-cases (str_eq r sender)) [
      | inl e ↦ rw e later
      | inr n ↦
          rw (n, later)
            (after_attempt-harmless r (attempt k r) (reached attempt (suc k) sender rest) (h k).0)
    ]
