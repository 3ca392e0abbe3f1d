-- ===== src/Membership/Neighbours.antt =====
-- How the nodes of a group get to know each other: each advertises once (src/node.py,
-- `bluetooth_sender`), the broadcast node passes the messages on (src/bluetooth_broadcast_node.py), and
-- the listening thread of a node stores what comes for it (`bluetooth_process_advertisement`).
pub mod Known
use mathlib.Core.Path.{subst}
use cs525_project.Common.{
  ℕ, suc, String, Bool, true, false, not, ◌||◌, ◌≡◌, ◌≢◌, refl, sym, ◌∙◌, ap, ◌⊎◌, inl, inr, Option,
  some, List, [], ◌∷◌, ◌++◌, ◌&&◌, All, arith, str_eq, eq_iff, if◌then◌else◌, Bool-cases, map,
}
use cs525_project.Common.Dict.{lookup, keys, IsDistinct, str_eq_refl, str_eq_sound}
use cs525_project.Common.Members.{IsIn, here, there, Differ}
use cs525_project.Common.Parts.{has_no_comma}
use cs525_project.Relay.{
  Attempts, sent, Network, bluetooth_tx_port, IsHarmless, Datagram, reached, process_advertisement,
  bluetooth_process_advertisement, listener_loop, process_advertisement-reached,
}
use cs525_project.Membership.{advertisement, kept, Seen}
use cs525_project.Membership.Advertise.{process_advertisement-lookup}
use cs525_project.Membership.Node.{Node, Heard, bluetooth, hear, hear_all}

-- A node by its address and its index.
abbrev pub Peer : Type 0
Peer = String × String

abbrev pub advertises : Peer → Datagram
advertises p = record { message = advertisement p.0 p.1; sender = p.0 }

-- A message reaches an address once for each time that the address is among its receivers.
abbrev pub copies : String → Heard → List String → List Heard
copies address h [] = []
copies address h (x ∷ xs) =
    let more = copies address h xs in if str_eq x address then h ∷ more else more

-- The messages for an address among those that were passed on, each with the time of its arrival.
abbrev pub heard_at : (String → ℕ) → String → List (String × List String) → List Heard
heard_at clock address [] = []
heard_at clock address ((message, receivers) ∷ rest) =
    copies address (bluetooth message (clock message)) receivers ++ heard_at clock address rest

-- What a node of an address knows after each node of a group has advertised once, and the broadcast
-- node has passed all messages on.
unfoldable pub meet : Network → List String → (String → ℕ) → String → List Peer → Node → Node
unfolding listener_loop bluetooth_process_advertisement hear_all
meet network recipients clock address group n =
    hear_all
      (heard_at clock address (
        listener_loop (bluetooth_process_advertisement network) 0 recipients
          (map advertises group)))
      n

pub hear_all-append :
    (xs ys : List Heard) (n : Node) → hear_all (xs ++ ys) n ≡ hear_all ys (hear_all xs n)
unfolding hear_all
hear_all-append [] ys n = refl
hear_all-append (x ∷ xs) ys n = hear_all-append xs ys (hear x n)

-- Whether an address is among some others.
abbrev pub has : String → List String → Bool
has a [] = false
has a (x ∷ xs) = str_eq x a || has a xs

module _ (network : Network) (recipients : List String)
    (harmless : (n k : ℕ)
      → All (λ r. IsHarmless (network n k r bluetooth_tx_port)) recipients) where
  -- Each message with those that it has reached.
  abbrev pub passed : ℕ → List Datagram → List (String × List String)
  passed n [] = []
  passed n (d ∷ rest) =
      (d.message, reached (λ k a. network n k a bluetooth_tx_port) 0 d.sender recipients)
      ∷ passed (suc n) rest

  -- The broadcast node goes on after each message.
  pub listener_loop-reached :
      (n : ℕ) (ds : List Datagram)
      → listener_loop (bluetooth_process_advertisement network) n recipients ds ≡ passed n ds
  unfolding listener_loop bluetooth_process_advertisement
  listener_loop-reached n [] = refl
  listener_loop-reached n (d ∷ rest) = rw (
    process_advertisement-reached (λ k a. network n k a bluetooth_tx_port) 0 d.sender recipients
        (harmless n),
    listener_loop-reached (suc n) rest,
  )

-- A recipient for which sending succeeds gets what another address sends, and no address gets its own
-- messages.
module _ (attempt : Attempts) (a : String) where
  pub has-reached :
      (k : ℕ) (sender : String) (recipients : List String)
      → ((i : ℕ) → attempt i a ≡ sent)
      → IsIn a recipients
      → a ≢ sender
      → has a (reached attempt k sender recipients) ≡ true
  has-reached k sender [] active m other = elim m [ ]
  has-reached k sender (r ∷ rest) active (here e) other =
      subst (λ x. has a (reached attempt k sender (x ∷ rest)) ≡ true) e
        (ground (arith, eq_iff a sender, str_eq_refl a, active k))
  has-reached k sender (r ∷ rest) active (there m) other =
      ground (arith, eq_iff r sender, eq_iff r a, has-reached (suc k) sender rest active m other)

  pub not_own : (k : ℕ) (recipients : List String) → has a (reached attempt k a recipients) ≡ false
  not_own k [] = refl
  not_own k (r ∷ rest) = ground (arith, eq_iff r a, not_own (suc k) rest)

-- What a node knows under an index.
abbrev pub known : String → Node → Option Seen
known i n = lookup i n.local_group

module _ (p : Peer) (time : ℕ) (a : has_no_comma p.0 ≡ true) (b : has_no_comma p.1 ≡ true) where
  abbrev pub from_peer : Heard
  from_peer = bluetooth (advertisement p.0 p.1) time

  hear-known :
      (n : Node)
      → IsDistinct (keys n.local_group)
      → IsDistinct (keys (hear from_peer n).local_group)
        × ((i : String)
            → known i (hear from_peer n) ≡ (if str_eq p.1 i then some (p.0, time) else known i n))
  unfolding hear
  hear-known n d =
      let (after, stored, _, distinct, looked) =
        process_advertisement-lookup p.0 p.1 time n.local_group a b d in
      rw stored (distinct, looked)

  pub copies-known :
      (address : String) (receivers : List String) (n : Node)
      → IsDistinct (keys n.local_group)
      → (let n' = hear_all (copies address from_peer receivers) n in
          IsDistinct (keys n'.local_group)
          × ((i : String)
              → known i n'
                ≡ (if has address receivers && str_eq p.1 i then some (p.0, time) else known i n)))
  unfolding hear_all
  copies-known address [] n d = (d, λ i. refl)
  copies-known address (x ∷ xs) n d = elim (Bool-cases (str_eq x address)) [
    | inr n' ↦ rw n' (copies-known address xs n d)
    | inl y ↦
        (let (d1, k1) = hear-known n d in
          let (d2, k2) = copies-known address xs (hear from_peer n) d1 in
          rw y (d2, λ i. ground (arith, k1 i, k2 i)))
  ]
