-- ===== src/Membership/Neighbours/Known.antt =====
-- What a node knows of the others after each has advertised once.
use cs525_project.Common.{
  ℕ, String, true, not, ◌≡◌, Option, some, List, [], ◌∷◌, ◌&&◌, All, str_eq, if◌then◌else◌, map,
}
use cs525_project.Common.Members.{IsIn}
use cs525_project.Common.Parts.{has_no_comma}
use cs525_project.Relay.{Attempts, sent, Network, bluetooth_tx_port, IsHarmless}
use cs525_project.Membership.{advertisement, Seen}
use cs525_project.Membership.Node.{Node, Heard}
use cs525_project.Membership.Neighbours.{Peer, advertises, heard_at, passed}

-- The last of the others with an index, from what was known before.
abbrev told : (String → ℕ) → String → List Peer → String → Option Seen → Option Seen
told clock address [] j before = before
told clock address (q ∷ rest) j before = told clock address rest j (
    if not (str_eq q.0 address) && str_eq q.1 j
    then some (q.0, clock (advertisement q.0 q.1))
    else before)

abbrev pub HasNoCommas : Peer → Type 0
HasNoCommas q = (has_no_comma q.0 ≡ true) × (has_no_comma q.1 ≡ true)

module _ (network : Network) (recipients : List String) (clock : String → ℕ) (address : String)
    (harmless : (n k : ℕ) → All (λ r. IsHarmless (network n k r bluetooth_tx_port)) recipients)
    (active : (n k : ℕ) → network n k address bluetooth_tx_port ≡ sent)
    (member : IsIn address recipients) where
  abbrev tries : ℕ → Attempts
  tries n k r = network n k r bluetooth_tx_port

  abbrev heard_from : ℕ → List Peer → List Heard
  heard_from number group =
      heard_at clock address (passed network recipients harmless number (map advertises group))
