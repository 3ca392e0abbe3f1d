-- ===== src/Membership/Node.antt =====
-- src/node.py: the loop of `main`, with the threads that listen for nodes and for the edge server. A
-- round of the loop, and an advertisement that a thread handles, is one step; while `local_consensus`
-- keeps the loop waiting, the threads go on.
use cs525_project.Common.{
  ℕ, ◌-◌, String, Option, none, some, List, [], ◌∷◌, ◌++◌, Result, ok, length, leb, ◌==◌,
  if◌then◌else◌, ◌>>=◌,
}
use cs525_project.Common.Dict.{keys}
use cs525_project.Framing.Connect.{Attempt, success, os_error}
use cs525_project.Membership.{
  Seen, Table, kept, advertisement, bluetooth_process_advertisement, edge_process_advertisement,
  forget_silent, forget_edge,
}

-- In nanoseconds.
abbrev pub bluetooth_advertisement_interval : ℕ
bluetooth_advertisement_interval = 500_000_000

abbrev pub bluetooth_heartbeat_timer : ℕ
bluetooth_heartbeat_timer = 5_000_000_000

abbrev pub edge_heartbeat_timer : ℕ
edge_heartbeat_timer = 10_000_000_000

-- `sent` holds the advertisements with their times, and `agreed` the groups that `local_consensus` was
-- called with, oldest first. A missing edge server is `(None, None)`.
pub record Node : Type 0 where
  pub systime : ℕ
  pub local_group : Table
  pub edge_server_address_time : Option Seen
  pub sent : List (ℕ × String)
  pub agreed : List Table

-- EDGE_UNICAST_TX_PORT
abbrev pub edge_unicast_tx_port : ℕ
edge_unicast_tx_port = 61_021

-- `edge_responder`, by what connecting to an address and a port does: the message that is sent on the
-- socket, or none if an error other than "already connected" (106) is raised. A socket that is connected
-- already stays with the address that it has.
abbrev pub respond : Attempt → String → Option String
respond success answer = some answer
respond (os_error errno) answer = if errno == 106 then some answer else none

unfoldable pub edge_responder : (String → ℕ → Attempt) → String → String → String → Option String
edge_responder connect edge_unicast_address address index =
    respond (connect edge_unicast_address edge_unicast_tx_port) (advertisement address index)

-- What a listening thread hears, and its reading of the clock.
pub data Heard : Type 0 where
  bluetooth : String → ℕ → Heard
  edge : String → ℕ → Heard

unfoldable pub hear : Heard → Node → Node
hear (bluetooth message now) s = record s {
  local_group = kept (bluetooth_process_advertisement message now s.local_group) s.local_group;
}
hear (edge message now) s = record s {
  edge_server_address_time = edge_process_advertisement message now s.edge_server_address_time;
}

unfoldable pub hear_all : List Heard → Node → Node
hear_all [] s = s
hear_all (h ∷ rest) s = hear_all rest (hear h s)

-- Consensus runs when the group has three nodes besides this one; `outcome` says whether it returns or
-- raises, and `during` is what the threads hear in the meantime.
unfoldable pub agree_if_three : Result (Unit {0}) → List Heard → Node → Result Node
agree_if_three outcome during s =
    if length (keys s.local_group) == 3
    then (outcome >>= λ _.
        ok (hear_all during (record s { agreed = s.agreed ++ s.local_group ∷ [] })))
    else ok s

-- The rest of a round, for the keys that the table had at its start.
abbrev pub sweep : List String → Node → Result Node
sweep keylist s = do
  group ← forget_silent bluetooth_heartbeat_timer s.systime keylist s.local_group
  ok (record s {
    edge_server_address_time =
        forget_edge edge_heartbeat_timer s.systime s.edge_server_address_time;
    local_group = group;
  })

unfoldable pub due_round : String → String → ℕ → Result (Unit {0}) → List Heard → Node → Result Node
due_round address index now outcome during s =
    agree_if_three outcome during
      (record s { systime = now; sent = s.sent ++ (now, advertisement address index) ∷ [] })
    >>= sweep (keys s.local_group)

-- A round of the loop: `test` is the clock at the test, and `now` when the round is due.
unfoldable pub node_round :
    String → String → ℕ → ℕ → Result (Unit {0}) → List Heard → Node → Result Node
node_round address index test now outcome during s =
    let due = due_round address index now outcome during s in
    if leb bluetooth_advertisement_interval (test - s.systime) then due else ok s

pub data NodeEvent : Type 0 where
  hears : Heard → NodeEvent
  rounds : ℕ → ℕ → Result (Unit {0}) → List Heard → NodeEvent

unfoldable pub node_step : String → String → NodeEvent → Node → Result Node
node_step address index (hears h) s = ok (hear h s)
node_step address index (rounds test now outcome during) s =
    node_round address index test now outcome during s

unfoldable pub node_run : String → String → List NodeEvent → Node → Result Node
node_run address index [] s = ok s
node_run address index (e ∷ rest) s = node_step address index e s >>= node_run address index rest
