-- ===== src/Membership/Tests.antt =====
-- The loops of a node and of an edge server on small runs.
use cs525_project.Common.{
  ℕ, ◌&&◌, ◌==◌, str_eq, if◌then◌else◌, String, ◌≡◌, none, List, [], ◌∷◌, ok, arith,
}
use cs525_project.Common.Dict.{lookup}
use cs525_project.Relay.{Network, sent}
use cs525_project.Relay as Relay
use cs525_project.Membership.Neighbours.{Peer, known}
use cs525_project.Membership.Node as Node
use cs525_project.Membership.Keeping as Keeping
use cs525_project.Membership.Keeping.{node_run-IsUpToDate}
use cs525_project.Membership.Edge as Edge
use cs525_project.Membership.EdgeKeeping as EdgeKeeping
use cs525_project.Membership.EdgeKeeping.{edge_run-IsUpToDate}

abbrev new_node : Node.Node
new_node = record {
  systime = 0;
  local_group = [];
  edge_server_address_time = none;
  sent = [];
  agreed = [];
}

new_node-IsUpToDate : Keeping.IsUpToDate 0 new_node
unfolding lookup
new_node-IsUpToDate = record {
  past = omega arith;
  paced = record { spaced = tt; past = tt };
  group = record { distinct = tt; fresh = λ i. tt };
  server = tt;
}

-- Three nodes are heard from, consensus runs at the first round, and a node comes in the meantime; at
-- the last round the first three have been silent.
abbrev node_events : List Node.NodeEvent
node_events =
    Node.hears (Node.bluetooth "a,1" 100)
    ∷ Node.hears (Node.bluetooth "b,2" 200)
    ∷ Node.hears (Node.bluetooth "c,3" 300)
    ∷ Node.hears (Node.edge "e" 300)
    ∷ Node.rounds 600_000_000 600_000_001 (ok tt)
        (Node.bluetooth "d,4" 2_000_000_000 ∷ Node.bluetooth "d" 3_000_000_000 ∷ [])
    ∷ Node.rounds 6_000_000_000 6_000_000_001 (ok tt) []
    ∷ []

node_run-IsUpToDate_example :
    Keeping.Yields
      (Keeping.IsUpToDate 6_000_000_001)
      (Keeping.HasRaised node_events)
      (Node.node_run "x" "9" node_events new_node)
node_run-IsUpToDate_example =
    node_run-IsUpToDate "x" "9" node_events 0 new_node
      (
        omega arith,
        (
          omega arith,
          (
            omega arith,
            (
              omega arith,
              (
                omega arith,
                omega arith,
                (omega arith, (omega arith, tt)),
                (omega arith, omega arith, tt, tt),
              ),
            ),
          ),
        ),
      )
      new_node-IsUpToDate

abbrev new_server : Edge.EdgeServer
new_server = record { systime = 0; known_nodes = []; sent = [] }

new_server-IsUpToDate : EdgeKeeping.IsUpToDate 0 new_server
unfolding lookup
new_server-IsUpToDate = record {
  past = omega arith;
  paced = record { spaced = tt; past = tt };
  known = record { distinct = tt; fresh = λ i. tt };
}

abbrev server_events : List Edge.EdgeEvent
server_events =
    Edge.hears "a,1" 100
    ∷ Edge.hears "a" 200
    ∷ Edge.rounds 2_000_000_000 2_000_000_001
    ∷ Edge.rounds 2_500_000_000 2_500_000_001
    ∷ Edge.rounds 12_000_000_000 12_000_000_001
    ∷ []

edge_run-IsUpToDate_example :
    (after : Edge.EdgeServer) × (Edge.edge_run "e" server_events new_server ≡ ok after)
    × EdgeKeeping.IsUpToDate 12_000_000_001 after
edge_run-IsUpToDate_example =
    edge_run-IsUpToDate "e" server_events 0 new_server
      (
        omega arith,
        (
          omega arith,
          (omega arith, omega arith, (omega arith, omega arith, (omega arith, omega arith, tt))),
        ),
      )
      new_server-IsUpToDate

-- Three nodes; "b" listens, and the last message for "c" is refused.
abbrev group : List Peer
group = ("a", "1") ∷ ("b", "2") ∷ ("c", "3") ∷ []

abbrev channel : Network
channel number k a port = if str_eq a "c" && number == 1 then Relay.os_error 111 else sent

abbrev recipients : List String
recipients = "a" ∷ "b" ∷ "c" ∷ []

abbrev clock : String → ℕ
clock message = 70
