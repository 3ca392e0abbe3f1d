-- ===== src/Membership/Edge.antt =====
-- src/edge.py: the loop of `main`, and the threads of the connections. A round of the loop, and a
-- message on a connection, is one step.
use cs525_project.Common.{
  ℕ, ◌-◌, String, List, [], ◌∷◌, ◌++◌, Result, ok, leb, if◌then◌else◌, ◌>>=◌,
}
use cs525_project.Common.Dict.{keys}
use cs525_project.Membership.{Table, kept, maintain_existing_connection, forget_silent}

-- In nanoseconds.
abbrev pub edge_advertisement_interval : ℕ
edge_advertisement_interval = 1_000_000_000

abbrev pub edge_heartbeat_timer : ℕ
edge_heartbeat_timer = 10_000_000_000

-- `sent` holds the broadcasts with their times, oldest first.
pub record EdgeServer : Type 0 where
  pub systime : ℕ
  pub known_nodes : Table
  pub sent : List (ℕ × String)

-- A message without a comma raises IndexError, which ends the thread of its connection only.
unfoldable pub hear_node : String → ℕ → EdgeServer → EdgeServer
hear_node message now s = record s {
  known_nodes = kept (maintain_existing_connection message now s.known_nodes) s.known_nodes;
}

unfoldable pub due_edge_round : String → ℕ → EdgeServer → Result EdgeServer
due_edge_round address now s = do
  known ← forget_silent edge_heartbeat_timer now (keys s.known_nodes) s.known_nodes
  ok (record s { systime = now; known_nodes = known; sent = s.sent ++ (now, address) ∷ [] })

-- A round of the loop: `test` is the clock at the test, and `now` when the round is due.
unfoldable pub edge_round : String → ℕ → ℕ → EdgeServer → Result EdgeServer
edge_round address test now s =
    let due = due_edge_round address now s in
    if leb edge_advertisement_interval (test - s.systime) then due else ok s

pub data EdgeEvent : Type 0 where
  hears : String → ℕ → EdgeEvent
  rounds : ℕ → ℕ → EdgeEvent

unfoldable pub edge_step : String → EdgeEvent → EdgeServer → Result EdgeServer
edge_step address (hears message now) s = ok (hear_node message now s)
edge_step address (rounds test now) s = edge_round address test now s

unfoldable pub edge_run : String → List EdgeEvent → EdgeServer → Result EdgeServer
edge_run address [] s = ok s
edge_run address (e ∷ rest) s = edge_step address e s >>= edge_run address rest
