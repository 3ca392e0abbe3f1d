-- ===== src/Raft/Tests.antt =====
-- A group of three nodes, on which the theorems about a node are tried.
mod Runs
mod Ballots
mod TwoCandidates
mod Leading
mod Replicating
mod Committing
mod Clustered
mod Stepping
use cs525_project.Common.{ℕ, String, none, some, List, [], ◌∷◌, pos}
use cs525_project.Json.{str}
use cs525_project.Protocol.{Entry}
use cs525_project.Raft.State.{RaftNode, Role, leader, init, init_entry}
use cs525_project.Raft.Leader.{LeaderClock}
use cs525_project.Raft.Thread.{Readings}

abbrev pub three_nodes : List String
three_nodes = "a" ∷ "b" ∷ "c" ∷ []

abbrev pub no_stamps : ℕ → ℕ
no_stamps k = k

abbrev pub node : Role → RaftNode
node role = init "first" three_nodes "a" 1_000 role no_stamps

abbrev pub leader_clock : LeaderClock
leader_clock = record {
  check = 20_000;
  beat = 20_001;
  resend_check = λ k. 5_000_000;
  resend_at = λ k. 5_000_001;
  ack = 20_002;
}

abbrev pub readings : Readings
readings = record { now = 5; now_later = 6; leader_clock = leader_clock; heard = λ k. 7 }

-- A leader with two entries, that is sending the second to "b".
abbrev pub sending : RaftNode
sending = record (node leader) {
  log = init_entry ∷ (record { term = 2; entry = str "x"; id = pos 4 }) ∷ [];
  next_index = none ∷ some 1 ∷ none ∷ [];
  match_index = 1 ∷ 0 ∷ 0 ∷ [];
}

abbrev pub new_entry : Entry
new_entry = record { term = 2; entry = str "x"; id = pos 4 }
