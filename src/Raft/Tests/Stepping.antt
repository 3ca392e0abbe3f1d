-- ===== src/Raft/Tests/Stepping.antt =====
-- The theorems about single steps: a follower whose time is over, a leader that is asked for an entry, and
-- an entry that is appended.
use cs525_project.Common.{ℕ, ◌≢◌, ◌≡◌, true, some, [], ◌∷◌, ok, arith}
use cs525_project.Raft.State.{RaftNode, follower, leader, init_entry, init}
use cs525_project.Raft.Log.{append_entry}
use cs525_project.Raft.Thread.{Thread, Readings, following, leading, tick, step}
use cs525_project.Raft.Roles.Steps.{Turns, step-Turns}
use cs525_project.Raft.AppendOnly.{Adds}
use cs525_project.Raft.AppendOnly.Steps.{step-Adds}
use cs525_project.Raft.Hash.{IsStored, append_entry-IsStored}
use cs525_project.Raft.Tests.{node, sending, new_entry, leader_clock}

-- The last heartbeat came at the time 5.
abbrev late : Readings
late = record { now = 9_000; now_later = 9_001; leader_clock = leader_clock; heard = λ k. 7 }

abbrev waiting : Thread
waiting = record {
  node = node follower;
  phase = following 5;
  listener = record { address_list = []; my_id = "a"; messages = [] };
}

step-Turns_example : Turns (tick late) waiting (step (tick late) waiting).node
unfolding init
step-Turns_example = step-Turns (tick late) waiting

-- A client has asked the leader for an entry.
abbrev asked : Thread
asked = record {
  node = record sending { client_queue = new_entry ∷ [] };
  phase = leading 5;
  listener = record { address_list = []; my_id = "a"; messages = [] };
}

leads : leader ≢ follower
leads e = cc

step-Adds_example : Adds asked.node (step (tick late) asked).node
unfolding init
step-Adds_example = step-Adds (tick late) asked leads

append_entry-IsStored_example :
    (p : ℕ × ℕ) × (t : RaftNode) × (append_entry new_entry true (some 0) sending ≡ (ok p, t))
    × IsStored new_entry (init_entry ∷ []) sending t
unfolding init
append_entry-IsStored_example = append_entry-IsStored new_entry true (some 0) sending (omega arith)
