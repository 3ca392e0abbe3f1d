-- ===== src/Raft/Tests/Leading.antt =====
-- The theorems about a leader of three nodes.
use cs525_project.Common.{
  ℕ, ◌≤◌, ◌≡◌, refl, ◌≢◌, ◌↔◌, true, none, some, [], ◌∷◌, arith, get_elem?, All, pos,
}
use cs525_project.Json.{str}
use cs525_project.Protocol.{appends, AppendEntriesMessage, append_entries_message}
use cs525_project.Protocol.MessageType
use cs525_project.Protocol.MessageDirection
use cs525_project.Raft.State.{leader, init}
use cs525_project.Raft.Log.{index_of}
use cs525_project.Raft.Committable.{max_committable_index}
use cs525_project.Raft.Committable.Least.{le-max_committable_index}
use cs525_project.Raft.Leader.{leader_start, leader_round, broadcast_commit_entries}
use cs525_project.Raft.Returns.{Returns}
use cs525_project.Raft.Leadership.{Group, IsLeading}
use cs525_project.Raft.Leadership.Assign.{Leads}
use cs525_project.Raft.Leadership.Rounds.{
  LeadsOn, IsAnswerable, leader_start-Leads, leader_round-Leads,
}
use cs525_project.Raft.Replication.Committing.{Tells, broadcast_commit_entries-Tells}
use cs525_project.Raft.Tests.{three_nodes, node, leader_clock, sending}

le-max_committable_index_example :
    (2 ≤ max_committable_index 3 (5 ∷ 2 ∷ 7 ∷ [])) ↔ All (λ i. 2 ≤ i) (5 ∷ 2 ∷ 7 ∷ [])
le-max_committable_index_example = le-max_committable_index (5 ∷ 2 ∷ 7 ∷ []) 2 (omega arith)

a_position : index_of "a" three_nodes ≡ some 0
unfolding index_of
a_position = refl

b_position : index_of "b" three_nodes ≡ some 1
unfolding index_of
b_position = refl

abbrev group : Group
group = record { ids = three_nodes; my = "a"; me = 0; found = a_position }

leader_start-Leads_example : Returns (Leads group 1 1) (leader_start 3 (λ k. 4)) (node leader)
unfolding init
leader_start-Leads_example =
    leader_start-Leads group 0 (node leader)
      (record { ids_eq = refl; id_eq = refl; nodes_eq = refl; log_length = refl }) 3 (λ k. 4)

own_entry : (x : ℕ) → get_elem? (1 ∷ 0 ∷ 0 ∷ []) 0 ≡ some x → x ≤ 1
own_entry x e = ground arith

sending-IsLeading : IsLeading group 1 1 sending
unfolding init
sending-IsLeading = record {
  ids_eq = refl;
  id_eq = refl;
  nodes_eq = refl;
  log_length = refl;
  next_length = refl;
  match_length = refl;
  heard_length = refl;
  nexts = (tt, ((omega arith, omega arith), (tt, tt)));
  own = own_entry;
}

-- "b" has stored the entry.
abbrev stored : AppendEntriesMessage
stored = record {
  base = record {
    timestamp = 0;
    type_ = MessageType.acknowledge;
    term = 2;
    sender = "b";
    receiver = some "a";
    direction = MessageDirection.response;
    results = appends (record { term = some 2; success = some true });
  };
  leader_id = some "a";
  prev_log_index = some 0;
  prev_log_term = some 1;
  entries = none;
  leader_commit = 0;
}

stored-IsAnswerable : IsAnswerable group (some (append_entries_message stored))
stored-IsAnswerable = (
  (λ e. (1, (record { term = some 2; success = some true }), b_position, refl)),
  (λ e. absurd (types_differ e)),
)
  where
    types_differ : ◌≢◌ {A = ℕ} 3 6
    types_differ = omega arith

leader_round-Leads_example :
    Returns
      (LeadsOn group 1)
      (leader_round leader_clock (some (append_entries_message stored)) 0)
      sending
leader_round-Leads_example =
    leader_round-Leads group 1 sending sending-IsLeading leader_clock
      (some (append_entries_message stored)) 0 stored-IsAnswerable

broadcast_commit_entries-Tells_example :
    Returns
      (λ _ t. Tells 1 sending.log sending.outbox ("a" ∷ "b" ∷ "c" ∷ []) t)
      (broadcast_commit_entries 1)
      sending
unfolding init
broadcast_commit_entries-Tells_example =
    broadcast_commit_entries-Tells 1 (record { term = 2; entry = str "x"; id = pos 4 }) sending refl
      refl
