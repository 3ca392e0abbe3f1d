-- ===== src/Raft/Tests/Committing.antt =====
-- The theorems about commits, on a leader of three nodes.
use cs525_project.Common.{String, ◌≡◌, refl, true, some, none, [], ◌∷◌, arith, ok, inl, inr}
use cs525_project.Common.Members.{here, there}
use cs525_project.Protocol.{AppendEntriesMessage, appends}
use cs525_project.Protocol.MessageType
use cs525_project.Protocol.MessageDirection
use cs525_project.Raft.State.{RaftNode, leader, follower, init, init_entry, ◌>>◌}
use cs525_project.Raft.Log.{index_of, get_node_index}
use cs525_project.Raft.Client.{check_committed_entry}
use cs525_project.Raft.Leader.{broadcast_append_entries, on_acknowledge}
use cs525_project.Raft.Returns.{Returns}
use cs525_project.Raft.Replication.Answered.{acknowledge_all}
use cs525_project.Raft.Replication.Committing.{Commits, on_acknowledge-Commits}
use cs525_project.Raft.Replication.Request.{acknowledge_all-broadcast_append_entries}
use cs525_project.Raft.Tests.{three_nodes, node, new_entry}

-- A positive answer of a node.
abbrev answer : String → AppendEntriesMessage
answer sender = record {
  base = record {
    timestamp = 0;
    type_ = MessageType.acknowledge;
    term = 2;
    sender = sender;
    receiver = some "a";
    direction = MessageDirection.response;
    results = appends (record { term = some 2; success = some true });
  };
  leader_id = some "a";
  prev_log_index = some 0;
  prev_log_term = some 1;
  entries = none;
  leader_commit = 0;
}

-- "c" answers before "b".
acknowledge_all-broadcast_append_entries_example :
    Returns
      (λ _ t. (t.commit_index ≡ 1) × (check_committed_entry none t ≡ ok new_entry.entry))
      (broadcast_append_entries new_entry
        >> acknowledge_all ((5, answer "c") ∷ (6, answer "b") ∷ []))
      (node leader)
unfolding init index_of
acknowledge_all-broadcast_append_entries_example =
    acknowledge_all-broadcast_append_entries three_nodes 0 1 2 (1 ∷ []) new_entry
      ((5, answer "c") ∷ (6, answer "b") ∷ []) (node leader)
      (record {
        ids_eq = refl;
        me_eq = refl;
        nodes_eq = refl;
        next_eq = refl;
        match_length = refl;
        heard_length = refl;
        not_empty = omega arith;
        top = refl;
        bounded = omega arith;
        commit_le = omega arith;
      })
      (
        ((λ e. omega (arith, e)), ((λ e. omega (arith, e)), tt)),
        (((λ e. omega (arith, e)), tt), (tt, tt)),
      )
      (omega arith, (omega arith, tt)) (inl refl, (inr (there (here refl)), (inr (here refl), tt)))
      (
        (refl, record { term = some 2; success = some true }, refl, refl),
        ((refl, record { term = some 2; success = some true }, refl, refl), tt),
      )

-- "b" has answered, and "c" is the last.
abbrev almost : RaftNode
almost = record (node leader) {
  log = init_entry ∷ new_entry ∷ [];
  next_index = none ∷ none ∷ some 1 ∷ [];
  match_index = 1 ∷ 1 ∷ 0 ∷ [];
}

abbrev holder : RaftNode
holder = record (node follower) { log = init_entry ∷ new_entry ∷ [] }

on_acknowledge-Commits_example :
    Returns (Commits 7 8 new_entry.entry holder almost) (on_acknowledge 9 (answer "c")) almost
unfolding init index_of get_node_index
on_acknowledge-Commits_example =
    on_acknowledge-Commits 9 7 8 2 1 (answer "c") new_entry almost holder
      (record {
        sender_eq = refl;
        waiting = refl;
        heard = omega arith;
        matched = omega arith;
        result = record { term = some 2; success = some true };
        results_eq = refl;
        success_eq = refl;
        top = refl;
      })
      refl refl refl (omega arith) (omega arith) refl
