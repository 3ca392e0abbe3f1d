-- ===== src/Raft/Tests/Replicating.antt =====
-- The theorems about entries on their way to a follower.
use cs525_project.Common.{
  zero, suc, ℕ, ◌≡◌, refl, true, false, some, [], ◌∷◌, ◌++◌, arith, ok, length,
}
use cs525_project.Protocol.{default_appends, AppendEntriesMessage, append_entries_message}
use cs525_project.Protocol.MessageType
use cs525_project.Protocol.MessageDirection
use cs525_project.Raft.State.{follower, init, init_entry}
use cs525_project.Raft.Send.{acknowledge_message, send_acknowledge}
use cs525_project.Raft.Follower.{on_append_entries}
use cs525_project.Raft.Replication.Exchange.{Agree, entry_message, send_entry-on_append_entries}
use cs525_project.Raft.Leader.{send_entry}
use cs525_project.Raft.Replication.{
  Fits, short, Extends, on_append_entries-Extends, on_append_entries-commit,
  on_append_entries-refused,
}
use cs525_project.Raft.Tests.{node, sending, new_entry}

-- An entry for index 1, from the leader "b".
abbrev entry_of : ℕ → ℕ → ℕ → AppendEntriesMessage
entry_of term prev_index prev_term = record {
  base = record {
    timestamp = 0;
    type_ = MessageType.append_entries;
    term = term;
    sender = "b";
    receiver = some "a";
    direction = MessageDirection.request;
    results = default_appends;
  };
  leader_id = some "b";
  prev_log_index = some prev_index;
  prev_log_term = some prev_term;
  entries = some new_entry;
  leader_commit = 1;
}

entry-Fits : Fits (entry_of 2 0 1) 0 init_entry new_entry (node follower)
unfolding init
entry-Fits = record {
  index_eq = refl;
  term_eq = refl;
  entries_eq = refl;
  found = refl;
  current = omega arith;
}

on_append_entries-Extends_example :
    ((on_append_entries (entry_of 2 0 1) (node follower)).0 ≡ ok tt)
    × Extends
        (node follower).log
        0
        new_entry
        (on_append_entries (entry_of 2 0 1) (node follower)).1.log
    × ((on_append_entries (entry_of 2 0 1) (node follower)).1.outbox
        ≡ (node follower).outbox
          ++ acknowledge_message
              (some "b")
              true
              (record (on_append_entries (entry_of 2 0 1) (node follower)).1 {
                outbox = (node follower).outbox;
              })
            ∷ [])
on_append_entries-Extends_example =
    on_append_entries-Extends (entry_of 2 0 1) 0 init_entry new_entry (node follower) entry-Fits

on_append_entries-commit_example :
    ((on_append_entries (entry_of 2 0 1) (node follower)).1.commit_index ≡ 0)
    × ((on_append_entries (entry_of 2 0 1) (node follower)).1.last_applied_index ≡ 0)
    × ((on_append_entries (entry_of 2 0 1) (node follower)).1.last_applied_term ≡ 2)
unfolding init
on_append_entries-commit_example =
    on_append_entries-commit (entry_of 2 0 1) 0 init_entry new_entry (node follower) entry-Fits

on_append_entries-refused_example :
    on_append_entries (entry_of 2 7 1) (node follower)
    ≡ (ok tt, send_acknowledge (some "b") false (node follower))
unfolding init
on_append_entries-refused_example =
    on_append_entries-refused (entry_of 2 7 1) (node follower) (short 7 refl (omega arith))

same_start : Agree (node follower).log sending.log 0
unfolding init
same_start zero le = refl
same_start (suc i) le = let no : ⊥ = omega (arith, le) in absurd no

-- A leader with one more entry than the node, and the entry on its way.
send_entry-on_append_entries_example :
    ((send_entry 1 (some "b") sending).0 ≡ ok tt)
    × ((send_entry 1 (some "b") sending).1.outbox
        ≡ sending.outbox
          ++ append_entries_message (entry_message 0 init_entry new_entry (some "b") sending) ∷ [])
    × ((on_append_entries
          (entry_message 0 init_entry new_entry (some "b") sending)
          (node follower)).0
        ≡ ok tt)
    × Agree
        (on_append_entries
          (entry_message 0 init_entry new_entry (some "b") sending)
          (node follower)).1.log
        sending.log
        1
    × (length
          (on_append_entries
            (entry_message 0 init_entry new_entry (some "b") sending)
            (node follower)).1.log
        ≡ 2)
unfolding init
send_entry-on_append_entries_example =
    send_entry-on_append_entries 0 init_entry new_entry (some "b") sending (node follower) refl refl
      same_start (omega arith)
