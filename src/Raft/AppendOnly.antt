-- ===== src/Raft/AppendOnly.antt =====
-- Additions at the end of the log and a commit index that does not fall, as a relation between the
-- states before and after an action; the methods of a leader.
pub mod Rounds
pub mod Steps
use mathlib.Core.Path.{subst}
use mathlib.Core.List.{append_assoc, append-nil}
use cs525_project.Common.{
  true, ltb, ltb→lt, Result, ok, err, item, ◌≤◌, ℕ, suc, ◌≡◌, refl, ap, sym, ◌∙◌, String, Bool,
  false, Option, none, some, List, [], ◌∷◌, ◌++◌, arith, Option-cases, inl, inr, if◌then◌else◌,
  get_elem?, length, ◌-◌,
}
use cs525_project.Protocol.{
  Entry, RequestVotesMessage, AppendEntriesMessage, Message, request_votes_message,
  append_entries_message,
}
use cs525_project.Raft.State.{RaftNode, gets, reads, modify, continue, ◌>>=◌, ◌>>◌, raise}
use cs525_project.Raft.Send.{
  send_message, send_heartbeat, send_append_entries, send_committal, send_vote,
}
use cs525_project.Raft.Log.{
  append_entry, commit_entry, push_entry, cut_log, place_entry, set_current_role, increment_term,
}
use cs525_project.Raft.Client.{get_client_request}
use cs525_project.Raft.Follower.{Flow, again, done}
use cs525_project.Raft.Candidate.{yield_vote}
use cs525_project.Raft.Leader.{
  assign_next, assign_match, assign_heard, send_to_node, send_to_current, broadcast_append_entries,
  LeaderClock, send_committal_to, send_committals, broadcast_commit_entries, send_entry, resend_to,
  resend, send_more, try_commit, on_answer, answer_found, on_acknowledge, on_client_request,
  leader_start, reset_nodes, beat, leader_message, leader_receive, serve_request, leader_requests,
  leader_round,
}
use cs525_project.Raft.Committable.{max_committable_index}
use cs525_project.Raft.Relates.{Relation, Relates, relates_rules, Relates-pure, Relates-bind}

-- The log has only grown at its end, and the commit index has not fallen.
pub record Adds (s t : RaftNode) : Type 0 where
  pub more : List Entry
  pub log_eq : t.log ≡ s.log ++ more
  pub commit_le : s.commit_index ≤ t.commit_index

pub same-Adds : (s t : RaftNode) → t.log ≡ s.log → t.commit_index ≡ s.commit_index → Adds s t
same-Adds s t e c = record {
  more = [];
  log_eq = e ∙ sym (append-nil s.log);
  commit_le = omega (arith, c);
}

pub Adds-refl : (s : RaftNode) → Adds s s
Adds-refl s = same-Adds s s refl refl

pub Adds-trans : (s t u : RaftNode) → Adds s t → Adds t u → Adds s u
Adds-trans s t u h k = record {
  more = h.more ++ k.more;
  log_eq =
      k.log_eq ∙ ap (λ (l : List Entry). l ++ k.more) h.log_eq ∙ append_assoc s.log h.more k.more;
  commit_le = omega (arith, h.commit_le, k.commit_le);
}

abbrev pub adding : Relation
adding = record { holds = Adds; same = Adds-refl; chain = Adds-trans }

pub send_heartbeat-Adds : (s : RaftNode) → Adds s (send_heartbeat s)
unfolding send_heartbeat send_message
send_heartbeat-Adds s = same-Adds s _ refl refl

send_append_entries-Adds :
    (index term : ℕ) (e : Entry) (to : Option String) (s : RaftNode)
    → Adds s (send_append_entries index term e to s)
unfolding send_append_entries send_message
send_append_entries-Adds index term e to s = same-Adds s _ refl refl

send_committal-Adds : (index : ℕ) (to : String) (s : RaftNode) → Adds s (send_committal index to s)
unfolding send_committal send_message
send_committal-Adds index to s = same-Adds s _ refl refl

commit_entry-Adds :
    (index term : ℕ) (s : RaftNode) → s.commit_index ≤ index → Adds s (commit_entry index term s)
unfolding commit_entry
commit_entry-Adds index term s h = record {
  more = [];
  log_eq = sym (append-nil s.log);
  commit_le = h;
}

pub get_client_request-Adds : (s : RaftNode) → Adds s (get_client_request s).1
unfolding get_client_request
get_client_request-Adds s = same-Adds s _ (ground arith) (ground arith)

pub yield_vote-Adds : (m : RequestVotesMessage) (s : RaftNode) → Adds s (yield_vote m s)
unfolding yield_vote set_current_role send_vote send_message increment_term
yield_vote-Adds m s = same-Adds s _ refl refl

reset_nodes-Adds : (heard : ℕ → ℕ) (s : RaftNode) → Adds s (reset_nodes heard s)
unfolding reset_nodes
reset_nodes-Adds heard s = same-Adds s _ refl refl

-- Nothing is cut off when no index is given.
placed-Adds :
    (e : Entry) (prev : ℕ) (last : Option Entry) (s : RaftNode)
    → Adds s (place_entry e false prev last s).1
unfolding place_entry push_entry
placed-Adds e prev none s = Adds-refl s
placed-Adds e prev (some last) s = record { more = e ∷ []; log_eq = refl; commit_le = omega arith }

append_entry-Adds : (e : Entry) → Relates adding (append_entry e false none)
unfolding append_entry cut_log
append_entry-Adds e = record { at = λ s. placed-Adds e (length s.log - 1) _ s }

assign_next-Adds : (node : ℕ) (index : Option ℕ) → Relates adding (assign_next node index)
unfolding assign_next raise
assign_next-Adds node index = record { at = λ s. same-Adds s _ (ground arith) (ground arith) }

assign_match-Adds : (node index : ℕ) → Relates adding (assign_match node index)
unfolding assign_match raise
assign_match-Adds node index = record { at = λ s. same-Adds s _ (ground arith) (ground arith) }

assign_heard-Adds : (node now : ℕ) → Relates adding (assign_heard node now)
unfolding assign_heard raise
assign_heard-Adds node now = record { at = λ s. same-Adds s _ (ground arith) (ground arith) }

ruleset adds_rules = (
  relates_rules, assign_next-Adds, assign_match-Adds, assign_heard-Adds, append_entry-Adds,
  send_heartbeat-Adds, send_append_entries-Adds, send_committal-Adds, reset_nodes-Adds,
)

send_to_node-Adds : (i t : ℕ) (e : Entry) (node : ℕ) → Relates adding (send_to_node i t e node)
unfolding send_to_node
send_to_node-Adds i t e node = search adds_rules depth 8

send_to_current-Adds :
    (i t : ℕ) (e : Entry) (node : ℕ) (nodes : List (Option ℕ))
    → Relates adding (send_to_current i t e node nodes)
unfolding send_to_current
send_to_current-Adds i t e node [] = Relates-pure tt
send_to_current-Adds i t e node (some _ ∷ rest) = send_to_current-Adds i t e (suc node) rest
send_to_current-Adds i t e node (none ∷ rest) =
    Relates-bind _ _ (send_to_node-Adds i t e node)
      (λ _. send_to_current-Adds i t e (suc node) rest)

pub broadcast_append_entries-Adds : (e : Entry) → Relates adding (broadcast_append_entries e)
unfolding broadcast_append_entries
broadcast_append_entries-Adds e = search (adds_rules, send_to_current-Adds) depth 10

send_committal_to-Adds : (node index : ℕ) → Relates adding (send_committal_to node index)
unfolding send_committal_to
send_committal_to-Adds node index = search adds_rules depth 8

send_committals-Adds : (node : ℕ) (nodes : List ℕ) → Relates adding (send_committals node nodes)
unfolding send_committals
send_committals-Adds node [] = Relates-pure tt
send_committals-Adds node (index ∷ rest) =
    Relates-bind _ _ (send_committal_to-Adds node index) (λ _. send_committals-Adds (suc node) rest)

told-Adds : Relates adding (gets (λ s. s.match_index) >>= send_committals 0)
told-Adds = search (adds_rules, send_committals-Adds) depth 8

broadcast_commit_entries-Adds :
    (index : ℕ) (s : RaftNode)
    → s.commit_index ≤ index
    → Adds s (broadcast_commit_entries index s).1
unfolding broadcast_commit_entries ◌>>=◌ reads modify
broadcast_commit_entries-Adds index s h = by_entry (item s.log index)
  where
    by_entry :
        (r : Result Entry)
        → Adds s
            (continue r
              (λ entry.
                modify (commit_entry index entry.term)
                >> (gets (λ s. s.match_index) >>= send_committals 0))
              s).1
    by_entry (err e) = Adds-refl s
    by_entry (ok entry) =
        Adds-trans s (commit_entry index entry.term s) _ (commit_entry-Adds index entry.term s h)
          (told-Adds.at (commit_entry index entry.term s))

send_entry-Adds : (index : ℕ) (to : Option String) → Relates adding (send_entry index to)
unfolding send_entry
send_entry-Adds index to = search adds_rules depth 8

resend_to-Adds : (c : LeaderClock) (node index : ℕ) → Relates adding (resend_to c node index)
unfolding resend_to
resend_to-Adds c node index = search (adds_rules, send_entry-Adds) depth 9

pub resend-Adds :
    (c : LeaderClock) (node : ℕ) (nodes : List (Option ℕ)) → Relates adding (resend c node nodes)
unfolding resend
resend-Adds c node [] = Relates-pure tt
resend-Adds c node (none ∷ rest) = resend-Adds c (suc node) rest
resend-Adds c node (some index ∷ rest) =
    Relates-bind _ _ (resend_to-Adds c node index) (λ _. resend-Adds c (suc node) rest)

send_more-Adds : (node index : ℕ) (to : Option String) → Relates adding (send_more node index to)
unfolding send_more
send_more-Adds node index to = record {
  at = λ s. ground (arith, (assign_next-Adds node none).at s, (send_entry-Adds index to).at s);
}

try_commit-Adds : Relates adding try_commit
unfolding try_commit
try_commit-Adds = record {
  at = λ s.
      let index = max_committable_index s.current_num_nodes s.match_index in
      by_test s index (ltb s.commit_index index) refl;
}
  where
    by_test :
        (s : RaftNode) (index : ℕ) (b : Bool)
        → ltb s.commit_index index ≡ b
        → Adds s (if b then broadcast_commit_entries index s else (ok tt, s)).1
    by_test s index true h =
        broadcast_commit_entries-Adds index s (omega (arith, ltb→lt s.commit_index index h))
    by_test s index false h = Adds-refl s

on_answer-Adds :
    (node index : ℕ) (m : AppendEntriesMessage) → Relates adding (on_answer node index m)
unfolding on_answer
on_answer-Adds node index m = search (adds_rules, send_more-Adds, try_commit-Adds) depth 9

found-Adds :
    (node : ℕ) (m : AppendEntriesMessage) (found : Option ℕ)
    → Relates adding (answer_found node m found)
unfolding answer_found
found-Adds node m none = Relates-pure tt
found-Adds node m (some index) = on_answer-Adds node index m

pub on_acknowledge-Adds :
    (now : ℕ) (m : AppendEntriesMessage) → Relates adding (on_acknowledge now m)
unfolding on_acknowledge
on_acknowledge-Adds now m = search (adds_rules, found-Adds) depth 9

pub on_client_request-Adds : (m : AppendEntriesMessage) → Relates adding (on_client_request m)
unfolding on_client_request raise
on_client_request-Adds m = record {
  at = λ s. elim (Option-cases m.entries) [
    | inl e ↦ rw e (Adds-refl s)
    | inr (entry, e) ↦ rw e ((broadcast_append_entries-Adds entry).at s)
  ];
}

-- The start of a leader.
pub leader_start-Adds : (now : ℕ) (heard : ℕ → ℕ) → Relates adding (leader_start now heard)
unfolding leader_start
leader_start-Adds now heard = search (adds_rules, broadcast_append_entries-Adds) depth 9
