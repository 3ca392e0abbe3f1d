-- ===== src/Raft/Frame.antt =====
-- What the replication of entries leaves alone: the term, the vote, the granted votes, the role and
-- the description of the group.
use mathlib.Core.List.{append-nil}
use cs525_project.Common.{
  suc, ℕ, String, ◌≡◌, refl, ◌∙◌, Bool, Option, none, some, List, [], ◌∷◌, arith, get_elem?, length,
  Option-cases, if◌then◌else◌, ◌-◌, first-append, first-take, inl, inr,
}
use cs525_project.Protocol.{Entry, AppendEntriesMessage, append_entries_message}
use cs525_project.Raft.State.{RaftNode, raise}
use cs525_project.Raft.Send.{
  send_message, send_heartbeat, send_append_entries, send_committal, send_acknowledge,
  send_client_request,
}
use cs525_project.Raft.Log.{append_entry, commit_entry, push_entry, cut_log, place_entry}
use cs525_project.Raft.Client.{get_client_request}
use cs525_project.Raft.Leader.{
  assign_next, assign_match, assign_heard, send_to_node, send_to_current, broadcast_append_entries,
  LeaderClock, send_committal_to, send_committals, broadcast_commit_entries, send_entry, resend_to,
  resend, send_more, try_commit, on_answer, answer_found, on_acknowledge, on_client_request,
}
use cs525_project.Raft.Committable.{max_committable_index}
use cs525_project.Raft.Relates.{Relation, Relates, relates_rules, Relates-pure, Relates-bind}
use cs525_project.Raft.Granted.{granted, granted-append}

pub record Keeps (s t : RaftNode) : Type 0 where
  pub same_term : t.current_term ≡ s.current_term
  pub same_vote : t.voted_for ≡ s.voted_for
  pub same_granted : granted t.outbox ≡ granted s.outbox
  pub same_role : t.current_role ≡ s.current_role
  pub same_ids : t.all_ids ≡ s.all_ids
  pub same_id : t.my_id ≡ s.my_id
  pub same_nodes : t.current_num_nodes ≡ s.current_num_nodes
  pub same_first : get_elem? t.log 0 ≡ get_elem? s.log 0

pub Keeps-refl : (s : RaftNode) → Keeps s s
Keeps-refl s = ground arith

pub Keeps-trans : (s t u : RaftNode) → Keeps s t → Keeps t u → Keeps s u
Keeps-trans s t u h k = ground arith

abbrev pub keeping : Relation
keeping = record { holds = Keeps; same = Keeps-refl; chain = Keeps-trans }

-- A message that is no vote.
send_message-Keeps :
    (m : AppendEntriesMessage) (s : RaftNode) → Keeps s (send_message (append_entries_message m) s)
unfolding send_message
send_message-Keeps m s =
    let none_granted =
      granted-append s.outbox (append_entries_message m) ∙ append-nil (granted s.outbox) in
    record {
      same_term = refl;
      same_vote = refl;
      same_granted = none_granted;
      same_role = refl;
      same_ids = refl;
      same_id = refl;
      same_nodes = refl;
      same_first = refl;
    }

pub send_heartbeat-Keeps : (s : RaftNode) → Keeps s (send_heartbeat s)
unfolding send_heartbeat
send_heartbeat-Keeps s = send_message-Keeps _ s

pub send_append_entries-Keeps :
    (index term : ℕ) (e : Entry) (to : Option String) (s : RaftNode)
    → Keeps s (send_append_entries index term e to s)
unfolding send_append_entries
send_append_entries-Keeps index term e to s = send_message-Keeps _ s

pub send_committal-Keeps :
    (index : ℕ) (to : String) (s : RaftNode) → Keeps s (send_committal index to s)
unfolding send_committal
send_committal-Keeps index to s = send_message-Keeps _ s

pub send_acknowledge-Keeps :
    (to : Option String) (success : Bool) (s : RaftNode) → Keeps s (send_acknowledge to success s)
unfolding send_acknowledge
send_acknowledge-Keeps to success s = send_message-Keeps _ s

pub send_client_request-Keeps :
    (to : Option String) (e : Entry) (s : RaftNode) → Keeps s (send_client_request to e s)
unfolding send_client_request
send_client_request-Keeps to e s = send_message-Keeps _ s

pub commit_entry-Keeps : (index term : ℕ) (s : RaftNode) → Keeps s (commit_entry index term s)
unfolding commit_entry
commit_entry-Keeps index term s = ground arith

pushed-Keeps :
    (e : Entry) (commit : Bool) (prev i : ℕ) (last : Entry) (s : RaftNode)
    → get_elem? s.log i ≡ some last
    → Keeps s (if commit then commit_entry prev e.term (push_entry e s) else push_entry e s)
unfolding push_entry commit_entry
pushed-Keeps e commit prev i last s found = ground (arith, first-append s.log e i found)

cut_log-Keeps : (prev : Option ℕ) (s : RaftNode) → Keeps s (cut_log prev s).1
unfolding cut_log
cut_log-Keeps none s = Keeps-refl s
cut_log-Keeps (some i) s = ground (arith, first-take i s.log)

place_entry-Keeps :
    (e : Entry) (commit : Bool) (prev i : ℕ) (last : Option Entry) (s : RaftNode)
    → get_elem? s.log i ≡ last
    → Keeps s (place_entry e commit prev last s).1
unfolding place_entry
place_entry-Keeps e commit prev i none s found = Keeps-refl s
place_entry-Keeps e commit prev i (some last) s found = pushed-Keeps e commit prev i last s found

pub append_entry-Keeps :
    (e : Entry) (commit : Bool) (prev : Option ℕ) → Relates keeping (append_entry e commit prev)
unfolding append_entry
append_entry-Keeps e commit prev = record {
  at = λ s.
      let (index, cut) = cut_log prev s in
      Keeps-trans s cut _ (cut_log-Keeps prev s)
        (place_entry-Keeps e commit index (length cut.log - 1) _ cut refl);
}

pub get_client_request-Keeps : (s : RaftNode) → Keeps s (get_client_request s).1
unfolding get_client_request
get_client_request-Keeps s = ground arith

pub assign_next-Keeps : (node : ℕ) (index : Option ℕ) → Relates keeping (assign_next node index)
unfolding assign_next raise
assign_next-Keeps node index = record { at = λ s. ground arith }

pub assign_match-Keeps : (node index : ℕ) → Relates keeping (assign_match node index)
unfolding assign_match raise
assign_match-Keeps node index = record { at = λ s. ground arith }

pub assign_heard-Keeps : (node now : ℕ) → Relates keeping (assign_heard node now)
unfolding assign_heard raise
assign_heard-Keeps node now = record { at = λ s. ground arith }

ruleset keeps_rules = (
  relates_rules, assign_next-Keeps, assign_match-Keeps, assign_heard-Keeps, append_entry-Keeps,
  send_heartbeat-Keeps, send_append_entries-Keeps, send_committal-Keeps, commit_entry-Keeps,
)

send_to_node-Keeps : (i t : ℕ) (e : Entry) (node : ℕ) → Relates keeping (send_to_node i t e node)
unfolding send_to_node
send_to_node-Keeps i t e node = search keeps_rules depth 8

send_to_current-Keeps :
    (i t : ℕ) (e : Entry) (node : ℕ) (nodes : List (Option ℕ))
    → Relates keeping (send_to_current i t e node nodes)
unfolding send_to_current
send_to_current-Keeps i t e node [] = Relates-pure tt
send_to_current-Keeps i t e node (some _ ∷ rest) = send_to_current-Keeps i t e (suc node) rest
send_to_current-Keeps i t e node (none ∷ rest) =
    Relates-bind _ _ (send_to_node-Keeps i t e node)
      (λ _. send_to_current-Keeps i t e (suc node) rest)

pub broadcast_append_entries-Keeps : (e : Entry) → Relates keeping (broadcast_append_entries e)
unfolding broadcast_append_entries
broadcast_append_entries-Keeps e = search (keeps_rules, send_to_current-Keeps) depth 10

send_committal_to-Keeps : (node index : ℕ) → Relates keeping (send_committal_to node index)
unfolding send_committal_to
send_committal_to-Keeps node index = search keeps_rules depth 8

send_committals-Keeps : (node : ℕ) (nodes : List ℕ) → Relates keeping (send_committals node nodes)
unfolding send_committals
send_committals-Keeps node [] = Relates-pure tt
send_committals-Keeps node (index ∷ rest) =
    Relates-bind _ _ (send_committal_to-Keeps node index)
      (λ _. send_committals-Keeps (suc node) rest)

broadcast_commit_entries-Keeps : (index : ℕ) → Relates keeping (broadcast_commit_entries index)
unfolding broadcast_commit_entries
broadcast_commit_entries-Keeps index = search (keeps_rules, send_committals-Keeps) depth 8

send_entry-Keeps : (index : ℕ) (to : Option String) → Relates keeping (send_entry index to)
unfolding send_entry
send_entry-Keeps index to = search keeps_rules depth 8

resend_to-Keeps : (c : LeaderClock) (node index : ℕ) → Relates keeping (resend_to c node index)
unfolding resend_to
resend_to-Keeps c node index = search (keeps_rules, send_entry-Keeps) depth 9

pub resend-Keeps :
    (c : LeaderClock) (node : ℕ) (nodes : List (Option ℕ)) → Relates keeping (resend c node nodes)
unfolding resend
resend-Keeps c node [] = Relates-pure tt
resend-Keeps c node (none ∷ rest) = resend-Keeps c (suc node) rest
resend-Keeps c node (some index ∷ rest) =
    Relates-bind _ _ (resend_to-Keeps c node index) (λ _. resend-Keeps c (suc node) rest)

send_more-Keeps : (node index : ℕ) (to : Option String) → Relates keeping (send_more node index to)
unfolding send_more
send_more-Keeps node index to = record {
  at = λ s. ground (arith, (assign_next-Keeps node none).at s, (send_entry-Keeps index to).at s);
}

try_commit-Keeps : Relates keeping try_commit
unfolding try_commit
try_commit-Keeps = record {
  at = λ s. ground (
    arith,
    Keeps-refl s,
    (broadcast_commit_entries-Keeps (max_committable_index s.current_num_nodes s.match_index)).at s,
  );
}

on_answer-Keeps :
    (node index : ℕ) (m : AppendEntriesMessage) → Relates keeping (on_answer node index m)
unfolding on_answer
on_answer-Keeps node index m = search (keeps_rules, send_more-Keeps, try_commit-Keeps) depth 9

found-Keeps :
    (node : ℕ) (m : AppendEntriesMessage) (found : Option ℕ)
    → Relates keeping (answer_found node m found)
unfolding answer_found
found-Keeps node m none = Relates-pure tt
found-Keeps node m (some index) = on_answer-Keeps node index m

pub on_acknowledge-Keeps :
    (now : ℕ) (m : AppendEntriesMessage) → Relates keeping (on_acknowledge now m)
unfolding on_acknowledge
on_acknowledge-Keeps now m = search (keeps_rules, found-Keeps) depth 9

pub on_client_request-Keeps : (m : AppendEntriesMessage) → Relates keeping (on_client_request m)
unfolding on_client_request raise
on_client_request-Keeps m = record {
  at = λ s. elim (Option-cases m.entries) [
    | inl e ↦ rw e (Keeps-refl s)
    | inr (entry, e) ↦ rw e ((broadcast_append_entries-Keeps entry).at s)
  ];
}
