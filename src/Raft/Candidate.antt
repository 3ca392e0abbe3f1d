-- ===== src/Raft/Candidate.antt =====
-- src/raft/raft.py: `_candidate`, its start and one round of its loop.
use cs525_project.Common.{
  ℕ, ◌+◌, ◌-◌, ◌/◌, Bool, true, false, ◌||◌, Option, none, some, attribute_error, leb, ltb, ◌==◌,
  if◌then◌else◌, ok,
}
use cs525_project.Protocol.{
  votes, appends, RequestVotesMessage, AppendEntriesMessage, Message, request_votes_message,
  append_entries_message,
}
use cs525_project.Protocol.MessageType
use cs525_project.Protocol.MessageDirection
use cs525_project.Raft.State.{RaftNode, follower, candidate, leader, Action, raise, ◌>>=◌}
use cs525_project.Raft.Send.{send_vote, send_request_vote}
use cs525_project.Raft.Log.{set_current_role, increment_term}
use cs525_project.Raft.Follower.{Flow, again, done}

-- The variables of the loop.
pub record Election : Type 0 where
  pub votes_for_me : ℕ
  pub total_votes : ℕ
  pub time_election_going : ℕ

-- What comes before the loop.
unfoldable pub candidate_start : ℕ → RaftNode → Election × RaftNode
candidate_start now s =
    let raised = increment_term none s in
    let asked = send_request_vote none raised in
    (
      record { votes_for_me = 0; total_votes = 0; time_election_going = now },
      send_vote asked.my_id true asked,
    )

-- `results.vote_granted`; None is false, and the other class has no such attribute.
abbrev pub is_granted : Option Bool → Bool
is_granted none = false
is_granted (some b) = b

-- "If you have a majority": more than half of the nodes, or a system of one node
abbrev pub has_majority : ℕ → ℕ → Bool
has_majority votes_for_me nodes = ltb (nodes / 2) votes_for_me || nodes == 1

abbrev pub tally : Bool → Election → Election
tally granted e = record e {
  votes_for_me = (if granted then e.votes_for_me + 1 else e.votes_for_me);
  total_votes = e.total_votes + 1;
}

-- A vote.
unfoldable pub on_vote : RequestVotesMessage → Election → Action (Flow Election)
on_vote m e s = elim m.results [
  | appends _ ↦ raise attribute_error s
  | votes r ↦
      (let e' = tally (is_granted r.vote_granted) e in
        if has_majority e'.votes_for_me s.current_num_nodes
        then (ok done, set_current_role leader s)
        else (ok (again e'), s))
]

-- A vote for another node with a higher term, as candidates and leaders give it.
unfoldable pub yield_vote : RequestVotesMessage → RaftNode → RaftNode
yield_vote m s =
    set_current_role follower (send_vote m.sender true (increment_term (some m.term) s))

-- Another node has been elected.
unfoldable pub yield_leader : AppendEntriesMessage → RaftNode → RaftNode
yield_leader m s =
    set_current_role follower (record (increment_term (some m.term) s) { leader_id = m.leader_id })

unfoldable pub candidate_message : Message → Election → Action (Flow Election)
candidate_message (request_votes_message m) e s =
    if m.direction == MessageDirection.response
    then on_vote m e s
    else if m.direction == MessageDirection.request
    then (if ltb s.current_term m.term then (ok done, yield_vote m s) else (ok (again e), s))
    else (ok (again e), s)
candidate_message (append_entries_message m) e s =
    if m.direction == MessageDirection.request
    then (if m.type_ == MessageType.heartbeat
        then (if leb s.current_term m.term then (ok done, yield_leader m s) else (ok (again e), s))
        else (ok (again e), s))
    else (ok (again e), s)

unfoldable pub candidate_receive : Option Message → Election → Action (Flow Election)
candidate_receive none e s = (ok (again e), s)
candidate_receive (some m) e s = candidate_message m e s

-- The test for the end of the election, unless the method has returned.
unfoldable pub candidate_timeout : ℕ → Flow Election → Action (Flow Election)
candidate_timeout now done s = (ok done, s)
candidate_timeout now (again e) s =
    if ltb s.election_timeout (now - e.time_election_going)
    then (ok done, set_current_role candidate s)
    else (ok (again e), s)

-- One round of the loop.
unfoldable pub candidate_round : ℕ → Option Message → Election → Action (Flow Election)
candidate_round now incoming e = candidate_receive incoming e >>= candidate_timeout now
