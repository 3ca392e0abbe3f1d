-- ===== src/Raft/AppendOnly/Rounds.antt =====
-- What a round of a leader or of a candidate does to the log and the commit index.
use cs525_project.Common.{ℕ, refl, Option, none, some, arith}
use cs525_project.Protocol.{
  Entry, RequestVotesMessage, AppendEntriesMessage, Message, request_votes_message,
  append_entries_message,
}
use cs525_project.Raft.State.{RaftNode, pure, raise, ◌>>◌}
use cs525_project.Raft.Send.{send_message, send_vote}
use cs525_project.Raft.Log.{set_current_role, increment_term}
use cs525_project.Raft.Client.{get_client_request}
use cs525_project.Raft.Follower.{Flow, again, done}
use cs525_project.Raft.Leader.{
  LeaderClock, on_acknowledge, on_client_request, beat, leader_message, leader_receive,
  serve_request, leader_requests, leader_round,
}
use cs525_project.Raft.Relates.{Relates, relates_rules, Relates-pure, Relates-bind}
use cs525_project.Raft.AppendOnly.{
  Adds, same-Adds, Adds-refl, Adds-trans, adding, send_heartbeat-Adds, get_client_request-Adds,
  yield_vote-Adds, broadcast_append_entries-Adds, resend-Adds, on_acknowledge-Adds,
  on_client_request-Adds,
}
use cs525_project.Raft.Candidate.{
  Election, candidate_start, candidate_round, candidate_receive, candidate_message,
  candidate_timeout, on_vote, yield_leader,
}
use cs525_project.Raft.Send.{send_request_vote}

beat-Adds : (c : LeaderClock) (last : ℕ) → Relates adding (beat c last)
unfolding beat
beat-Adds c last = record { at = λ s. ground (arith, Adds-refl s, send_heartbeat-Adds s) }

leader_message-Adds :
    (c : LeaderClock) (last : ℕ) (m : Message) → Relates adding (leader_message c last m)
unfolding leader_message
leader_message-Adds c last (append_entries_message m) = record {
  at = λ s.
      let answered : Relates adding (on_acknowledge c.ack m >> pure (again last)) =
        search (relates_rules, on_acknowledge-Adds) in
      let requested : Relates adding (on_client_request m >> pure (again last)) =
        search (relates_rules, on_client_request-Adds) in
      ground (arith, Adds-refl s, answered.at s, requested.at s);
}
leader_message-Adds c last (request_votes_message m) = record {
  at = λ s. ground (arith, Adds-refl s, yield_vote-Adds m s);
}

leader_receive-Adds :
    (c : LeaderClock) (incoming : Option Message) (last : ℕ)
    → Relates adding (leader_receive c incoming last)
unfolding leader_receive
leader_receive-Adds c none last = record { at = Adds-refl }
leader_receive-Adds c (some m) last = record { at = (leader_message-Adds c last m).at }

serve_request-Adds :
    (last : ℕ) (request : Option Entry) → Relates adding (serve_request last request)
unfolding serve_request
serve_request-Adds last none = Relates-pure (again last)
serve_request-Adds last (some e) = search (relates_rules, broadcast_append_entries-Adds)

leader_requests-Adds : (flow : Flow ℕ) → Relates adding (leader_requests flow)
unfolding leader_requests
leader_requests-Adds done = record { at = Adds-refl }
leader_requests-Adds (again last) = record {
  at = λ s.
      let (request, s') = get_client_request s in
      Adds-trans s s' _ (get_client_request-Adds s) ((serve_request-Adds last request).at s');
}

pub leader_round-Adds :
    (c : LeaderClock) (incoming : Option Message) (last : ℕ)
    → Relates adding (leader_round c incoming last)
unfolding leader_round
leader_round-Adds c incoming last =
    search (relates_rules, beat-Adds, resend-Adds, leader_receive-Adds, leader_requests-Adds) depth
      8

-- A candidate leaves its log as it is.
pub candidate_start-Adds : (now : ℕ) (s : RaftNode) → Adds s (candidate_start now s).1
unfolding candidate_start increment_term send_request_vote send_vote send_message
candidate_start-Adds now s = same-Adds s _ refl refl

yield_leader-Adds : (m : AppendEntriesMessage) (s : RaftNode) → Adds s (yield_leader m s)
unfolding yield_leader set_current_role increment_term
yield_leader-Adds m s = same-Adds s _ refl refl

on_vote-Adds : (m : RequestVotesMessage) (e : Election) → Relates adding (on_vote m e)
unfolding on_vote raise set_current_role
on_vote-Adds m e = record { at = λ s. same-Adds s _ (ground arith) (ground arith) }

candidate_message-Adds : (m : Message) (e : Election) → Relates adding (candidate_message m e)
unfolding candidate_message
candidate_message-Adds (request_votes_message m) e = record {
  at = λ s. ground (arith, Adds-refl s, (on_vote-Adds m e).at s, yield_vote-Adds m s);
}
candidate_message-Adds (append_entries_message m) e = record {
  at = λ s. ground (arith, Adds-refl s, yield_leader-Adds m s);
}

candidate_receive-Adds :
    (incoming : Option Message) (e : Election) → Relates adding (candidate_receive incoming e)
unfolding candidate_receive
candidate_receive-Adds none e = record { at = Adds-refl }
candidate_receive-Adds (some m) e = record { at = (candidate_message-Adds m e).at }

candidate_timeout-Adds :
    (now : ℕ) (flow : Flow Election) → Relates adding (candidate_timeout now flow)
unfolding candidate_timeout set_current_role
candidate_timeout-Adds now done = record { at = Adds-refl }
candidate_timeout-Adds now (again e) = record {
  at = λ s. same-Adds s _ (ground arith) (ground arith);
}

pub candidate_round-Adds :
    (now : ℕ) (incoming : Option Message) (e : Election)
    → Relates adding (candidate_round now incoming e)
unfolding candidate_round
candidate_round-Adds now incoming e =
    Relates-bind _ _ (candidate_receive-Adds incoming e) (candidate_timeout-Adds now)
