-- ===== src/Raft/Sane/Candidate.antt =====
-- The methods of a candidate, in a group of nodes that talk to each other only.
use cs525_project.Common.{
  ℕ, ◌-◌, ◌≡◌, Bool, true, Option, none, some, List, inl, inr, if◌then◌else◌, Bool-cases, String,
  ltb, leb, ◌==◌, ok, Result,
}
use cs525_project.Protocol.{
  Entry, AppendEntriesMessage, RequestVotesMessage, Message, request_votes_message,
  append_entries_message, votes, RequestVotesResults,
}
use cs525_project.Protocol.MessageType
use cs525_project.Protocol.MessageDirection
use cs525_project.Raft.State.{RaftNode, Role}
use cs525_project.Raft.Log.{set_current_role}
use cs525_project.Raft.Follower.{Flow, again, done}
use cs525_project.Raft.Candidate.{
  Election, candidate_start, is_granted, has_majority, tally, on_vote, yield_leader,
  candidate_message, candidate_receive, candidate_timeout, candidate_round,
}
use cs525_project.Raft.Returns.{Returns, Ensures, Returns-bind}
use cs525_project.Raft.Sane.{
  IsHonest, IsSane, IsSaneOption, send_vote-IsHonest, send_request_vote-IsHonest,
}
use cs525_project.Raft.Sane.Log.{
  set_current_role-IsHonest, increment_term-IsHonest, leader_id-IsHonest,
}
use cs525_project.Raft.Sane.Leading.{yield_vote-IsHonest}

module _ {P : Entry → Type 0} {ids : List String} where
  pub candidate_start-IsHonest :
      (now : ℕ) (s : RaftNode) → IsHonest P ids s → IsHonest P ids (candidate_start now s).1
  unfolding candidate_start
  candidate_start-IsHonest now s h =
      send_vote-IsHonest _ true _
        (send_request_vote-IsHonest none _ (increment_term-IsHonest none s h))

  -- A vote, when its results have been read.
  counted :
      (granted : Bool) (e : Election) (s : RaftNode)
      → IsHonest P ids s
      → let e' = tally granted e in
        let p : Result (Flow Election) × RaftNode =
          (if has_majority e'.votes_for_me s.current_num_nodes
            then (ok done, set_current_role Role.leader s)
            else (ok (again e'), s)) in
        Ensures (λ flow t. IsHonest P ids t) p.0 p.1
  counted granted e s h =
      elim (Bool-cases (has_majority (tally granted e).votes_for_me s.current_num_nodes)) [
        | inl y ↦ rw y (set_current_role-IsHonest Role.leader s h)
        | inr n ↦ rw n h
      ]

  on_vote-IsHonest :
      (m : RequestVotesMessage) (r : RequestVotesResults) (e : Election) (s : RaftNode)
      → m.results ≡ votes r
      → IsHonest P ids s
      → Returns (λ flow t. IsHonest P ids t) (on_vote m e) s
  unfolding on_vote
  on_vote-IsHonest m r e s v h = record { holds = rw v (counted (is_granted r.vote_granted) e s h) }

  yield_leader-IsHonest :
      (m : AppendEntriesMessage) (s : RaftNode)
      → IsHonest P ids s
      → IsHonest P ids (yield_leader m s)
  unfolding yield_leader
  yield_leader-IsHonest m s h =
      set_current_role-IsHonest Role.follower _
        (leader_id-IsHonest m.leader_id _ (increment_term-IsHonest (some m.term) s h))

  candidate_message-IsHonest :
      (m : Message) (e : Election) (s : RaftNode)
      → IsSane P ids m
      → IsHonest P ids s
      → Returns (λ flow t. IsHonest P ids t) (candidate_message m e) s
  unfolding candidate_message
  candidate_message-IsHonest (request_votes_message m) e s k h = record {
    holds = elim (Bool-cases (m.direction == MessageDirection.response)) [
      | inl y ↦ rw y ((on_vote-IsHonest m k.1 e s k.2 h).holds)
      | inr n ↦ elim (Bool-cases (m.direction == MessageDirection.request)) [
        | inr o ↦ rw (n, o) h
        | inl d ↦ elim (Bool-cases (ltb s.current_term m.term)) [
          | inl t ↦ rw (n, d, t) (yield_vote-IsHonest m s h)
          | inr o ↦ rw (n, d, o) h
        ]
      ]
    ];
  }
  candidate_message-IsHonest (append_entries_message m) e s k h = record {
    holds = elim (Bool-cases (m.direction == MessageDirection.request)) [
      | inr n ↦ rw n h
      | inl d ↦ elim (Bool-cases (m.type_ == MessageType.heartbeat)) [
        | inr n ↦ rw (d, n) h
        | inl t ↦ elim (Bool-cases (leb s.current_term m.term)) [
          | inl y ↦ rw (d, t, y) (yield_leader-IsHonest m s h)
          | inr o ↦ rw (d, t, o) h
        ]
      ]
    ];
  }

  candidate_receive-IsHonest :
      (incoming : Option Message) (e : Election) (s : RaftNode)
      → IsSaneOption P ids incoming
      → IsHonest P ids s
      → Returns (λ flow t. IsHonest P ids t) (candidate_receive incoming e) s
  unfolding candidate_receive
  candidate_receive-IsHonest none e s k h = record { holds = h }
  candidate_receive-IsHonest (some m) e s k h = record {
    holds = (candidate_message-IsHonest m e s k h).holds;
  }

  candidate_timeout-IsHonest :
      (now : ℕ) (flow : Flow Election) (s : RaftNode)
      → IsHonest P ids s
      → Returns (λ flow' t. IsHonest P ids t) (candidate_timeout now flow) s
  unfolding candidate_timeout
  candidate_timeout-IsHonest now done s h = record { holds = h }
  candidate_timeout-IsHonest now (again e) s h = record {
    holds = elim (Bool-cases (ltb s.election_timeout (now - e.time_election_going))) [
      | inl y ↦ rw y (set_current_role-IsHonest Role.candidate s h)
      | inr n ↦ rw n h
    ];
  }

  pub candidate_round-IsHonest :
      (now : ℕ) (incoming : Option Message) (e : Election) (s : RaftNode)
      → IsSaneOption P ids incoming
      → IsHonest P ids s
      → Returns (λ flow t. IsHonest P ids t) (candidate_round now incoming e) s
  unfolding candidate_round
  candidate_round-IsHonest now incoming e s k h =
      Returns-bind _ _ s (candidate_receive-IsHonest incoming e s k h)
        λ flow t ht. candidate_timeout-IsHonest now flow t ht
