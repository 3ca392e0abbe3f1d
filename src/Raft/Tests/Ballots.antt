-- ===== src/Raft/Tests/Ballots.antt =====
-- The theorems about elections, with two votes of three.
use cs525_project.Common.{
  ℕ, ◌<◌, ◌/◌, String, ◌≡◌, refl, ◌⊎◌, true, inl, inr, none, some, List, [], ◌∷◌, arith, ok,
}
use cs525_project.Protocol.{votes, Message, request_votes_message}
use cs525_project.Protocol.MessageType
use cs525_project.Protocol.MessageDirection
use cs525_project.Raft.State.{RaftNode, candidate, leader, init, ◌>>=◌}
use cs525_project.Raft.Send.{send_vote, send_request_vote, send_message}
use cs525_project.Raft.Log.{increment_term, set_current_role}
use cs525_project.Raft.Candidate.{
  candidate_start, candidate_round, candidate_receive, candidate_message, on_vote,
  candidate_timeout,
}
use cs525_project.Raft.Ballot.{Round, ballots, candidate_rounds, election, election-leader}
use cs525_project.Raft.Ballot.Wins.{election-wins}
use cs525_project.Raft.Follower.{done}
use cs525_project.Raft.Tests.{node}

-- What the candidate hears of its own: its request for votes.
abbrev own_request : Message
own_request = request_votes_message (record {
  base = record {
    timestamp = 0;
    type_ = MessageType.request_votes;
    term = 2;
    sender = "a";
    receiver = none;
    direction = MessageDirection.request;
    results = votes (record { term = none; vote_granted = none });
  };
  candidate_id = "a";
  last_log_index = 0;
  last_log_term = 1;
})

-- A granting vote of a node.
abbrev granting : String → Message
granting sender = request_votes_message (record {
  base = record {
    timestamp = 0;
    type_ = MessageType.request_votes;
    term = 2;
    sender = sender;
    receiver = some "a";
    direction = MessageDirection.response;
    results = votes (record { term = some 2; vote_granted = some true });
  };
  candidate_id = "a";
  last_log_index = 0;
  last_log_term = 1;
})

abbrev two_votes : List Round
two_votes =
    (0, some own_request) ∷ (1, some (granting "a")) ∷ (2, none) ∷ (3, some (granting "b")) ∷ []

abbrev elected : RaftNode
elected = (election 0 two_votes (node candidate)).1

election-leader_example : (3 / 2 < ballots two_votes) ⊎ (◌≡◌ {A = ℕ} 3 1)
unfolding init election candidate_start candidate_rounds candidate_round candidate_receive
    candidate_message on_vote candidate_timeout set_current_role increment_term send_request_vote
    send_vote send_message ◌>>=◌
election-leader_example = election-leader 0 two_votes (node candidate) elected refl refl refl

two_votes-many : 3 / 2 < ballots two_votes
unfolding ballots
two_votes-many = omega arith

election-wins_example :
    election 0 two_votes (node candidate)
    ≡ (ok done, set_current_role leader (candidate_start 0 (node candidate)).1)
unfolding init
election-wins_example =
    election-wins 0 two_votes (node candidate)
      (
        (omega arith, inr (refl, omega arith)),
        (
          (omega arith, inl (refl, (record { term = some 2; vote_granted = some true }), refl)),
          (
            (omega arith, tt),
            (
              (omega arith, inl (refl, (record { term = some 2; vote_granted = some true }), refl)),
              tt,
            ),
          ),
        ),
      )
      two_votes-many
