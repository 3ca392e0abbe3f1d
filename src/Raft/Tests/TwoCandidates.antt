-- ===== src/Raft/Tests/TwoCandidates.antt =====
-- Two candidates of a group of three: "a" has its own vote and that of "c", "b" has its own.
use cs525_project.Common.{
  ℕ, String, ◌≡◌, ◌≢◌, refl, sym, true, false, none, some, List, [], ◌∷◌, get_elem?, arith, str_eq,
  eq_iff, Bool-cases, inl, inr, if◌then◌else◌,
}
use mathlib.Core.Path.{subst}
use cs525_project.Common.Members.{here, there}
use cs525_project.Json.{get, lookup, update}
use cs525_project.Interface.{listener_receive, get_message}
use cs525_project.Protocol.{votes, default_votes, Message, request_votes_message}
use cs525_project.Protocol.MessageType
use cs525_project.Protocol.MessageDirection
use cs525_project.Protocol.Wire.{
  jsonify, parse_json_message, un_jsonify_votes, un_jsonify_base, un_jsonify_request_votes,
}
use cs525_project.Raft.State.{RaftNode, Role, leader, init, ◌>>=◌}
use cs525_project.Raft.Send.{send_vote, send_request_vote, send_message}
use cs525_project.Raft.Log.{increment_term, set_current_role}
use cs525_project.Raft.Follower.{
  follower_round, follower_receive, follower_message, on_request_votes, see_term, follower_timeout,
}
use cs525_project.Raft.Candidate.{
  candidate_start, candidate_round, candidate_receive, candidate_message, on_vote,
  candidate_timeout,
}
use cs525_project.Raft.Thread.{
  Event, Readings, tick, arrive, run, step, advance, next_message, loop_round, decide,
}
use cs525_project.Raft.Elections.{start, own_next, NeverOwn}
use cs525_project.Raft.Ballot.{Round, candidate_rounds, election}
use cs525_project.Raft.Ballot.Voters.{grants_read}
use cs525_project.Raft.Ballot.OneLeader.{sent_by, one_leader}
use cs525_project.Raft.Tests.{three_nodes, no_stamps, readings, leader_clock}

-- A node that hears nothing for longer than its timeout asks for votes.
abbrev late : Readings
late = record { now = 9_000; now_later = 9_001; leader_clock = leader_clock; heard = λ k. 7 }

abbrev candidacy : Message
candidacy = request_votes_message (record {
  base = record {
    timestamp = 0;
    type_ = MessageType.request_votes;
    term = 2;
    sender = "a";
    receiver = none;
    direction = MessageDirection.request;
    results = default_votes;
  };
  candidate_id = "a";
  last_log_index = 0;
  last_log_term = 1;
})

-- The vote of a node in the term 2.
abbrev vote : String → String → ℕ → Message
vote voter candidate timestamp = request_votes_message (record {
  base = record {
    timestamp = timestamp;
    type_ = MessageType.request_votes;
    term = 2;
    sender = voter;
    receiver = some candidate;
    direction = MessageDirection.response;
    results = votes (record { term = some 2; vote_granted = some true });
  };
  candidate_id = candidate;
  last_log_index = 0;
  last_log_term = 1;
})

abbrev asks : List Event
asks = tick readings ∷ tick late ∷ tick late ∷ []

abbrev answers : List Event
answers = tick readings ∷ arrive (jsonify candidacy) ∷ tick readings ∷ []

abbrev events : String → List Event
events v = if str_eq v "c" then answers else asks

abbrev timeouts : String → ℕ
timeouts v = 1_000

abbrev stamps : String → ℕ → ℕ
stamps v = no_stamps

abbrev asking : String → RaftNode
asking id = init id three_nodes id 1_000 Role.candidate no_stamps

abbrev votes_a : List Round
votes_a = (1, some (vote "a" "a" 1)) ∷ (2, some (vote "c" "a" 0)) ∷ []

abbrev votes_b : List Round
votes_b = (1, some (vote "b" "b" 1)) ∷ (5_000, none) ∷ []

asks-NeverOwn : (v : String) → NeverOwn asks (start v three_nodes v 1_000 no_stamps)
unfolding init step advance next_message get_message loop_round decide follower_round
    follower_receive follower_timeout set_current_role own_next parse_json_message ◌>>=◌
asks-NeverOwn v = (refl, (refl, (refl, tt)))

answers-NeverOwn : NeverOwn answers (start "c" three_nodes "c" 1_000 no_stamps)
unfolding init step own_next advance decide listener_receive get jsonify
answers-NeverOwn = (refl, (refl, (refl, tt)))

events-NeverOwn : (v : String) → NeverOwn (events v) (start v three_nodes v 1_000 no_stamps)
events-NeverOwn v = elim (Bool-cases (str_eq v "c")) [
  | inr n ↦ rw n (asks-NeverOwn v)
  | inl y ↦ rw y (
      subst (λ u. NeverOwn answers (start u three_nodes u 1_000 no_stamps))
        (sym ((eq_iff v "c").0 y)) answers-NeverOwn)
]

abbrev sent : String → List Message
sent = sent_by three_nodes timeouts stamps events

vote_a : get_elem? (sent "a") 1 ≡ some (vote "a" "a" 1)
unfolding init run step advance next_message get_message loop_round decide follower_round
    follower_receive follower_timeout set_current_role candidate_start increment_term
    send_request_vote send_vote send_message parse_json_message ◌>>=◌
vote_a = refl

vote_b : get_elem? (sent "b") 1 ≡ some (vote "b" "b" 1)
unfolding init run step advance next_message get_message loop_round decide follower_round
    follower_receive follower_timeout set_current_role candidate_start increment_term
    send_request_vote send_vote send_message parse_json_message ◌>>=◌
vote_b = refl

vote_c : get_elem? (sent "c") 0 ≡ some (vote "c" "a" 0)
unfolding init run step advance next_message loop_round decide follower_round follower_receive
    follower_message on_request_votes see_term increment_term send_vote send_message
    follower_timeout set_current_role listener_receive get lookup update jsonify parse_json_message
    un_jsonify_votes un_jsonify_base un_jsonify_request_votes ◌>>=◌ get_message
vote_c = refl

not_same : (x y : String) → str_eq x y ≡ false → x ≢ y
not_same x y h e = ground (arith, eq_iff x y)

one_leader_example : (election 0 votes_b (asking "b")).1.current_role ≢ leader
unfolding init election candidate_start candidate_rounds candidate_round candidate_receive
    candidate_message on_vote candidate_timeout set_current_role increment_term send_request_vote
    send_vote send_message ◌>>=◌ grants_read
one_leader_example =
    one_leader three_nodes timeouts stamps events "a" "b" 0 0 votes_a votes_b (asking "a")
      (asking "b") (election 0 votes_a (asking "a")).1 (election 0 votes_b (asking "b")).1
      events-NeverOwn (here refl) (there (here refl)) (not_same "a" "b" refl) refl refl refl refl
      refl
      ((here refl, refl, refl, 1, vote_a), ((there (there (here refl)), refl, refl, 0, vote_c), tt))
      ((there (here refl), refl, refl, 1, vote_b), tt) ((not_same "c" "a" refl, tt), (tt, tt))
      (tt, tt) refl refl refl
