-- ===== src/Raft/Tests/Runs.antt =====
-- The theorems about runs, on a node that is asked for its vote twice, and on one that is stopped.
use cs525_project.Common.{ℕ, ◌≤◌, ◌≡◌, refl, none, List, [], ◌∷◌}
use cs525_project.Json.{get, lookup, update}
use cs525_project.Interface.{listener_receive, get_message}
use cs525_project.Protocol.{default_votes, Message, request_votes_message}
use cs525_project.Protocol.MessageType
use cs525_project.Protocol.MessageDirection
use cs525_project.Protocol.Wire.{
  jsonify, parse_json_message, un_jsonify_votes, un_jsonify_base, un_jsonify_request_votes,
}
use cs525_project.Raft.State.{follower, init, ◌>>=◌}
use cs525_project.Raft.Send.{send_vote, send_message}
use cs525_project.Raft.Log.{increment_term, set_current_role}
use cs525_project.Raft.Follower.{
  follower_round, follower_receive, follower_message, on_request_votes, see_term, follower_timeout,
}
use cs525_project.Raft.Thread.{
  Event, tick, arrive, run, step, advance, next_message, loop_round, decide,
}
use cs525_project.Raft.Granted.{granted}
use cs525_project.Raft.Voting.{IsIncreasing}
use cs525_project.Raft.Elections.{start, own_next, granted-run-IsIncreasing, run-term}
use cs525_project.Raft.Client.{stop}
use cs525_project.Raft.Thread.Stops.{stop-stopped}
use cs525_project.Raft.Thread.{Thread, stopped, call_stop}
use cs525_project.Raft.Tests.{three_nodes, no_stamps, node, readings}

-- A request for votes from "b" for a term.
abbrev vote_request : ℕ → Message
vote_request term = request_votes_message (record {
  base = record {
    timestamp = 0;
    type_ = MessageType.request_votes;
    term = term;
    sender = "b";
    receiver = none;
    direction = MessageDirection.request;
    results = default_votes;
  };
  candidate_id = "b";
  last_log_index = 0;
  last_log_term = 1;
})

-- The node starts to follow, and is asked for its vote in two terms.
abbrev asked_twice : List Event
asked_twice =
    arrive (jsonify (vote_request 2))
    ∷ tick readings
    ∷ tick readings
    ∷ arrive (jsonify (vote_request 3))
    ∷ tick readings
    ∷ []

granted-run-IsIncreasing_example :
    IsIncreasing
      (granted (run asked_twice (start "first" three_nodes "a" 1_000 no_stamps)).node.outbox)
unfolding init run step advance next_message loop_round decide follower_round follower_receive
    follower_message on_request_votes see_term increment_term send_vote send_message
    follower_timeout set_current_role listener_receive get lookup update jsonify parse_json_message
    un_jsonify_votes un_jsonify_base un_jsonify_request_votes own_next granted ◌>>=◌ get_message
granted-run-IsIncreasing_example =
    granted-run-IsIncreasing "first" three_nodes "a" 1_000 no_stamps asked_twice
      (refl, (refl, (refl, (refl, (refl, tt)))))

asked_twice-grants :
    granted (run asked_twice (start "first" three_nodes "a" 1_000 no_stamps)).node.outbox
    ≡ 2 ∷ 3 ∷ []
unfolding init run step advance next_message loop_round decide follower_round follower_receive
    follower_message on_request_votes see_term increment_term send_vote send_message
    follower_timeout set_current_role listener_receive get lookup update jsonify parse_json_message
    un_jsonify_votes un_jsonify_base un_jsonify_request_votes own_next granted ◌>>=◌ get_message
asked_twice-grants = refl

run-term_example :
    1 ≤ (run asked_twice (start "first" three_nodes "a" 1_000 no_stamps)).node.current_term
unfolding init
run-term_example = run-term asked_twice (start "first" three_nodes "a" 1_000 no_stamps)

abbrev started : Thread
started = start "first" three_nodes "a" 1_000 no_stamps

stop-stopped_example :
    run (call_stop ∷ tick readings ∷ tick readings ∷ []) started
    ≡ record started { node = stop (node follower); phase = stopped }
stop-stopped_example = stop-stopped readings readings started tt
