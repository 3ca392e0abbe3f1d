-- ===== src/Raft/Tests/Clustered.antt =====
-- The theorems about a group of two nodes.
use cs525_project.Protocol.{default_votes, Message, request_votes_message}
use cs525_project.Protocol.MessageType
use cs525_project.Protocol.MessageDirection
use cs525_project.Protocol.Wire.{jsonify, parse_json_message}
use cs525_project.Interface.{get_message}
use cs525_project.Raft.State.{init, ◌>>=◌}
use cs525_project.Raft.Send.{send_request_vote, send_vote, send_message}
use cs525_project.Raft.Log.{set_current_role, increment_term}
use cs525_project.Raft.Follower.{follower_round, follower_receive, follower_timeout}
use cs525_project.Raft.Candidate.{candidate_start}
use cs525_project.Common.{none, some, ◌≡◌, get_elem?, ℕ, String, refl, List, [], ◌∷◌, All, pos}
use cs525_project.Json.{str}
use cs525_project.Raft.Thread.{
  Thread, Readings, advance, next_message, loop_round, decide, arrive, tick, call_request,
  call_stop, step,
}
use cs525_project.Raft.Thread.Stops.{IsAlive}
use cs525_project.Raft.Elections.{start}
use cs525_project.Raft.Cluster.{Requests, Reach, new, later, ticks, hears, asks, stops}
use cs525_project.Raft.Cluster.Safe.{Legal}
use cs525_project.Raft.Cluster.Alive.{Reach-IsAlive, Reach-Legal}
use cs525_project.Raft.Tests.{leader_clock, no_stamps, readings}

abbrev two_nodes : List String
two_nodes = "a" ∷ "b" ∷ []

abbrev anything : Requests
anything value id = Unit

abbrev timeouts : String → ℕ
timeouts a = 1_000

abbrev fresh : String → Thread
fresh a = start a two_nodes a 1_000 no_stamps

-- "b" waits for longer than its timeout, becomes a candidate, and asks for votes.
abbrev late : Readings
late = record { now = 9_000; now_later = 9_001; leader_clock = leader_clock; heard = λ k. 7 }

abbrev following_b : Thread
following_b = step (tick readings) (fresh "b")

abbrev silent_b : Thread
silent_b = step (tick late) following_b

abbrev asking_b : Thread
asking_b = step (tick late) silent_b

abbrev candidacy : Message
candidacy = request_votes_message (record {
  base = record {
    timestamp = 0;
    type_ = MessageType.request_votes;
    term = 2;
    sender = "b";
    receiver = none;
    direction = MessageDirection.request;
    results = default_votes;
  };
  candidate_id = "b";
  last_log_index = 0;
  last_log_term = 1;
})

-- "a" hears it twice, a client asks "a", and "a" is stopped.
abbrev heard_a : Thread
heard_a = step (arrive (jsonify candidacy)) (step (arrive (jsonify candidacy)) (fresh "a"))

abbrev asked_a : Thread
asked_a = step (call_request (str "x") (pos 3)) heard_a

abbrev stopped_a : Thread
stopped_a = step call_stop asked_a

asked-candidacy : get_elem? asking_b.node.outbox 0 ≡ some candidacy
unfolding init step advance next_message get_message loop_round decide follower_round
    follower_receive follower_timeout set_current_role candidate_start increment_term
    send_request_vote send_vote send_message parse_json_message ◌>>=◌
asked-candidacy = refl

last-reached : Reach anything two_nodes timeouts (λ a. no_stamps) (stopped_a ∷ asking_b ∷ [])
last-reached =
    later
      (later
        (later
          (later
            (later
              (later (later new (ticks 1 (fresh "b") readings refl))
                (ticks 1 following_b late refl))
              (ticks 1 silent_b late refl))
            (hears 0 1 0 (fresh "a") asking_b candidacy refl refl asked-candidacy))
          (hears 0 1 0 (step (arrive (jsonify candidacy)) (fresh "a")) asking_b candidacy refl refl
            asked-candidacy))
        (asks 0 heard_a (str "x") (pos 3) refl tt))
      (stops 0 asked_a refl)

Reach-IsAlive_example : IsAlive stopped_a.phase
Reach-IsAlive_example =
    Reach-IsAlive anything two_nodes timeouts (λ a. no_stamps) (stopped_a ∷ asking_b ∷ []) 0
      stopped_a last-reached refl

Reach-Legal_example : All (Legal anything two_nodes) asking_b.node.log
Reach-Legal_example =
    Reach-Legal anything two_nodes timeouts (λ a. no_stamps) (stopped_a ∷ asking_b ∷ []) 1 asking_b
      last-reached refl
