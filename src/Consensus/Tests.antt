-- ===== src/Consensus/Tests.antt =====
-- The group of a node with two neighbours.
use cs525_project.Json.{Value}
use cs525_project.Protocol.{Message, request_votes_message, votes}
use cs525_project.Protocol.MessageType
use cs525_project.Protocol.MessageDirection
use cs525_project.Protocol.Wire.{jsonify}
use cs525_project.Raft.Thread.{Thread, Event, Readings, tick, arrive}
use cs525_project.Raft.Cluster.{Requests}
use cs525_project.Common.{
  String, List, none, get_elem?, ◌⊎◌, err, index_error, ◌≢◌, arith, eq_iff, ◌≡◌, refl, [], ◌∷◌, ok,
}
use cs525_project.Common.Dict.{keys, IsDistinct}
use cs525_project.Membership.{Table}
use cs525_project.Consensus.{wish, raft_node, at_check, local_consensus}
use cs525_project.Raft.State.{RaftNode}
use cs525_project.Consensus.Group.{group_ids}
use cs525_project.Consensus.Outcome.{FromGroup, IsOutcome, local_consensus-IsOutcome}

abbrev neighbours : Table
neighbours = ("1", ("172.22.1.1", 10)) ∷ ("2", ("172.22.1.2", 20)) ∷ []

ids_differ : ◌≢◌ {A = String} "2" "1"
ids_differ = ground (arith, eq_iff "2" "1")

neighbours-IsDistinct : IsDistinct (keys neighbours)
neighbours-IsDistinct = ((ids_differ, tt), (tt, tt))

-- Clients may ask for what this node asks.
abbrev wanted : Requests
wanted value id = Path Value value (wish "3")

abbrev readings : Readings
readings = record {
  now = 5;
  now_later = 6;
  leader_clock = record { check = 1; beat = 2; resend_check = λ k. 3; resend_at = λ k. 4; ack = 5 };
  heard = λ k. 7;
}

-- A neighbour asks for a vote.
abbrev candidacy : Message
candidacy = request_votes_message (record {
  base = record {
    timestamp = 9;
    type_ = MessageType.request_votes;
    term = 2;
    sender = "172.22.1.1:60021";
    receiver = none;
    direction = MessageDirection.request;
    results = votes (record { term = none; vote_granted = none });
  };
  candidate_id = "172.22.1.1:60021";
  last_log_index = 0;
  last_log_term = 1;
})

abbrev waiting : List Event
waiting = tick readings ∷ arrive (jsonify candidacy) ∷ tick readings ∷ []

abbrev group : List String
group = group_ids "3" "172.22.1.3" neighbours

waiting-FromGroup : FromGroup wanted group waiting
waiting-FromGroup =
    ((candidacy, refl, (refl, record { term = none; vote_granted = none }, refl)), tt)

local_consensus-IsOutcome_example :
    (s : RaftNode) × (raft_node "3" "172.22.1.3" neighbours 450_000 (λ n. n) ≡ ok s)
    × (((get_elem?
              (at_check "3" waiting waiting s).node.log
              (at_check "3" waiting waiting s).node.commit_index
            ≡ none)
          × (local_consensus "3" "172.22.1.3" neighbours 450_000 (λ n. n) waiting waiting
              ≡ err index_error))
        ⊎ ((value : Value) × (t : Thread) × (local_consensus "3" "172.22.1.3" neighbours 450_000
                (λ n. n)
                waiting
                waiting
              ≡ ok (value, t))
            × IsOutcome wanted group value t))
local_consensus-IsOutcome_example =
    local_consensus-IsOutcome wanted "3" "172.22.1.3" neighbours 450_000 (λ n. n) waiting waiting
      neighbours-IsDistinct refl (refl, (refl, tt)) refl waiting-FromGroup waiting-FromGroup
