-- ===== src/Raft/Rounds/Leader.antt =====
-- Each round of a leader makes the term and the votes grow.
use cs525_project.Common.{ℕ, Option, none, some, List, arith}
use cs525_project.Protocol.{Entry, Message, request_votes_message, append_entries_message}
use cs525_project.Raft.State.{RaftNode, pure, ◌>>◌}
use cs525_project.Raft.Client.{get_client_request}
use cs525_project.Raft.Follower.{Flow, again, done}
use cs525_project.Raft.Leader.{
  leader_start, reset_nodes, beat, leader_message, leader_receive, serve_request, leader_requests,
  leader_round, on_acknowledge, on_client_request, resend,
}
use cs525_project.Raft.Leader.{LeaderClock}
use cs525_project.Raft.Relates.{Relates, relates_rules, Relates-pure}
use cs525_project.Raft.Frame.{
  Keeps, keeping, send_heartbeat-Keeps, broadcast_append_entries-Keeps, resend-Keeps,
  on_acknowledge-Keeps, on_client_request-Keeps, get_client_request-Keeps,
}
use cs525_project.Raft.Grows.{
  Grows-refl, Grows-trans, growing, Keeps-Grows, Relates-Grows, yield_vote-Grows,
}

reset_nodes-Keeps : (heard : ℕ → ℕ) (s : RaftNode) → Keeps s (reset_nodes heard s)
unfolding reset_nodes
reset_nodes-Keeps heard s = ground arith

ruleset start_rules =
    (relates_rules, send_heartbeat-Keeps, reset_nodes-Keeps, broadcast_append_entries-Keeps)

pub leader_start-Keeps : (now : ℕ) (heard : ℕ → ℕ) → Relates keeping (leader_start now heard)
unfolding leader_start
leader_start-Keeps now heard = search start_rules depth 9

pub leader_start-Grows : (now : ℕ) (heard : ℕ → ℕ) → Relates growing (leader_start now heard)
leader_start-Grows now heard = Relates-Grows (leader_start-Keeps now heard)

beat-Grows : (c : LeaderClock) (last : ℕ) → Relates growing (beat c last)
unfolding beat
beat-Grows c last = record {
  at = λ s. ground (arith, Grows-refl s, Keeps-Grows s _ (send_heartbeat-Keeps s));
}

leader_message-Grows :
    (c : LeaderClock) (last : ℕ) (m : Message) → Relates growing (leader_message c last m)
unfolding leader_message
leader_message-Grows c last (append_entries_message m) = record {
  at = λ s.
      let answered : Relates growing (on_acknowledge c.ack m >> pure (again last)) =
        Relates-Grows (search (relates_rules, on_acknowledge-Keeps)) in
      let requested : Relates growing (on_client_request m >> pure (again last)) =
        Relates-Grows (search (relates_rules, on_client_request-Keeps)) in
      ground (arith, Grows-refl s, answered.at s, requested.at s);
}
leader_message-Grows c last (request_votes_message m) = record {
  at = λ s. ground (arith, Grows-refl s, yield_vote-Grows m s);
}

leader_receive-Grows :
    (c : LeaderClock) (incoming : Option Message) (last : ℕ)
    → Relates growing (leader_receive c incoming last)
unfolding leader_receive
leader_receive-Grows c none last = record { at = Grows-refl }
leader_receive-Grows c (some m) last = record { at = (leader_message-Grows c last m).at }

serve_request-Grows :
    (last : ℕ) (request : Option Entry) → Relates growing (serve_request last request)
unfolding serve_request
serve_request-Grows last none = Relates-pure (again last)
serve_request-Grows last (some e) =
    Relates-Grows (search (relates_rules, broadcast_append_entries-Keeps))

leader_requests-Grows : (flow : Flow ℕ) → Relates growing (leader_requests flow)
unfolding leader_requests
leader_requests-Grows done = record { at = Grows-refl }
leader_requests-Grows (again last) = record {
  at = λ s.
      let (request, s') = get_client_request s in
      Grows-trans s s' _ (Keeps-Grows s s' (get_client_request-Keeps s))
        ((serve_request-Grows last request).at s');
}

resend-Grows :
    (c : LeaderClock) (node : ℕ) (nodes : List (Option ℕ)) → Relates growing (resend c node nodes)
resend-Grows c node nodes = Relates-Grows (resend-Keeps c node nodes)

pub leader_round-Grows :
    (c : LeaderClock) (incoming : Option Message) (last : ℕ)
    → Relates growing (leader_round c incoming last)
unfolding leader_round
leader_round-Grows c incoming last =
    search (relates_rules, beat-Grows, resend-Grows, leader_receive-Grows, leader_requests-Grows)
      depth 8
