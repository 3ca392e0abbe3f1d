-- ===== src/Raft/Roles/Leader.antt =====
-- How a round of `_leader` in src/raft/raft.py may end.
use cs525_project.Common.{ℕ, ◌-◌, ◌==◌, inr, List, Option, none, some, ltb}
use cs525_project.Protocol.{Entry, Message, request_votes_message, append_entries_message}
use cs525_project.Protocol.MessageType
use cs525_project.Protocol.MessageDirection
use cs525_project.Raft.State.{heartbeat_frequency, RaftNode, pure, ◌>>◌}
use cs525_project.Raft.Client.{get_client_request}
use cs525_project.Raft.Follower.{Flow, again, done}
use cs525_project.Raft.Leader.{
  LeaderClock, beat, resend, leader_message, leader_receive, serve_request, leader_requests,
  leader_round, on_acknowledge, on_client_request,
}
use cs525_project.Raft.Relates.{Relates, relates_rules, Relates-pure}
use cs525_project.Raft.Frame.{
  Keeps-refl, Keeps-trans, keeping, get_client_request-Keeps, send_heartbeat-Keeps,
  broadcast_append_entries-Keeps, resend-Keeps, on_acknowledge-Keeps, on_client_request-Keeps,
}
use cs525_project.Raft.Roles.{stepping, StepsDown, Keeps-StepsDown, Relates-StepsDown}
use cs525_project.Raft.Roles.Ends.{Ends, Ends-in, Ends-if}
use cs525_project.Raft.Roles.Candidate.{yield_vote-down}

beat-Ends :
    (c : LeaderClock) (last : ℕ) (s : RaftNode) → Ends (λ p. StepsDown s p.1) (beat c last s)
unfolding beat
beat-Ends c last s =
    Ends-if (ltb heartbeat_frequency (c.check - last)) _ _
      (λ _. Ends-in _ (Keeps-StepsDown s _ (send_heartbeat-Keeps s)))
      (Ends-in _ (Keeps-StepsDown s s (Keeps-refl s)))

beat-StepsDown : (c : LeaderClock) (last : ℕ) → Relates stepping (beat c last)
beat-StepsDown c last = record { at = λ s. (beat-Ends c last s).holds }

leader_message-Ends :
    (c : LeaderClock) (last : ℕ) (m : Message) (s : RaftNode)
    → Ends (λ p. StepsDown s p.1) (leader_message c last m s)
unfolding leader_message
leader_message-Ends c last (append_entries_message m) s =
    let stays = Keeps-StepsDown s s (Keeps-refl s) in
    let answered : Relates keeping (on_acknowledge c.ack m >> pure (again last)) =
      search (relates_rules, on_acknowledge-Keeps) in
    let requested : Relates keeping (on_client_request m >> pure (again last)) =
      search (relates_rules, on_client_request-Keeps) in
    Ends-if (m.direction == MessageDirection.response) _ _
      (λ _.
        Ends-if (m.type_ == MessageType.acknowledge) _ _
          (λ _. Ends-in _ (Keeps-StepsDown s _ (answered.at s)))
          (Ends-if (m.type_ == MessageType.client_request) _ _
            (λ _. Ends-in _ (Keeps-StepsDown s _ (requested.at s))) (Ends-in _ stays)))
      (Ends-in _ stays)
leader_message-Ends c last (request_votes_message m) s =
    let stays = Keeps-StepsDown s s (Keeps-refl s) in
    Ends-if (m.direction == MessageDirection.request) _ _
      (λ _.
        Ends-if (ltb s.current_term m.term) _ _ (λ y. Ends-in _ (inr (yield_vote-down m s y)))
          (Ends-in _ stays))
      (Ends-in _ stays)

leader_message-StepsDown :
    (c : LeaderClock) (last : ℕ) (m : Message) → Relates stepping (leader_message c last m)
leader_message-StepsDown c last m = record { at = λ s. (leader_message-Ends c last m s).holds }

leader_receive-StepsDown :
    (c : LeaderClock) (incoming : Option Message) (last : ℕ)
    → Relates stepping (leader_receive c incoming last)
unfolding leader_receive
leader_receive-StepsDown c none last = record { at = λ s. Keeps-StepsDown s s (Keeps-refl s) }
leader_receive-StepsDown c (some m) last = record { at = (leader_message-StepsDown c last m).at }

serve_request-Keeps :
    (last : ℕ) (request : Option Entry) → Relates keeping (serve_request last request)
unfolding serve_request
serve_request-Keeps last none = Relates-pure (again last)
serve_request-Keeps last (some e) = search (relates_rules, broadcast_append_entries-Keeps)

leader_requests-Keeps : (flow : Flow ℕ) → Relates keeping (leader_requests flow)
unfolding leader_requests
leader_requests-Keeps done = record { at = Keeps-refl }
leader_requests-Keeps (again last) = record {
  at = λ s.
      let (request, s') = get_client_request s in
      Keeps-trans s s' _ (get_client_request-Keeps s) ((serve_request-Keeps last request).at s');
}

resend-StepsDown :
    (c : LeaderClock) (node : ℕ) (nodes : List (Option ℕ)) → Relates stepping (resend c node nodes)
resend-StepsDown c node nodes = Relates-StepsDown (resend-Keeps c node nodes)

leader_requests-StepsDown : (flow : Flow ℕ) → Relates stepping (leader_requests flow)
leader_requests-StepsDown flow = Relates-StepsDown (leader_requests-Keeps flow)

pub leader_round-StepsDown :
    (c : LeaderClock) (incoming : Option Message) (last : ℕ)
    → Relates stepping (leader_round c incoming last)
unfolding leader_round
leader_round-StepsDown c incoming last =
    search
      (
        relates_rules, beat-StepsDown, resend-StepsDown, leader_receive-StepsDown,
        leader_requests-StepsDown,
      )
      depth 8
