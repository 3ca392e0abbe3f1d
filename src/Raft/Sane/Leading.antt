-- ===== src/Raft/Sane/Leading.antt =====
-- The start of a leader and each round of its loop, in a group of nodes that talk to each other only.
use cs525_project.Common.{
  ℕ, ◌-◌, ◌≡◌, refl, true, Option, none, some, List, Option-cases, inl, inr, Bool-cases, String,
  ltb, length, ◌==◌,
}
use cs525_project.Protocol.{
  Entry, AppendEntriesMessage, RequestVotesMessage, Message, request_votes_message,
  append_entries_message,
}
use cs525_project.Protocol.MessageType
use cs525_project.Protocol.MessageDirection
use cs525_project.Raft.State.{heartbeat_frequency, RaftNode, Role, raise, pure, ◌>>◌}
use cs525_project.Raft.Client.{get_client_request}
use cs525_project.Raft.Follower.{Flow, again, done}
use cs525_project.Raft.Candidate.{yield_vote}
use cs525_project.Raft.Leader.{
  LeaderClock, send_more, try_commit, on_answer, answer_found, on_acknowledge, on_client_request,
  leader_entry, leader_start, reset_nodes, beat, leader_message, leader_receive, serve_request,
  leader_requests, leader_round,
}
use cs525_project.Raft.Relates.{Relates, relates_rules, Relates-pure, Relates-bind}
use cs525_project.Raft.Sane.{
  IsHonest, honest, IsSane, IsSaneOption, IsSaneAppend, send_heartbeat-IsHonest, send_vote-IsHonest,
}
use cs525_project.Raft.Sane.Log.{
  set_current_role-IsHonest, increment_term-IsHonest, get_client_request-IsHonest, request-legal,
}
use cs525_project.Raft.Sane.Leader.{
  honest_rules, send_entry-IsHonest, resend-IsHonest, broadcast_append_entries-IsHonest,
  broadcast_commit_entries-IsHonest, assign_next-IsHonest,
}
use cs525_project.Raft.Committable.{max_committable_index}

module _ {P : Entry → Type 0} {ids : List String} where
  send_more-IsHonest :
      (node index : ℕ) (to : Option String) → Relates (honest P ids) (send_more node index to)
  unfolding send_more
  send_more-IsHonest node index to = record {
    at = λ s h. elim (Bool-cases (ltb (length s.log - 1) index)) [
      | inl y ↦ rw y ((assign_next-IsHonest node none).at s h)
      | inr n ↦ rw n ((send_entry-IsHonest index to).at s h)
    ];
  }

  try_commit-IsHonest : Relates (honest P ids) try_commit
  unfolding try_commit
  try_commit-IsHonest = record {
    at = λ s h.
        let index = max_committable_index s.current_num_nodes s.match_index in
        elim (Bool-cases (ltb s.commit_index index)) [
          | inl y ↦ rw y ((broadcast_commit_entries-IsHonest index).at s h)
          | inr n ↦ rw n h
        ];
  }

  on_answer-IsHonest :
      (node index : ℕ) (m : AppendEntriesMessage) → Relates (honest P ids) (on_answer node index m)
  unfolding on_answer
  on_answer-IsHonest node index m =
      search (honest_rules, send_more-IsHonest, try_commit-IsHonest) depth 9

  found-IsHonest :
      (node : ℕ) (m : AppendEntriesMessage) (found : Option ℕ)
      → Relates (honest P ids) (answer_found node m found)
  unfolding answer_found
  found-IsHonest node m none = Relates-pure tt
  found-IsHonest node m (some index) = on_answer-IsHonest node index m

  on_acknowledge-IsHonest :
      (now : ℕ) (m : AppendEntriesMessage) → Relates (honest P ids) (on_acknowledge now m)
  unfolding on_acknowledge
  on_acknowledge-IsHonest now m = search (honest_rules, found-IsHonest) depth 9

  on_client_request-IsHonest :
      (m : AppendEntriesMessage)
      → IsSaneAppend P ids m
      → Relates (honest P ids) (on_client_request m)
  unfolding on_client_request raise
  on_client_request-IsHonest m k = record {
    at = λ s h. elim (Option-cases m.entries) [
      | inl e ↦ rw e h
      | inr (entry, e) ↦ rw e ((broadcast_append_entries-IsHonest entry (k.legal entry e)).at s h)
    ];
  }

  pub yield_vote-IsHonest :
      (m : RequestVotesMessage) (s : RaftNode) → IsHonest P ids s → IsHonest P ids (yield_vote m s)
  unfolding yield_vote
  yield_vote-IsHonest m s h =
      set_current_role-IsHonest Role.follower _
        (send_vote-IsHonest m.sender true _ (increment_term-IsHonest (some m.term) s h))

  leader_message-IsHonest :
      (c : LeaderClock) (last : ℕ) (m : Message)
      → IsSane P ids m
      → Relates (honest P ids) (leader_message c last m)
  unfolding leader_message
  leader_message-IsHonest c last (append_entries_message m) k = record {
    at = λ s h.
        let answered : Relates (honest P ids) (on_acknowledge c.ack m >> pure (again last)) =
          search (relates_rules, on_acknowledge-IsHonest) in
        let requested : Relates (honest P ids) (on_client_request m >> pure (again last)) =
          search (relates_rules, on_client_request-IsHonest) in
        elim (Bool-cases (m.direction == MessageDirection.response)) [
          | inr n ↦ rw n h
          | inl d ↦ elim (Bool-cases (m.type_ == MessageType.acknowledge)) [
            | inl a ↦ rw (d, a) (answered.at s h)
            | inr n ↦ elim (Bool-cases (m.type_ == MessageType.client_request)) [
              | inl r ↦ rw (d, n, r) (requested.at s h)
              | inr o ↦ rw (d, n, o) h
            ]
          ]
        ];
  }
  leader_message-IsHonest c last (request_votes_message m) k = record {
    at = λ s h. elim (Bool-cases (m.direction == MessageDirection.request)) [
      | inr n ↦ rw n h
      | inl d ↦ elim (Bool-cases (ltb s.current_term m.term)) [
        | inr n ↦ rw (d, n) h
        | inl t ↦ rw (d, t) (yield_vote-IsHonest m s h)
      ]
    ];
  }

  leader_receive-IsHonest :
      (c : LeaderClock) (incoming : Option Message) (last : ℕ)
      → IsSaneOption P ids incoming
      → Relates (honest P ids) (leader_receive c incoming last)
  unfolding leader_receive
  leader_receive-IsHonest c none last k = record { at = λ s h. h }
  leader_receive-IsHonest c (some m) last k = record {
    at = (leader_message-IsHonest c last m k).at;
  }

  serve_request-IsHonest :
      (last : ℕ) (request : Option Entry)
      → ((e : Entry) → request ≡ some e → P e)
      → Relates (honest P ids) (serve_request last request)
  unfolding serve_request
  serve_request-IsHonest last none p = Relates-pure (again last)
  serve_request-IsHonest last (some e) p =
      Relates-bind _ _ (broadcast_append_entries-IsHonest e (p e refl))
        (λ _. Relates-pure (again last))

  leader_requests-IsHonest : (flow : Flow ℕ) → Relates (honest P ids) (leader_requests flow)
  unfolding leader_requests
  leader_requests-IsHonest done = record { at = λ s h. h }
  leader_requests-IsHonest (again last) = record {
    at = λ s h.
        let (request, s') = get_client_request s in
        (serve_request-IsHonest last request (λ e q. request-legal s e h q)).at s'
          (get_client_request-IsHonest s h);
  }

  beat-IsHonest : (c : LeaderClock) (last : ℕ) → Relates (honest P ids) (beat c last)
  unfolding beat
  beat-IsHonest c last = record {
    at = λ s h. elim (Bool-cases (ltb heartbeat_frequency (c.check - last))) [
      | inl y ↦ rw y (send_heartbeat-IsHonest s h)
      | inr n ↦ rw n h
    ];
  }

  pub leader_round-IsHonest :
      (c : LeaderClock) (incoming : Option Message) (last : ℕ)
      → IsSaneOption P ids incoming
      → Relates (honest P ids) (leader_round c incoming last)
  unfolding leader_round
  leader_round-IsHonest c incoming last k =
      search
        (
          relates_rules, beat-IsHonest, resend-IsHonest, leader_receive-IsHonest,
          leader_requests-IsHonest,
        )
        depth 8

  reset_nodes-IsHonest :
      (heard : ℕ → ℕ) (s : RaftNode) → IsHonest P ids s → IsHonest P ids (reset_nodes heard s)
  unfolding reset_nodes
  reset_nodes-IsHonest heard s h = record {
    member = h.member;
    started = h.started;
    entries = h.entries;
    queued = h.queued;
    sent = h.sent;
  }

  pub leader_start-IsHonest :
      (now : ℕ) (heard : ℕ → ℕ)
      → ((term : ℕ) → P (leader_entry term))
      → Relates (honest P ids) (leader_start now heard)
  unfolding leader_start
  leader_start-IsHonest now heard p =
      search (honest_rules, reset_nodes-IsHonest, broadcast_append_entries-IsHonest) depth 10
