-- ===== src/Raft/Sane/Follower.antt =====
-- The methods of a follower, in a group of nodes that talk to each other only.
use cs525_project.Common.{
  ℕ, ◌-◌, ◌≡◌, refl, Bool, true, false, Option, none, some, List, Option-cases, inl, inr,
  Bool-cases, String, ltb, ◌==◌,
}
use cs525_project.Protocol.{
  Entry, AppendEntriesMessage, RequestVotesMessage, Message, request_votes_message,
  append_entries_message,
}
use cs525_project.Protocol.MessageType
use cs525_project.Protocol.MessageDirection
use cs525_project.Raft.State.{RaftNode, Role, raise, pure, ◌>>◌}
use cs525_project.Raft.Client.{get_client_request}
use cs525_project.Raft.Send.{send_client_request}
use cs525_project.Raft.Follower.{
  see_term, may_vote, on_request_votes, truthy, forward_request, on_heartbeat, accept_entries,
  on_verified, on_append_entries, on_committal, follower_message, follower_receive,
  follower_timeout, follower_round,
}
use cs525_project.Raft.Relates.{Relates, relates_rules, Relates-bind}
use cs525_project.Raft.Sane.{
  IsHonest, honest, IsSane, IsSaneAppend, IsSaneOption, send_vote-IsHonest,
  send_acknowledge-IsHonest, send_client_request-IsHonest,
}
use cs525_project.Raft.Sane.Log.{
  set_current_role-IsHonest, increment_term-IsHonest, commit_entry-IsHonest, append_entry-IsHonest,
  get_client_request-IsHonest, request-legal, leader_id-IsHonest,
}

module _ {P : Entry → Type 0} {ids : List String} where
  see_term-IsHonest :
      (term : ℕ) (s : RaftNode) → IsHonest P ids s → IsHonest P ids (see_term term s)
  unfolding see_term
  see_term-IsHonest term s h = elim (Bool-cases (ltb s.current_term term)) [
    | inl y ↦ rw y (increment_term-IsHonest (some term) s h)
    | inr n ↦ rw n h
  ]

  on_request_votes-IsHonest :
      (m : RequestVotesMessage) (s : RaftNode)
      → IsHonest P ids s
      → IsHonest P ids (on_request_votes m s)
  unfolding on_request_votes
  on_request_votes-IsHonest m s h =
      send_vote-IsHonest m.sender (may_vote m (see_term m.term s)) _ (see_term-IsHonest m.term s h)

  forwarded :
      (leader : Option String) (request : Option Entry) (s : RaftNode)
      → ((e : Entry) → request ≡ some e → P e)
      → IsHonest P ids s
      → IsHonest P ids (elim request [ none ↦ s | some e ↦ send_client_request leader e s ])
  forwarded leader none s p h = h
  forwarded leader (some e) s p h = send_client_request-IsHonest leader e s (p e refl) h

  forward_request-IsHonest :
      (leader : Option String) (s : RaftNode)
      → IsHonest P ids s
      → IsHonest P ids (forward_request leader s)
  unfolding forward_request
  forward_request-IsHonest leader s h =
      let (request, s') = get_client_request s in
      forwarded leader request s' (λ e q. request-legal s e h q) (get_client_request-IsHonest s h)

  on_heartbeat-IsHonest :
      (m : AppendEntriesMessage) (s : RaftNode)
      → IsHonest P ids s
      → IsHonest P ids (on_heartbeat m s)
  unfolding on_heartbeat
  on_heartbeat-IsHonest m s h =
      let k = leader_id-IsHonest m.leader_id _ (see_term-IsHonest m.term s h) in
      elim (Bool-cases (truthy m.leader_id)) [
        | inl y ↦ rw y (forward_request-IsHonest m.leader_id _ k)
        | inr n ↦ rw n k
      ]

  accept_entries-IsHonest :
      (m : AppendEntriesMessage) (entries : Option Entry)
      → ((e : Entry) → entries ≡ some e → P e)
      → Relates (honest P ids) (accept_entries m entries)
  unfolding accept_entries
  accept_entries-IsHonest m none p = search (relates_rules)
  accept_entries-IsHonest m (some entry) p =
      let legal : P entry = p entry refl in
      search (relates_rules, append_entry-IsHonest, send_acknowledge-IsHonest) depth 8

  on_verified-IsHonest :
      (m : AppendEntriesMessage) (verified : Bool)
      → IsSaneAppend P ids m
      → Relates (honest P ids) (on_verified m verified)
  unfolding on_verified
  on_verified-IsHonest m false k = search (relates_rules, send_acknowledge-IsHonest)
  on_verified-IsHonest m true k = accept_entries-IsHonest m m.entries k.legal

  on_append_entries-IsHonest :
      (m : AppendEntriesMessage)
      → IsSaneAppend P ids m
      → Relates (honest P ids) (on_append_entries m)
  unfolding on_append_entries
  on_append_entries-IsHonest m k =
      search (relates_rules, send_acknowledge-IsHonest, on_verified-IsHonest) depth 9

  on_committal-IsHonest : (m : AppendEntriesMessage) → Relates (honest P ids) (on_committal m)
  unfolding on_committal raise
  on_committal-IsHonest m = record {
    at = λ s h. elim (Option-cases m.prev_log_index) [
      | inl e ↦ rw e h
      | inr (index, e) ↦ rw e (elim (Option-cases m.prev_log_term) [
        | inl e' ↦ rw e' h
        | inr (term, e') ↦ rw e' (commit_entry-IsHonest index term s h)
      ])
    ];
  }

  follower_message-IsHonest :
      (now last : ℕ) (m : Message)
      → IsSane P ids m
      → Relates (honest P ids) (follower_message now last m)
  unfolding follower_message
  follower_message-IsHonest now last (request_votes_message m) k = record {
    at = λ s h. elim (Bool-cases (m.direction == MessageDirection.request)) [
      | inl d ↦ rw d (on_request_votes-IsHonest m s h)
      | inr n ↦ rw n h
    ];
  }
  follower_message-IsHonest now last (append_entries_message m) k = record {
    at = λ s h.
        let appended : Relates (honest P ids) (on_append_entries m >> pure last) =
          search (relates_rules, on_append_entries-IsHonest) in
        let committed : Relates (honest P ids) (on_committal m >> pure last) =
          search (relates_rules, on_committal-IsHonest) in
        elim (Bool-cases (m.direction == MessageDirection.request)) [
          | inr n ↦ rw n h
          | inl d ↦ elim (Bool-cases (m.type_ == MessageType.heartbeat)) [
            | inl y ↦ rw (d, y) (on_heartbeat-IsHonest m s h)
            | inr a ↦ elim (Bool-cases (m.type_ == MessageType.append_entries)) [
              | inl y ↦ rw (d, a, y) (appended.at s h)
              | inr b ↦ elim (Bool-cases (m.type_ == MessageType.committal)) [
                | inl y ↦ rw (d, a, b, y) (committed.at s h)
                | inr c ↦ rw (d, a, b, c) h
              ]
            ]
          ]
        ];
  }

  follower_receive-IsHonest :
      (now last : ℕ) (incoming : Option Message)
      → IsSaneOption P ids incoming
      → Relates (honest P ids) (follower_receive now last incoming)
  unfolding follower_receive
  follower_receive-IsHonest now last none k = record { at = λ s h. h }
  follower_receive-IsHonest now last (some m) k = record {
    at = (follower_message-IsHonest now last m k).at;
  }

  follower_timeout-IsHonest : (now last : ℕ) → Relates (honest P ids) (follower_timeout now last)
  unfolding follower_timeout
  follower_timeout-IsHonest now last = record {
    at = λ s h. elim (Bool-cases (ltb s.election_timeout (now - last))) [
      | inl y ↦ rw y (set_current_role-IsHonest Role.candidate s h)
      | inr n ↦ rw n h
    ];
  }

  pub follower_round-IsHonest :
      (now later : ℕ) (incoming : Option Message) (last : ℕ)
      → IsSaneOption P ids incoming
      → Relates (honest P ids) (follower_round now later incoming last)
  unfolding follower_round
  follower_round-IsHonest now later incoming last k =
      Relates-bind _ _ (follower_receive-IsHonest now last incoming k)
        (follower_timeout-IsHonest later)
