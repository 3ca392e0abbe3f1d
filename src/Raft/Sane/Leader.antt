-- ===== src/Raft/Sane/Leader.antt =====
-- The sending methods of a leader, in a group of nodes that talk to each other only.
use cs525_project.Common.{
  ℕ, suc, ◌-◌, Option, none, some, List, [], ◌∷◌, All-get_elem?, get_elem?, Option-cases, inl, inr,
  Bool-cases, String, ltb, length,
}
use cs525_project.Protocol.{Entry}
use cs525_project.Raft.State.{raise, ◌>>=◌}
use cs525_project.Raft.Leader.{
  assign_next, assign_match, assign_heard, send_to_node, send_to_current, broadcast_append_entries,
  LeaderClock, send_committal_to, send_committals, broadcast_commit_entries, send_entry, resend_to,
  resend,
}
use cs525_project.Raft.Relates.{Relation, Relates, relates_rules, Relates-pure, Relates-bind}
use cs525_project.Raft.Sane.{
  IsHonest, honest, IsSane, IsSaneAppend, send_heartbeat-IsHonest, send_append_entries-IsHonest,
  send_committal-IsHonest, send_vote-IsHonest,
}
use cs525_project.Raft.Sane.Log.{
  set_current_role-IsHonest, increment_term-IsHonest, commit_entry-IsHonest, append_entry-IsHonest,
  get_client_request-IsHonest, request-legal,
}

module _ {P : Entry → Type 0} {ids : List String} where
  pub assign_next-IsHonest :
      (node : ℕ) (index : Option ℕ) → Relates (honest P ids) (assign_next node index)
  unfolding assign_next raise
  assign_next-IsHonest node index = record {
    at = λ s h. elim (Bool-cases (ltb node (length s.next_index))) [
      | inl y ↦ rw y (record {
        member = h.member;
        started = h.started;
        entries = h.entries;
        queued = h.queued;
        sent = h.sent;
      })
      | inr n ↦ rw n h
    ];
  }

  pub assign_match-IsHonest : (node index : ℕ) → Relates (honest P ids) (assign_match node index)
  unfolding assign_match raise
  assign_match-IsHonest node index = record {
    at = λ s h. elim (Bool-cases (ltb node (length s.match_index))) [
      | inl y ↦ rw y (record {
        member = h.member;
        started = h.started;
        entries = h.entries;
        queued = h.queued;
        sent = h.sent;
      })
      | inr n ↦ rw n h
    ];
  }

  pub assign_heard-IsHonest : (node now : ℕ) → Relates (honest P ids) (assign_heard node now)
  unfolding assign_heard raise
  assign_heard-IsHonest node now = record {
    at = λ s h. elim (Bool-cases (ltb node (length s.heard_from))) [
      | inl y ↦ rw y (record {
        member = h.member;
        started = h.started;
        entries = h.entries;
        queued = h.queued;
        sent = h.sent;
      })
      | inr n ↦ rw n h
    ];
  }

pub ruleset honest_rules = (
  relates_rules, assign_next-IsHonest, assign_match-IsHonest, assign_heard-IsHonest,
  append_entry-IsHonest, send_heartbeat-IsHonest, send_append_entries-IsHonest,
  send_committal-IsHonest, commit_entry-IsHonest,
)

module _ {P : Entry → Type 0} {ids : List String} where
  pub send_to_node-IsHonest :
      (i t : ℕ) (e : Entry) (node : ℕ) → P e → Relates (honest P ids) (send_to_node i t e node)
  unfolding send_to_node
  send_to_node-IsHonest i t e node p = search honest_rules depth 9

  send_to_current-IsHonest :
      (i t : ℕ) (e : Entry) (node : ℕ) (nodes : List (Option ℕ))
      → P e
      → Relates (honest P ids) (send_to_current i t e node nodes)
  unfolding send_to_current
  send_to_current-IsHonest i t e node [] p = Relates-pure tt
  send_to_current-IsHonest i t e node (some _ ∷ rest) p =
      send_to_current-IsHonest i t e (suc node) rest p
  send_to_current-IsHonest i t e node (none ∷ rest) p =
      Relates-bind _ _ (send_to_node-IsHonest i t e node p)
        (λ _. send_to_current-IsHonest i t e (suc node) rest p)

  pub broadcast_append_entries-IsHonest :
      (e : Entry) → P e → Relates (honest P ids) (broadcast_append_entries e)
  unfolding broadcast_append_entries
  broadcast_append_entries-IsHonest e p = search (honest_rules, send_to_current-IsHonest) depth 10

  send_committal_to-IsHonest :
      (node index : ℕ) → Relates (honest P ids) (send_committal_to node index)
  unfolding send_committal_to
  send_committal_to-IsHonest node index = search honest_rules depth 8

  send_committals-IsHonest :
      (node : ℕ) (nodes : List ℕ) → Relates (honest P ids) (send_committals node nodes)
  unfolding send_committals
  send_committals-IsHonest node [] = Relates-pure tt
  send_committals-IsHonest node (index ∷ rest) =
      Relates-bind _ _ (send_committal_to-IsHonest node index)
        (λ _. send_committals-IsHonest (suc node) rest)

  pub broadcast_commit_entries-IsHonest :
      (index : ℕ) → Relates (honest P ids) (broadcast_commit_entries index)
  unfolding broadcast_commit_entries
  broadcast_commit_entries-IsHonest index = search (honest_rules, send_committals-IsHonest) depth 8

  -- The entry that is sent stands in the log.
  pub send_entry-IsHonest :
      (index : ℕ) (to : Option String) → Relates (honest P ids) (send_entry index to)
  unfolding send_entry ◌>>=◌
  send_entry-IsHonest index to = record {
    at = λ s h. elim (Option-cases (get_elem? s.log (index - 1))) [
      | inl e ↦ rw e h
      | inr (prev, e) ↦ elim (Option-cases (get_elem? s.log index)) [
        | inl e' ↦ rw (e, e') h
        | inr (entry, e') ↦
            rw (e, e')
              (send_append_entries-IsHonest (index - 1) prev.term entry to s
                (All-get_elem? P s.log index entry h.entries e') h)
      ]
    ];
  }

  resend_to-IsHonest :
      (c : LeaderClock) (node index : ℕ) → Relates (honest P ids) (resend_to c node index)
  unfolding resend_to
  resend_to-IsHonest c node index = search (honest_rules, send_entry-IsHonest) depth 9

  pub resend-IsHonest :
      (c : LeaderClock) (node : ℕ) (nodes : List (Option ℕ))
      → Relates (honest P ids) (resend c node nodes)
  unfolding resend
  resend-IsHonest c node [] = Relates-pure tt
  resend-IsHonest c node (none ∷ rest) = resend-IsHonest c (suc node) rest
  resend-IsHonest c node (some index ∷ rest) =
      Relates-bind _ _ (resend_to-IsHonest c node index) (λ _. resend-IsHonest c (suc node) rest)
