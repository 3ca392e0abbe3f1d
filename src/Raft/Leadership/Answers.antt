-- ===== src/Raft/Leadership/Answers.antt =====
-- The handling of an acknowledgement returns, and keeps the invariant of the leader.
use cs525_project.Common.{
  ℕ, ◌≤◌, ◌<◌, String, Bool, true, false, ◌≡◌, refl, ◌∙◌, Option, none, some, arith, length,
  get_elem?-lt, set, set-set, length-set, All-get_elem?, All-set, ltb, lt→ltb, ltb→lt, inl, inr,
  Bool-cases, if◌then◌else◌,
}
use cs525_project.Protocol.{appends, AppendEntriesResults, AppendEntriesMessage}
use cs525_project.Raft.State.{RaftNode, pure, ◌>>◌}
use cs525_project.Raft.Log.{log_max_index, get_node_index, index_of}
use cs525_project.Raft.Candidate.{is_granted}
use cs525_project.Raft.Committable.{max_committable_index}
use cs525_project.Raft.Committable.Least.{le-max_committable_index}
use cs525_project.Raft.Leader.{
  set_next, assign_next, assign_match, is_success, next_after, send_more, try_commit, on_answer,
  answer_found, on_acknowledge,
}
use cs525_project.Raft.Returns.{Returns, Returns-bind, Returns-pure, Returns-reads}
use cs525_project.Raft.Leadership.{Group, InLog, IsLeading, IsLeading-next, index_of-lt}
use cs525_project.Raft.Leadership.Assign.{
  Leads, assign_next-Leads, assign_match-Leads, assign_heard-Leads, send_entry-Leads,
}
use cs525_project.Raft.Leadership.Broadcast.{me-lt, broadcast_commit_entries-Leads}

-- The index to commit is in the log, since the leader's own entry bounds it.
max_committable_index-le :
    {g : Group} {top : ℕ} {s : RaftNode}
    → IsLeading g top top s
    → max_committable_index s.current_num_nodes s.match_index ≤ top
max_committable_index-le {g} {top} {s} h =
    let (mine, found) = get_elem?-lt s.match_index g.me (omega (arith, h.match_length, me-lt g)) in
    let c = max_committable_index s.current_num_nodes s.match_index in
    let same : s.current_num_nodes ≡ length s.match_index =
      omega (arith, h.nodes_eq, h.match_length) in
    let all =
      (le-max_committable_index s.match_index c (omega (arith, h.match_length, me-lt g))).0
        (rw same (omega arith)) in
    omega (arith, All-get_elem? (λ i. c ≤ i) s.match_index g.me mine all found, h.own mine found)

try_commit-Leads :
    {g : Group} {top : ℕ} {s : RaftNode}
    → IsLeading g top top s
    → Returns (Leads g top top) try_commit s
unfolding try_commit
try_commit-Leads {g} {top} {s} h =
    let index = max_committable_index s.current_num_nodes s.match_index in
    elim (Bool-cases (ltb s.commit_index index)) [
      | inl e ↦ record {
        holds = rw e ((broadcast_commit_entries-Leads h index (max_committable_index-le h)).holds);
      }
      | inr e ↦ record { holds = rw e h }
    ]

-- While the invariant holds but for an index above the log at this node.
abbrev LeadsBut : {A : Type 0} → Group → ℕ → ℕ → A → RaftNode → Type 0
LeadsBut g top node a t = IsLeading g top top (set_next node none t) × (node < length t.next_index)

module _ {g : Group} {top : ℕ} {s : RaftNode} (h : IsLeading g top top s) (node : ℕ)
    (n : node < length g.ids) where
  -- An index above the log is assigned, and cleared again.
  assign_above : (index : ℕ) → Returns (LeadsBut g top node) (assign_next node (some index)) s
  unfolding assign_next
  assign_above index =
      let cleared =
        IsLeading-next h (set s.next_index node none)
          (length-set s.next_index node none ∙ h.next_length)
          (All-set (InLog top) s.next_index node none h.nexts tt) in
      record {
        holds = rw (lt→ltb node (length s.next_index) (omega (arith, h.next_length))) (
          rw (set-set s.next_index node (some index) none) cleared,
          omega (arith, length-set s.next_index node (some index), h.next_length),
        );
      }

  -- An index in the log is sent.
  send_more-Leads :
      (index : ℕ) (to : Option String)
      → index ≤ top
      → Returns (Leads g top top) (send_more node index to) s
  unfolding send_more
  send_more-Leads index to i = record {
    holds = elim (Bool-cases (ltb (log_max_index s) index)) [
      | inl e ↦ rw e ((assign_next-Leads h node none n tt).holds)
      | inr e ↦ rw e ((send_entry-Leads h index to i).holds)
    ];
  }

clear_above :
    {g : Group} {top : ℕ} {s : RaftNode} (node index : ℕ) (to : Option String)
    → LeadsBut g top node tt s
    → top < index
    → Returns (Leads g top top) (send_more node index to) s
unfolding send_more assign_next
clear_above {g} {top} {s} node index to h i = record {
  holds =
      rw
        (
          lt→ltb (log_max_index s) index (omega (arith, h.0.log_length)),
          lt→ltb node (length s.next_index) h.1,
        )
        h.0;
}

-- The new index is assigned; it is sent, or cleared if it is above the log.
advance_node-Leads :
    {g : Group} {top : ℕ} {s : RaftNode} (h : IsLeading g top top s) (node index : ℕ)
    (to : Option String)
    → node < length g.ids
    → 1 ≤ index
    → Returns
        (Leads g top top)
        (assign_next node (some index) >> (send_more node index to >> try_commit))
        s
advance_node-Leads {g} {top} h node index to n i = elim (Bool-cases (ltb top index)) [
  | inl above ↦ Returns-bind _ _ _ (assign_above h node n index) λ _ t ht.
      Returns-bind _ _ t (clear_above node index to ht (ltb→lt _ _ above))
        λ _ u hu. try_commit-Leads hu
  | inr inside ↦
      Returns-bind _ _ _ (assign_next-Leads h node (some index) n (ground arith)) λ _ t ht.
        Returns-bind _ _ t (send_more-Leads ht node n index to (ground arith))
          λ _ u hu. try_commit-Leads hu
]

matched-Leads :
    {g : Group} {top : ℕ} {s : RaftNode} (h : IsLeading g top top s) (success : Bool)
    (node index : ℕ)
    → node < length g.ids
    → index ≤ top
    → Returns (Leads g top top) (if success then assign_match node index else pure tt) s
matched-Leads h true node index n i = assign_match-Leads h node index n i
matched-Leads h false node index n i = Returns-pure tt _ h

next_after-pos : (success : Bool) (index : ℕ) → 1 ≤ index → 1 ≤ next_after success index
next_after-pos true index h = omega arith
next_after-pos false index h = ground arith

on_answer-Leads :
    {g : Group} {top : ℕ} {s : RaftNode} (h : IsLeading g top top s) (node index : ℕ)
    (m : AppendEntriesMessage) (r : AppendEntriesResults)
    → node < length g.ids
    → InLog top (some index)
    → m.results ≡ appends r
    → Returns (Leads g top top) (on_answer node index m) s
unfolding on_answer is_success
on_answer-Leads {g} {top} {s} h node index m r n i e =
    Returns-bind _ _ s (Returns-reads {P = Leads g top top} _ (is_granted r.success) s (rw e) h)
      λ success t ht. Returns-bind _ _ t (matched-Leads ht success node index n i.1) λ _ u hu.
        advance_node-Leads hu node (next_after success index) (some m.sender) n
          (next_after-pos success index i.0)

answer_found-Leads :
    {g : Group} {top : ℕ} {s : RaftNode} (h : IsLeading g top top s) (node : ℕ)
    (m : AppendEntriesMessage) (r : AppendEntriesResults) (found : Option ℕ)
    → node < length g.ids
    → InLog top found
    → m.results ≡ appends r
    → Returns (Leads g top top) (answer_found node m found) s
unfolding answer_found
answer_found-Leads h node m r none n i e = Returns-pure tt _ h
answer_found-Leads h node m r (some index) n i e = on_answer-Leads h node index m r n i e

-- An acknowledgement by a node of the group is handled without an exception.
pub on_acknowledge-Leads :
    {g : Group} {top : ℕ} {s : RaftNode} (h : IsLeading g top top s) (now : ℕ)
    (m : AppendEntriesMessage) (r : AppendEntriesResults) (node : ℕ)
    → index_of m.sender g.ids ≡ some node
    → m.results ≡ appends r
    → Returns (Leads g top top) (on_acknowledge now m) s
unfolding on_acknowledge get_node_index
on_acknowledge-Leads {g} {top} {s} h now m r node known e =
    let n = index_of-lt m.sender g.ids node known in
    Returns-bind _ _ s
      (Returns-reads {P = λ k t. IsLeading g top top t × (k ≡ node)} _ node s (rw (h.ids_eq, known))
        (h, refl))
      λ k t ht. Returns-bind _ _ t (assign_heard-Leads ht.0 k now (rw ht.1 n)) λ _ u hu.
        let (found, at) = get_elem?-lt u.next_index node (omega (arith, hu.next_length)) in
        Returns-bind _ _ u
          (Returns-reads {P = λ f v. IsLeading g top top v × InLog top f} _ found u (rw (ht.1, at))
            (hu, All-get_elem? (InLog top) u.next_index node found hu.nexts at))
          λ f v hv. answer_found-Leads hv.0 k m r f (rw ht.1 n) hv.1 e
