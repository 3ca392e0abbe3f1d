-- ===== src/Raft/Leadership/Assign.antt =====
-- The assignments and the messages of a leader return, and keep its invariant.
use cs525_project.Common.{
  ℕ, ◌-◌, ◌≤◌, ◌<◌, String, ◌∙◌, Option, arith, length, get_elem?-lt, get_elem?-set,
  get_elem?-set_self, set, All-set, length-set, lt→ltb, inl, inr, item,
}
use cs525_project.Protocol.{Entry}
use cs525_project.Raft.State.{RaftNode, reads}
use cs525_project.Raft.Send.{send_message, send_heartbeat, send_append_entries, send_committal}
use cs525_project.Raft.Log.{commit_entry}
use cs525_project.Raft.Leader.{assign_next, assign_match, assign_heard, send_entry}
use cs525_project.Raft.Returns.{Returns, Returns-bind, Returns-reads, Returns-modify}
use cs525_project.Raft.Leadership.{
  Group, InLog, IsLeading, IsLeading-next, IsLeading-match, IsLeading-heard, IsLeading-outbox,
}

-- The invariant after an action, whatever its result.
abbrev pub Leads : {A : Type 0} → Group → ℕ → ℕ → A → RaftNode → Type 0
Leads g top cap a s = IsLeading g top cap s

module _ {g : Group} {top cap : ℕ} {s : RaftNode} (h : IsLeading g top cap s) where
  pub send_heartbeat-IsLeading : IsLeading g top cap (send_heartbeat s)
  unfolding send_heartbeat send_message
  send_heartbeat-IsLeading = IsLeading-outbox h _

  pub send_append_entries-IsLeading :
      (index term : ℕ) (e : Entry) (to : Option String)
      → IsLeading g top cap (send_append_entries index term e to s)
  unfolding send_append_entries send_message
  send_append_entries-IsLeading index term e to = IsLeading-outbox h _

  pub send_committal-IsLeading :
      (index : ℕ) (to : String) → IsLeading g top cap (send_committal index to s)
  unfolding send_committal send_message
  send_committal-IsLeading index to = IsLeading-outbox h _

  pub commit_entry-IsLeading : (index term : ℕ) → IsLeading g top cap (commit_entry index term s)
  unfolding commit_entry
  commit_entry-IsLeading index term = record {
    ids_eq = h.ids_eq;
    id_eq = h.id_eq;
    nodes_eq = h.nodes_eq;
    log_length = h.log_length;
    next_length = h.next_length;
    match_length = h.match_length;
    heard_length = h.heard_length;
    nexts = h.nexts;
    own = h.own;
  }

  pub assign_next-Leads :
      (node : ℕ) (index : Option ℕ)
      → node < length g.ids
      → InLog top index
      → Returns (Leads g top cap) (assign_next node index) s
  unfolding assign_next
  assign_next-Leads node index n i = record {
    holds = rw (lt→ltb node (length s.next_index) (omega (arith, h.next_length))) (
        IsLeading-next h (set s.next_index node index)
          (length-set s.next_index node index ∙ h.next_length)
          (All-set (InLog top) s.next_index node index h.nexts i));
  }

  pub assign_match-Leads :
      (node index : ℕ)
      → node < length g.ids
      → index ≤ cap
      → Returns (Leads g top cap) (assign_match node index) s
  unfolding assign_match
  assign_match-Leads node index n i = record {
    holds = rw (lt→ltb node (length s.match_index) (omega (arith, h.match_length))) (
        IsLeading-match h cap (set s.match_index node index)
          (length-set s.match_index node index ∙ h.match_length)
          (λ x e. elim (get_elem?-set s.match_index node g.me index x e) [
            | inl new ↦ omega arith
            | inr old ↦ h.own x old
          ]));
  }

  -- The own entry, which is new.
  pub assign_own-Leads :
      (index : ℕ) → g.me < length g.ids → Returns (Leads g top index) (assign_match g.me index) s
  unfolding assign_match
  assign_own-Leads index n =
      let inside : g.me < length s.match_index = omega (arith, h.match_length) in
      record {
        holds = rw (lt→ltb g.me (length s.match_index) inside) (
            IsLeading-match h index (set s.match_index g.me index)
              (length-set s.match_index g.me index ∙ h.match_length)
              (λ x e. ground (arith, get_elem?-set_self s.match_index g.me index inside)));
      }

  pub assign_heard-Leads :
      (node now : ℕ) → node < length g.ids → Returns (Leads g top cap) (assign_heard node now) s
  unfolding assign_heard
  assign_heard-Leads node now n = record {
    holds = rw (lt→ltb node (length s.heard_from) (omega (arith, h.heard_length))) (
        IsLeading-heard h (set s.heard_from node now)
          (length-set s.heard_from node now ∙ h.heard_length));
  }

  -- A reading of a list in range.
  pub address-Leads :
      (node : ℕ)
      → node < length g.ids
      → Returns (Leads g top cap) (reads (λ t. item t.all_ids node)) s
  address-Leads node n =
      let (a, e) = get_elem?-lt s.all_ids node (rw h.ids_eq n) in
      Returns-reads (λ t. item t.all_ids node) a s (rw e) h

  pub entry-Leads :
      (index : ℕ) → index ≤ top → Returns (Leads g top cap) (reads (λ t. item t.log index)) s
  entry-Leads index i =
      let (e, found) = get_elem?-lt s.log index (omega (arith, h.log_length)) in
      Returns-reads (λ t. item t.log index) e s (rw found) h

-- An entry that is in the log, as the one before it is, can be sent.
pub send_entry-Leads :
    {g : Group} {top cap : ℕ} {s : RaftNode} (h : IsLeading g top cap s) (index : ℕ)
    (to : Option String)
    → index ≤ top
    → Returns (Leads g top cap) (send_entry index to) s
unfolding send_entry
send_entry-Leads h index to i =
    Returns-bind _ _ _ (entry-Leads h (index - 1) (omega arith)) λ prev t ht.
      Returns-bind _ _ t (entry-Leads ht index i) λ entry u hu.
        Returns-modify _ u (send_append_entries-IsLeading hu (index - 1) prev.term entry to)
