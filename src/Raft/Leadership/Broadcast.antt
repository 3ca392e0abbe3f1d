-- ===== src/Raft/Leadership/Broadcast.antt =====
-- The broadcasts of a leader return, and keep its invariant: no IndexError and no ValueError.
use cs525_project.Common.{
  ℕ, suc, ◌+◌, ◌-◌, ◌≤◌, ◌<◌, false, ◌≡◌, refl, Option, none, some, List, [], ◌∷◌, arith, length,
  length-append, get_elem?-lt, All, leb, inl, inr, Bool-cases,
}
use cs525_project.Protocol.{Entry}
use cs525_project.Raft.State.{RaftNode, gets, reads}
use cs525_project.Raft.Log.{
  cut_log, place_entry, push_entry, append_entry, log_max_index, get_node_index,
}
use cs525_project.Raft.Leader.{
  send_to_node, send_to_current, broadcast_append_entries, send_committal_to, send_committals,
  broadcast_commit_entries,
}
use cs525_project.Raft.Returns.{
  Returns, Returns-bind, Returns-pure, Returns-reads, Returns-gets, Returns-modify,
}
use cs525_project.Raft.Leadership.{Group, InLog, IsLeading, index_of-lt}
use cs525_project.Raft.Leadership.Assign.{
  Leads, assign_next-Leads, assign_own-Leads, address-Leads, entry-Leads,
  send_append_entries-IsLeading, send_committal-IsLeading, commit_entry-IsLeading,
}

InLog-weaken :
    (top : ℕ) (nexts : List (Option ℕ)) → All (InLog top) nexts → All (InLog (suc top)) nexts
InLog-weaken top [] a = tt
InLog-weaken top (none ∷ rest) a = (tt, InLog-weaken top rest a.1)
InLog-weaken top (some i ∷ rest) a = (omega arith, InLog-weaken top rest a.1)

pub me-lt : (g : Group) → g.me < length g.ids
me-lt g = index_of-lt g.my g.ids g.me g.found

module _ {g : Group} {top cap : ℕ} {s : RaftNode} (h : IsLeading g top cap s) where
  -- The log grows by one entry.
  append_entry-Leads : (e : Entry) → Returns (Leads g (suc top) cap) (append_entry e false none) s
  unfolding append_entry cut_log place_entry push_entry
  append_entry-Leads e =
      let (last, found) = get_elem?-lt s.log (length s.log - 1) (omega (arith, h.log_length)) in
      record {
        holds =
            rw (found, place_entry)
              (record {
                ids_eq = h.ids_eq;
                id_eq = h.id_eq;
                nodes_eq = h.nodes_eq;
                log_length = omega (arith, length-append s.log (e ∷ []), h.log_length);
                next_length = h.next_length;
                match_length = h.match_length;
                heard_length = h.heard_length;
                nexts = InLog-weaken top s.next_index h.nexts;
                own = h.own;
              });
      }

  top-Leads : Returns (λ x t. IsLeading g top cap t × (x ≡ top)) (gets log_max_index) s
  top-Leads = Returns-gets log_max_index s (h, omega (arith, h.log_length))

  me-Leads :
      Returns (λ x t. IsLeading g top cap t × (x ≡ g.me)) (reads (λ t. get_node_index t.my_id t)) s
  unfolding get_node_index
  me-Leads = Returns-reads _ g.me s (rw (h.id_eq, h.ids_eq, g.found)) (h, refl)

send_to_node-Leads :
    {g : Group} {top cap : ℕ} {s : RaftNode} (h : IsLeading g top cap s) (i t : ℕ) (e : Entry)
    (node : ℕ)
    → 1 ≤ top
    → node < length g.ids
    → Returns (Leads g top cap) (send_to_node i t e node) s
unfolding send_to_node
send_to_node-Leads h i t e node p n = Returns-bind _ _ _ (address-Leads h node n) λ address u hu.
    Returns-bind _ _ u
      (Returns-modify {P = Leads _ _ _} _ u (send_append_entries-IsLeading hu i t e (some address)))
      λ _ v hv.
        Returns-bind _ _ v (top-Leads hv)
          λ x w hw. assign_next-Leads hw.0 node (some x) n (omega (arith, hw.1))

send_to_current-Leads :
    {g : Group} {top cap : ℕ} (i t : ℕ) (e : Entry) (node : ℕ) (nodes : List (Option ℕ))
    {s : RaftNode}
    → IsLeading g top cap s
    → 1 ≤ top
    → node + length nodes ≡ length g.ids
    → Returns (Leads g top cap) (send_to_current i t e node nodes) s
unfolding send_to_current
send_to_current-Leads i t e node [] h p l = Returns-pure tt _ h
send_to_current-Leads i t e node (some _ ∷ rest) h p l =
    send_to_current-Leads i t e (suc node) rest h p (omega arith)
send_to_current-Leads i t e node (none ∷ rest) h p l =
    Returns-bind _ _ _ (send_to_node-Leads h i t e node p (omega arith))
      λ _ u hu. send_to_current-Leads i t e (suc node) rest hu p (omega arith)

-- A broadcast of an entry returns, and the log is longer by one.
pub broadcast_append_entries-Leads :
    {g : Group} {top cap : ℕ} {s : RaftNode} (h : IsLeading g top cap s) (e : Entry)
    → Returns (Leads g (suc top) (suc top)) (broadcast_append_entries e) s
unfolding broadcast_append_entries
broadcast_append_entries-Leads {g} {top} {cap} {s} h e =
    Returns-bind _ _ s (append_entry-Leads h e) λ prev t ht.
      Returns-bind _ _ t
        (Returns-gets {P = λ nodes u. IsLeading g (suc top) cap u × (length nodes ≡ length g.ids)} _
          t (ht, ht.next_length))
        λ nodes u hu.
          Returns-bind _ _ u
            (send_to_current-Leads prev.0 prev.1 e 0 nodes hu.0 (omega arith) (omega (arith, hu.1)))
            λ _ v hv. Returns-bind _ _ v (me-Leads hv) λ me w hw.
              Returns-bind _ _ w (assign_next-Leads hw.0 me none (rw hw.1 (me-lt g)) tt) λ _ x hx.
                Returns-bind _ _ x (top-Leads hx)
                  λ last y hy. rw (hw.1, hy.1) (assign_own-Leads hy.0 (suc top) (me-lt g))

send_committal_to-Leads :
    {g : Group} {top cap : ℕ} {s : RaftNode} (h : IsLeading g top cap s) (node index : ℕ)
    → node < length g.ids
    → Returns (Leads g top cap) (send_committal_to node index) s
unfolding send_committal_to
send_committal_to-Leads h node index n = elim (Bool-cases (leb index index)) [
  | inl e ↦ rw e (
      Returns-bind _ _ _ (address-Leads h node n)
        λ address u hu. Returns-modify _ u (send_committal-IsLeading hu index address))
  | inr e ↦ rw e (Returns-pure tt _ h)
]

send_committals-Leads :
    {g : Group} {top cap : ℕ} (node : ℕ) (nodes : List ℕ) {s : RaftNode}
    → IsLeading g top cap s
    → node + length nodes ≡ length g.ids
    → Returns (Leads g top cap) (send_committals node nodes) s
unfolding send_committals
send_committals-Leads node [] h l = Returns-pure tt _ h
send_committals-Leads node (index ∷ rest) h l =
    Returns-bind _ _ _ (send_committal_to-Leads h node index (omega arith))
      λ _ u hu. send_committals-Leads (suc node) rest hu (omega arith)

-- A commit of an index of the log returns.
pub broadcast_commit_entries-Leads :
    {g : Group} {top cap : ℕ} {s : RaftNode} (h : IsLeading g top cap s) (index : ℕ)
    → index ≤ top
    → Returns (Leads g top cap) (broadcast_commit_entries index) s
unfolding broadcast_commit_entries
broadcast_commit_entries-Leads {g} {top} {cap} h index i =
    Returns-bind _ _ _ (entry-Leads h index i) λ entry t ht.
      Returns-bind _ _ t
        (Returns-modify {P = Leads g top cap} _ t (commit_entry-IsLeading ht index entry.term))
        λ _ u hu.
          Returns-bind _ _ u
            (Returns-gets {P = λ nodes v. IsLeading g top cap v × (length nodes ≡ length g.ids)} _ u
              (hu, hu.match_length))
            λ nodes v hv. send_committals-Leads 0 nodes hv.0 (omega (arith, hv.1))
