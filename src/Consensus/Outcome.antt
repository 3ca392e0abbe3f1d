-- ===== src/Consensus/Outcome.antt =====
-- What `local_consensus` may print.
use mathlib.Core.Path.{subst}
use cs525_project.Common.{
  ℕ, String, true, ◌≡◌, refl, sym, ◌⊎◌, inl, inr, none, some, List, [], ◌∷◌, All-get_elem?,
  get_elem?, negsuc, ok, err, index_error, str_eq, false, Option-cases, arith,
}
use cs525_project.Common.Dict.{keys, IsDistinct}
use cs525_project.Json.{Value}
use cs525_project.Membership.{Table}
use cs525_project.Protocol.{Entry}
use cs525_project.Raft.State.{RaftNode, follower, init}
use cs525_project.Raft.Client.{check_committed_entry, stop}
use cs525_project.Raft.Config.{address}
use cs525_project.Raft.Thread.{
  Thread, Event, tick, arrive, call_request, call_pause, call_un_pause, call_stop, step, run,
}
use cs525_project.Raft.Thread.Stops.{IsAlive}
use cs525_project.Raft.Cluster.{Requests}
use cs525_project.Raft.Cluster.Calm.{IsWritten, IsCalm}
use cs525_project.Raft.Cluster.Safe.{
  Legal, ticked-IsCalm, heard-IsCalm, asked-IsCalm, paused-IsCalm, resumed-IsCalm, stopped-IsCalm,
}
use cs525_project.Raft.Cluster.Alive.{Stands-IsAlive}
use cs525_project.Consensus.{high_power, thread, wish, finish, at_check, raft_node, local_consensus}
use cs525_project.Consensus.Group.{HasNoLeader, group_ids, raft_node-init, own-Known}

module _ (asked : Requests) (ids : List String) where
  -- The thread hears only what a node of the group may send, and clients ask only for what they may.
  abbrev pub FromGroup : List Event → Type 0
  FromGroup [] = Unit
  FromGroup (arrive d ∷ es) = IsWritten (Legal asked ids) ids d × FromGroup es
  FromGroup (call_request value id ∷ es) = asked value id × FromGroup es
  FromGroup (_ ∷ es) = FromGroup es

  run-IsCalm :
      (es : List Event) (t : Thread)
      → FromGroup es
      → IsCalm (Legal asked ids) ids t
      → IsCalm (Legal asked ids) ids (run es t)
  unfolding run
  run-IsCalm [] t f c = c
  run-IsCalm (tick r ∷ es) t f c =
      run-IsCalm es _ f (ticked-IsCalm (Legal asked ids) ids t r (λ term. inr (inl (term, refl))) c)
  run-IsCalm (arrive d ∷ es) t f c = run-IsCalm es _ f.1 (
      subst (λ x. IsCalm (Legal asked ids) ids (step (arrive x) t)) (sym f.0.1)
        (heard-IsCalm (Legal asked ids) ids t f.0.0 c f.0.2))
  run-IsCalm (call_request value id ∷ es) t f c =
      run-IsCalm es _ f.1 (asked-IsCalm (Legal asked ids) ids t value id c (inr (inr f.0)))
  run-IsCalm (call_pause ∷ es) t f c = run-IsCalm es _ f (paused-IsCalm (Legal asked ids) ids t c)
  run-IsCalm (call_un_pause ∷ es) t f c =
      run-IsCalm es _ f (resumed-IsCalm (Legal asked ids) ids t c)
  run-IsCalm (call_stop ∷ es) t f c = run-IsCalm es _ f (stopped-IsCalm (Legal asked ids) ids t c)

-- `local_consensus` has returned: what it prints is the value of the entry at the commit index, which is
-- a legal one, and its thread, which has not crashed, is told to stop.
pub record IsOutcome (asked : Requests) (ids : List String) (value : Value) (t : Thread)
    : Type 0 where
  pub entry : Entry
  pub printed : value ≡ entry.entry
  pub at_commit : get_elem? t.node.log t.node.commit_index ≡ some entry
  pub legal : Legal asked ids entry
  pub alive : IsAlive t.phase
  pub stopping : t.node.terminate ≡ true

finish-none :
    (t : Thread) → get_elem? t.node.log t.node.commit_index ≡ none → finish t ≡ err index_error
unfolding finish check_committed_entry
finish-none t e = rw e

finish-some :
    (t : Thread) (e : Entry)
    → get_elem? t.node.log t.node.commit_index ≡ some e
    → finish t ≡ ok (e.entry, step call_stop t)
unfolding finish check_committed_entry
finish-some t e h = rw h

checked :
    (asked : Requests) (ids : List String) (t : Thread)
    → IsCalm (Legal asked ids) ids t
    → ((get_elem? t.node.log t.node.commit_index ≡ none) × (finish t ≡ err index_error))
      ⊎ ((value : Value) × (u : Thread) × (finish t ≡ ok (value, u)) × IsOutcome asked ids value u)
unfolding step stop
checked asked ids t c = elim (Option-cases (get_elem? t.node.log t.node.commit_index)) [
  | inl e ↦ inl (e, finish-none t e)
  | inr (entry, e) ↦ inr (
    entry.entry,
    step call_stop t,
    finish-some t entry e,
    record {
      entry = entry;
      printed = refl;
      at_commit = e;
      legal =
          All-get_elem? (Legal asked ids) t.node.log t.node.commit_index entry c.honest.entries e;
      alive = Stands-IsAlive ids _ _ (stopped-IsCalm (Legal asked ids) ids t c).stands;
      stopping = refl;
    },
  )
]

new-IsCalm :
    (asked : Requests) (index ip : String) (group : Table) (timeout : ℕ) (stamps : ℕ → ℕ)
    → str_eq index "leader" ≡ false
    → HasNoLeader (keys group)
    → IsCalm (Legal asked (group_ids index ip group)) (group_ids index ip group) (
        thread
          (init index (group_ids index ip group) (address (high_power ip)) timeout follower stamps))
unfolding init
new-IsCalm asked index ip group timeout stamps n h = record {
  honest = record {
    member = record { ids_eq = refl; nodes_eq = refl; known = own-Known index ip group n h };
    started = omega arith;
    entries = (inl refl, tt);
    queued = tt;
    sent = tt;
  };
  inbox = tt;
  stands = tt;
}

-- When neither an id of the table nor the node's own is "leader", the table has no double ids, and the
-- thread hears only what nodes of its group may send, the node is made, and: either the commit index is
-- beyond the log at the check, and `local_consensus` raises IndexError, or `local_consensus` prints the
-- value at the commit index, which is the initial value, the one of a new leader, or a value that a client
-- has asked for, and tells the thread, which has not crashed, to stop.
pub local_consensus-IsOutcome :
    (asked : Requests) (index ip : String) (group : Table) (timeout : ℕ) (stamps : ℕ → ℕ)
    (before after : List Event)
    → IsDistinct (keys group)
    → str_eq index "leader" ≡ false
    → HasNoLeader (keys group)
    → asked (wish index) (negsuc 0)
    → FromGroup asked (group_ids index ip group) before
    → FromGroup asked (group_ids index ip group) after
    → (s : RaftNode) × (raft_node index ip group timeout stamps ≡ ok s)
      × (((get_elem?
                (at_check index before after s).node.log
                (at_check index before after s).node.commit_index
              ≡ none)
            × (local_consensus index ip group timeout stamps before after ≡ err index_error))
          ⊎ ((value : Value) × (t : Thread) × (local_consensus index ip group timeout stamps before
                  after
                ≡ ok (value, t))
              × IsOutcome asked (group_ids index ip group) value t))
unfolding local_consensus
local_consensus-IsOutcome asked index ip group timeout stamps before after d n h own f g =
    let ids = group_ids index ip group in
    let s = init index ids (address (high_power ip)) timeout follower stamps in
    let calm = new-IsCalm asked index ip group timeout stamps n h in
    let made = raft_node-init index ip group timeout stamps d in
    (
      s,
      made,
      rw made (
          checked asked ids _ (
            run-IsCalm asked ids after _ g (
              asked-IsCalm (Legal asked ids) ids _ (wish index) (negsuc 0)
                (run-IsCalm asked ids before _ f calm) (inr (inr own))))),
    )
