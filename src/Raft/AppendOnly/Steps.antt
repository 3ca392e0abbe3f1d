-- ===== src/Raft/AppendOnly/Steps.antt =====
-- What the steps of a thread do to the log and the commit index of a node that is not a follower.
use mathlib.Core.Path.{subst}
use cs525_project.Common.{◌≡◌, refl, sym, ◌≢◌, false}
use cs525_project.Interface.{listener_receive}
use cs525_project.Raft.State.{RaftNode, Role, follower, candidate, leader, paused}
use cs525_project.Raft.Log.{set_current_role}
use cs525_project.Raft.Client.{client_request, pause, wake, un_pause, stop}
use cs525_project.Raft.Follower.{follower_round}
use cs525_project.Raft.Leader.{leader_start}
use cs525_project.Raft.Thread.{
  Phase, deciding, following, electing, leading, stopped, crashed, Thread, Readings, Event, tick,
  arrive, call_request, call_pause, call_un_pause, call_stop, step, advance, decide, loop_round,
  is_follower,
}
use cs525_project.Raft.Elections.{settle-holds, run_loop-holds, if-holds}
use cs525_project.Raft.Roles.Steps.{run_loop-out, hear-role}
use cs525_project.Raft.AppendOnly.{Adds, same-Adds, Adds-refl, adding, leader_start-Adds}
use cs525_project.Raft.AppendOnly.Rounds.{
  leader_round-Adds, candidate_start-Adds, candidate_round-Adds,
}

not_follower : (r : Role) → r ≢ follower → is_follower r ≡ false
not_follower follower n = absurd (n refl)
not_follower candidate n = refl
not_follower leader n = refl
not_follower paused n = refl

decide-Adds : (r : Readings) (role : Role) (t : Thread) → Adds t.node (decide r role t).node
unfolding decide
decide-Adds r leader t =
    settle-holds adding leading (leader_start r.now r.heard t.node) t t.node
      ((leader_start-Adds r.now r.heard).at t.node)
decide-Adds r follower t = Adds-refl t.node
decide-Adds r candidate t = candidate_start-Adds r.now t.node
decide-Adds r paused t = Adds-refl t.node

advance-Adds :
    (r : Readings) (phase : Phase) (t : Thread)
    → t.node.current_role ≢ follower
    → Adds t.node (advance r phase t).node
unfolding advance
advance-Adds r deciding t n =
    if-holds adding t.node.terminate t.node _ _ (Adds-refl t.node)
      (decide-Adds r t.node.current_role t)
advance-Adds r (following last) t n =
    let out = loop_round (follower_round r.now r.now_later) following last t in
    rw (not_follower t.node.current_role n)
      (subst (λ x. Adds t.node x) (sym (run_loop-out t out)) (Adds-refl t.node))
advance-Adds r (electing e) t n =
    run_loop-holds adding _ electing e _ t
      (λ m read. (candidate_round-Adds r.now_later m e).at t.node)
advance-Adds r (leading last) t n =
    run_loop-holds adding _ leading last _ t
      (λ m read. (leader_round-Adds r.leader_clock m last).at t.node)
advance-Adds r stopped t n = Adds-refl t.node
advance-Adds r (crashed e) t n = Adds-refl t.node

wake-Adds : (role : Role) (s : RaftNode) → Adds s (wake role s)
unfolding set_current_role
wake-Adds paused s = same-Adds s _ refl refl
wake-Adds follower s = Adds-refl s
wake-Adds candidate s = Adds-refl s
wake-Adds leader s = Adds-refl s

-- Whatever happens to a node that is not a follower, its log stays or gets entries at its end, and its
-- commit index does not fall: a leader never overwrites or takes away an entry.
pub step-Adds :
    (e : Event) (t : Thread) → t.node.current_role ≢ follower → Adds t.node (step e t).node
unfolding step client_request pause stop un_pause set_current_role
step-Adds (tick r) t n = advance-Adds r t.phase t n
step-Adds (arrive d) t n =
    subst (λ x. Adds t.node x) (sym (hear-role (listener_receive d t.listener) t))
      (Adds-refl t.node)
step-Adds (call_request value id) t n = same-Adds t.node _ refl refl
step-Adds call_pause t n = same-Adds t.node _ refl refl
step-Adds call_un_pause t n = wake-Adds t.node.current_role t.node
step-Adds call_stop t n = same-Adds t.node _ refl refl
