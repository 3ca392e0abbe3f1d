-- ===== src/Raft/Roles/Steps.antt =====
-- The state machine of the roles: what a step of the thread, a message, or a call of another thread does to
-- the role of a node.
use cs525_project.Common.{
  ℕ, ◌≤◌, ◌<◌, ap, not, ◌&&◌, ◌≡◌, refl, inl, inr, ◌⊎◌, Bool, if◌then◌else◌, true, false, Option,
  arith, ok, err, Result,
}
use cs525_project.Protocol.{Message}
use cs525_project.Interface.{Listener, listener_receive}
use cs525_project.Raft.State.{RaftNode, Role, follower, candidate, leader, paused, Action}
use cs525_project.Raft.Send.{send_vote, send_request_vote, send_message}
use cs525_project.Raft.Log.{set_current_role, increment_term}
use cs525_project.Raft.Client.{client_request, pause, wake, un_pause, stop}
use cs525_project.Raft.Follower.{Flow, follower_round}
use cs525_project.Raft.Candidate.{Election, candidate_start, candidate_round}
use cs525_project.Raft.Leader.{leader_start, leader_round}
use cs525_project.Raft.Thread.{
  Phase, deciding, following, electing, leading, stopped, crashed, Thread, Readings, Event, tick,
  arrive, call_request, call_pause, call_un_pause, call_stop, hear, step, advance, decide, run_loop,
  loop_round, on_parsed, settle, resume, next_message, is_follower, is_candidate, is_leader,
}
use cs525_project.Raft.Elections.{settle-holds}
use cs525_project.Raft.Frame.{keeping}
use cs525_project.Raft.Rounds.Leader.{leader_start-Keeps}
use cs525_project.Raft.Roles.{StepsDown}
use cs525_project.Raft.Roles.Follower.{IsOver, follower_round-IsOver}
use cs525_project.Raft.Roles.Candidate.{HasWon, Elects, candidate_round-Elects}
use cs525_project.Raft.Roles.Leader.{leader_round-StepsDown}

-- What a step may do to the role of a node: the thread before, and the node after.
pub data Turns : Event → Thread → RaftNode → Type 0 where
  stays :
      {e : Event} {t : Thread} {s : RaftNode} → s.current_role ≡ t.node.current_role → Turns e t s
  times_out :
      {r : Readings} {t : Thread} {s : RaftNode} (last : ℕ)
      → t.phase ≡ following last
      → t.node.current_role ≡ follower
      → IsOver r.now r.now_later last s
      → Turns (tick r) t s
  wins :
      {r : Readings} {t : Thread} {s : RaftNode} (e : Election)
      → t.phase ≡ electing e
      → t.node.current_role ≡ candidate
      → HasWon e s
      → Turns (tick r) t s
  yields :
      {r : Readings} {t : Thread} {s : RaftNode}
      → t.node.current_role ≡ candidate
      → s.current_role ≡ follower
      → t.node.current_term ≤ s.current_term
      → Turns (tick r) t s
  steps_down :
      {r : Readings} {t : Thread} {s : RaftNode}
      → t.node.current_role ≡ leader
      → s.current_role ≡ follower
      → t.node.current_term < s.current_term
      → Turns (tick r) t s
  pauses : {t : Thread} {s : RaftNode} → s.current_role ≡ paused → Turns call_pause t s
  resumes :
      {t : Thread} {s : RaftNode}
      → t.node.current_role ≡ paused
      → s.current_role ≡ follower
      → Turns call_un_pause t s

-- Out of the loop of a role nothing changes.
pub run_loop-out : (t rest : Thread) → (run_loop false t rest).node ≡ t.node
run_loop-out t rest = ground arith

is_follower-eq : (r : Role) → is_follower r ≡ true → r ≡ follower
is_follower-eq follower h = refl
is_follower-eq candidate h = cc
is_follower-eq leader h = cc
is_follower-eq paused h = cc

is_candidate-eq : (r : Role) → is_candidate r ≡ true → r ≡ candidate
is_candidate-eq follower h = cc
is_candidate-eq candidate h = refl
is_candidate-eq leader h = cc
is_candidate-eq paused h = cc

is_leader-eq : (r : Role) → is_leader r ≡ true → r ≡ leader
is_leader-eq follower h = cc
is_leader-eq candidate h = cc
is_leader-eq leader h = refl
is_leader-eq paused h = cc

-- A round of a role's loop, with what holds of the node when the loop has ended and when its body has run.
module _ {A : Type 0} (P : RaftNode → Type 0) (body : Option Message → A → Action (Flow A))
    (loop : A → Phase) (a : A) where
  on_parsed-ends :
      (r : Result (Option Message)) (t : Thread)
      → P t.node
      → ((m : Option Message) → P (body m a t.node).1)
      → P (on_parsed body loop a r t).node
  on_parsed-ends (ok m) t same h = settle-ends (body m a t.node) t (h m)
    where
      settle-ends :
          (p : Result (Flow A) × RaftNode) (u : Thread) → P p.1 → P (settle (resume loop) p u).node
      settle-ends (ok f, s) u k = k
      settle-ends (err e, s) u k = k
  on_parsed-ends (err e) t same h = same

  guarded :
      (ended in_role : Bool) (t rest : Thread)
      → P t.node
      → (in_role ≡ true → P rest.node)
      → P (if not ended && in_role then rest else record t { phase = deciding }).node
  guarded true in_role t rest same h = same
  guarded false true t rest same h = h refl
  guarded false false t rest same h = same

  run_loop-ends :
      (in_role : Bool) (t : Thread)
      → P t.node
      → (in_role ≡ true → (m : Option Message) → P (body m a t.node).1)
      → P (run_loop in_role t (loop_round body loop a t)).node
  unfolding loop_round next_message
  run_loop-ends in_role t same h =
      guarded t.node.terminate in_role t _ same
        (λ own. on_parsed-ends (next_message t).0 (next_message t).1 same (h own))

module _ (r : Readings) where
  follower-Turns :
      (last : ℕ) (t : Thread) (s : RaftNode)
      → t.phase ≡ following last
      → t.node.current_role ≡ follower
      → (s.current_role ≡ t.node.current_role) ⊎ IsOver r.now r.now_later last s
      → Turns (tick r) t s
  follower-Turns last t s at own (inl same) = stays same
  follower-Turns last t s at own (inr over) = times_out last at own over

  candidate-Turns :
      (e : Election) (t : Thread) (s : RaftNode)
      → t.phase ≡ electing e
      → t.node.current_role ≡ candidate
      → Elects e t.node s
      → Turns (tick r) t s
  candidate-Turns e t s at own (inl same) = stays same
  candidate-Turns e t s at own (inr (inl won)) = wins e at own won
  candidate-Turns e t s at own (inr (inr (down, up))) = yields own down up

  leader-Turns :
      (t : Thread) (s : RaftNode)
      → t.node.current_role ≡ leader
      → StepsDown t.node s
      → Turns (tick r) t s
  leader-Turns t s own (inl (same, up)) = stays same
  leader-Turns t s own (inr (down, up)) = steps_down own down up

  decide-role :
      (role : Role) (t : Thread) → (decide r role t).node.current_role ≡ t.node.current_role
  unfolding decide candidate_start increment_term send_vote send_request_vote send_message
  decide-role leader t =
      (settle-holds keeping leading (leader_start r.now r.heard t.node) t t.node
        ((leader_start-Keeps r.now r.heard).at t.node)).same_role
  decide-role follower t = refl
  decide-role candidate t = refl
  decide-role paused t = refl

  decided-role :
      (b : Bool) (t : Thread)
      → let u : Thread =
          if b then record t { phase = stopped } else decide r t.node.current_role t in
        u.node.current_role ≡ t.node.current_role
  decided-role true t = refl
  decided-role false t = decide-role t.node.current_role t

  advance-Turns :
      (phase : Phase) (t : Thread) → t.phase ≡ phase → Turns (tick r) t (advance r phase t).node
  unfolding advance
  advance-Turns deciding t at = stays (decided-role t.node.terminate t)
  advance-Turns (following last) t at =
      run_loop-ends (Turns (tick r) t) (follower_round r.now r.now_later) following last
        (is_follower t.node.current_role) t (stays refl)
        (λ own m.
          follower-Turns last t _ at (is_follower-eq t.node.current_role own)
            (follower_round-IsOver r.now r.now_later m last t.node))
  advance-Turns (electing e) t at =
      run_loop-ends (Turns (tick r) t) (candidate_round r.now_later) electing e
        (is_candidate t.node.current_role) t (stays refl)
        (λ own m.
          let role = is_candidate-eq t.node.current_role own in
          candidate-Turns e t _ at role (candidate_round-Elects r.now_later m e t.node role))
  advance-Turns (leading last) t at =
      run_loop-ends (Turns (tick r) t) (leader_round r.leader_clock) leading last
        (is_leader t.node.current_role) t (stays refl)
        (λ own m.
          leader-Turns t _ (is_leader-eq t.node.current_role own)
            ((leader_round-StepsDown r.leader_clock m last).at t.node))
  advance-Turns stopped t at = stays refl
  advance-Turns (crashed e) t at = stays refl

pub hear-role : (l : Result Listener) (t : Thread) → (hear l t).node ≡ t.node
hear-role (ok l) t = refl
hear-role (err e) t = refl

-- Whatever a thread does in a step, which is a whole round of a loop or a call between two rounds, the role
-- of its node stays, or changes in one of these ways: a follower becomes a candidate when the time since
-- the last heartbeat, or since the message of this round, exceeds its election timeout; a candidate becomes
-- a leader when it has a majority with the vote that it has read, or is the only node; a candidate becomes
-- a follower of a term that is not lower, and a leader one of a higher term; `pause` pauses, and `un_pause`
-- makes a follower of a paused node.
pub step-Turns : (e : Event) (t : Thread) → Turns e t (step e t).node
unfolding step client_request pause stop un_pause set_current_role
step-Turns (tick r) t = advance-Turns r t.phase t refl
step-Turns (arrive d) t =
    stays (ap (λ (s : RaftNode). s.current_role) (hear-role (listener_receive d t.listener) t))
step-Turns (call_request value id) t = stays refl
step-Turns call_pause t = pauses refl
step-Turns call_un_pause t = elim (woken t.node t.node.current_role) [
  | inl same ↦ stays same
  | inr (was, now) ↦ resumes was now
]
  where
    woken :
        (s : RaftNode) (role : Role)
        → ((wake role s).current_role ≡ s.current_role)
          ⊎ ((role ≡ paused) × ((wake role s).current_role ≡ follower))
    woken s paused = inr (refl, refl)
    woken s follower = inl refl
    woken s candidate = inl refl
    woken s leader = inl refl
step-Turns call_stop t = stays refl
