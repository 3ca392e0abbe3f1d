-- ===== src/Raft/Elections.antt =====
-- Terms and votes over a whole run of a node: its own steps, the arrival of messages and the calls of
-- other threads, in any order.
use cs525_project.Common.{
  ℕ, ◌≤◌, String, ◌≡◌, refl, Bool, true, false, not, ◌&&◌, Option, some, List, [], ◌∷◌, get_elem?,
  arith, Bool-cases, inl, inr, Result, ok, err, if◌then◌else◌, ℤ,
}
use cs525_project.Json.{Value}
use cs525_project.Protocol.{Message}
use cs525_project.Interface.{Listener, listener_receive}
use cs525_project.Raft.State.{
  RaftNode, Role, follower, candidate, leader, paused, init, init_entry, Action,
}
use cs525_project.Raft.Client.{client_request, pause, un_pause, wake, stop}
use cs525_project.Raft.Follower.{Flow}
use cs525_project.Raft.Thread.{
  Phase, deciding, following, electing, leading, stopped, crashed, Thread, Readings, Event, tick,
  arrive, call_request, call_pause, call_un_pause, call_stop, settle, resume, next_message, decide,
  on_parsed, loop_round, run_loop, advance, hear, step, run,
}
use cs525_project.Raft.Relates.{Relation}
use cs525_project.Raft.Granted.{granted}
use cs525_project.Raft.Voting.{IsIncreasing}
use cs525_project.Raft.Grows.{
  Grows, Grows-refl, Grows-trans, growing, Keeps-Grows, IsVoting, set_current_role-Grows,
}
use cs525_project.Raft.Rounds.Follower.{follower_round-Grows}
use cs525_project.Raft.Rounds.Candidate.{
  hears_own, candidate_start-Grows, candidate_round-Grows, Later, Later-refl, Later-trans, later,
  Grows-Later, candidate_round-Later,
}
use cs525_project.Raft.Rounds.Leader.{leader_start-Grows, leader_round-Grows}

-- A new node, before its thread has made a step.
abbrev pub start : String → List String → String → ℕ → (ℕ → ℕ) → Thread
start name all_ids my_id timeout stamps = record {
  node = init name all_ids my_id timeout follower stamps;
  phase = deciding;
  listener = record { address_list = all_ids; my_id = my_id; messages = [] };
}

-- The next step of the thread is that of a candidate that hears a heartbeat of its own term.
abbrev pub own_heard : Result (Option Message) → RaftNode → Bool
own_heard (ok m) s = hears_own m s
own_heard (err _) s = false

abbrev own_next_at : Phase → Thread → Bool
own_next_at (electing e) t = own_heard (next_message t).0 t.node
own_next_at _ t = false

unfoldable pub own_next : Event → Thread → Bool
own_next (tick r) t = own_next_at t.phase t
own_next _ t = false

-- No candidate hears a heartbeat of its own term in a run.
abbrev pub NeverOwn : List Event → Thread → Type 0
NeverOwn [] t = Unit
NeverOwn (e ∷ es) t = (own_next e t ≡ false) × NeverOwn es (step e t)

-- A relation holds between the nodes of two threads, if it holds of the action that is settled.
pub settle-holds :
    {A : Type 0} (R : Relation) (after : A → Phase) (r : Result A × RaftNode) (t : Thread)
    (s : RaftNode)
    → R.holds s r.1
    → R.holds s (settle after r t).node
settle-holds R after (ok a, s') t s h = h
settle-holds R after (err e, s') t s h = h

decide-Grows : (r : Readings) (role : Role) (t : Thread) → Grows t.node (decide r role t).node
unfolding decide
decide-Grows r leader t =
    settle-holds growing leading _ t t.node ((leader_start-Grows r.now r.heard).at t.node)
decide-Grows r follower t = Grows-refl t.node
decide-Grows r candidate t = candidate_start-Grows r.now t.node
decide-Grows r paused t = Grows-refl t.node

pub if-holds :
    (R : Relation) (b : Bool) (s : RaftNode) (t u : Thread)
    → R.holds s t.node
    → R.holds s u.node
    → R.holds s (if b then t else u).node
if-holds R true s t u h k = h
if-holds R false s t u h k = k

next_message-node : (t : Thread) → (next_message t).1.node ≡ t.node
unfolding next_message
next_message-node t = refl

module _ {A : Type 0} (R : Relation) (body : Option Message → A → Action (Flow A))
    (loop : A → Phase) (a : A) where
  on_parsed-holds :
      (r : Result (Option Message)) (t : Thread)
      → ((m : Option Message) → r ≡ ok m → R.holds t.node (body m a t.node).1)
      → R.holds t.node (on_parsed body loop a r t).node
  on_parsed-holds (ok m) t h = settle-holds R (resume loop) (body m a t.node) t t.node (h m refl)
  on_parsed-holds (err e) t h = R.same t.node

  -- The round reads a message and runs the body on it.
  loop_round-holds :
      (t : Thread)
      → ((m : Option Message) → (next_message t).0 ≡ ok m → R.holds t.node (body m a t.node).1)
      → R.holds t.node (loop_round body loop a t).node
  unfolding loop_round next_message
  loop_round-holds t h = on_parsed-holds (next_message t).0 (next_message t).1 h

  pub run_loop-holds :
      (in_role : Bool) (t : Thread)
      → ((m : Option Message) → (next_message t).0 ≡ ok m → R.holds t.node (body m a t.node).1)
      → R.holds t.node (run_loop in_role t (loop_round body loop a t)).node
  run_loop-holds in_role t h = elim (Bool-cases (not t.node.terminate && in_role)) [
    | inl e ↦ rw e (loop_round-holds t h)
    | inr e ↦ rw e (R.same t.node)
  ]

advance-Grows :
    (r : Readings) (phase : Phase) (t : Thread)
    → own_next_at phase t ≡ false
    → Grows t.node (advance r phase t).node
unfolding advance
advance-Grows r deciding t h =
    if-holds growing t.node.terminate t.node _ _ (Grows-refl t.node)
      (decide-Grows r t.node.current_role t)
advance-Grows r (following last) t h =
    run_loop-holds growing _ following last _ t
      (λ m e. (follower_round-Grows r.now r.now_later m last).at t.node)
advance-Grows r (electing e) t h =
    run_loop-holds growing _ electing e _ t
      (λ m read. candidate_round-Grows r.now_later m e t.node (rw read at h))
advance-Grows r (leading last) t h =
    run_loop-holds growing _ leading last _ t
      (λ m e. (leader_round-Grows r.leader_clock m last).at t.node)
advance-Grows r stopped t h = Grows-refl t.node
advance-Grows r (crashed e) t h = Grows-refl t.node

hear-Grows : (l : Result Listener) (t : Thread) → Grows t.node (hear l t).node
hear-Grows (ok l) t = Grows-refl t.node
hear-Grows (err e) t = Grows-refl t.node

client_request-Grows : (value : Value) (id : ℤ) (s : RaftNode) → Grows s (client_request value id s)
unfolding client_request
client_request-Grows value id s = Keeps-Grows s _ (ground arith)

wake-Grows : (role : Role) (s : RaftNode) → Grows s (wake role s)
wake-Grows paused s = set_current_role-Grows follower s
wake-Grows _ s = Grows-refl s

un_pause-Grows : (s : RaftNode) → Grows s (un_pause s)
unfolding un_pause
un_pause-Grows s = wake-Grows s.current_role s

stop-Grows : (s : RaftNode) → Grows s (stop s)
unfolding stop
stop-Grows s = Keeps-Grows s _ (ground arith)

step-Grows : (e : Event) (t : Thread) → own_next e t ≡ false → Grows t.node (step e t).node
unfolding step own_next pause
step-Grows (tick r) t h = advance-Grows r t.phase t h
step-Grows (arrive msg) t h = hear-Grows (listener_receive msg t.listener) t
step-Grows (call_request value id) t h = client_request-Grows value id t.node
step-Grows call_pause t h = set_current_role-Grows paused t.node
step-Grows call_un_pause t h = un_pause-Grows t.node
step-Grows call_stop t h = stop-Grows t.node

run-Grows : (es : List Event) (t : Thread) → NeverOwn es t → Grows t.node (run es t).node
unfolding run
run-Grows [] t h = Grows-refl t.node
run-Grows (e ∷ es) t h = Grows-trans t.node _ _ (step-Grows e t h.0) (run-Grows es (step e t) h.1)

init-IsVoting :
    (name : String) (ids : List String) (id : String) (timeout : ℕ) (stamps : ℕ → ℕ)
    → IsVoting (init name ids id timeout follower stamps)
unfolding init IsVoting granted
init-IsVoting name ids id timeout stamps = record { increasing = tt; bounded = tt; fresh = λ e. tt }

-- A node grants at most one vote in each term, whatever messages arrive and whatever calls are made,
-- as long as it hears no heartbeat of its own term while it is a candidate: the terms of its granting
-- votes, in the order in which they were sent, rise strictly.
pub granted-run-IsIncreasing :
    (name : String) (ids : List String) (id : String) (timeout : ℕ) (stamps : ℕ → ℕ)
    (es : List Event)
    → NeverOwn es (start name ids id timeout stamps)
    → IsIncreasing (granted (run es (start name ids id timeout stamps)).node.outbox)
unfolding IsVoting
granted-run-IsIncreasing name ids id timeout stamps es h =
    let kept = (run-Grows es (start name ids id timeout stamps) h).votes_kept in
    (kept (init-IsVoting name ids id timeout stamps)).increasing

-- What holds of every step.
advance-Later : (r : Readings) (phase : Phase) (t : Thread) → Later t.node (advance r phase t).node
unfolding advance
advance-Later r (electing e) t =
    run_loop-holds later _ electing e _ t (λ m read. candidate_round-Later r.now_later m e t.node)
advance-Later r deciding t = Grows-Later (advance-Grows r deciding t refl)
advance-Later r (following last) t = Grows-Later (advance-Grows r (following last) t refl)
advance-Later r (leading last) t = Grows-Later (advance-Grows r (leading last) t refl)
advance-Later r stopped t = Later-refl t.node
advance-Later r (crashed e) t = Later-refl t.node

step-Later : (e : Event) (t : Thread) → Later t.node (step e t).node
unfolding step own_next
step-Later (tick r) t = advance-Later r t.phase t
step-Later (arrive msg) t = Grows-Later (step-Grows (arrive msg) t refl)
step-Later (call_request value id) t = Grows-Later (step-Grows (call_request value id) t refl)
step-Later call_pause t = Grows-Later (step-Grows call_pause t refl)
step-Later call_un_pause t = Grows-Later (step-Grows call_un_pause t refl)
step-Later call_stop t = Grows-Later (step-Grows call_stop t refl)

run-Later : (es : List Event) (t : Thread) → Later t.node (run es t).node
unfolding run
run-Later [] t = Later-refl t.node
run-Later (e ∷ es) t = Later-trans t.node _ _ (step-Later e t) (run-Later es (step e t))

-- In any run of a node, whatever it hears and whatever is called, its term never falls.
pub run-term : (es : List Event) (t : Thread) → t.node.current_term ≤ (run es t).node.current_term
run-term es t = (run-Later es t).term_le

-- In any run of a new node the log keeps the initial entry at its front; so it is never empty.
pub run-first :
    (name : String) (ids : List String) (id : String) (timeout : ℕ) (stamps : ℕ → ℕ)
    (es : List Event)
    → get_elem? (run es (start name ids id timeout stamps)).node.log 0 ≡ some init_entry
unfolding init
run-first name ids id timeout stamps es =
    (run-Later es (start name ids id timeout stamps)).same_first
