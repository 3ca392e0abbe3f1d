-- ===== src/Raft/Thread.antt =====
-- src/raft/raft.py: `run`, as a machine that makes one round of a role's loop at a time, and the
-- calls of other threads between the rounds.
pub mod Stops
use cs525_project.Common.{
  ℕ, Bool, true, false, not, ◌&&◌, Option, List, [], ◌∷◌, ℤ, Error, Result, ok, err, if◌then◌else◌,
}
use cs525_project.Json.{Value, Fields}
use cs525_project.Protocol.{Message}
use cs525_project.Protocol.Wire.{parse_json_message}
use cs525_project.Interface.{Listener, get_message, listener_receive}
use cs525_project.Raft.State.{RaftNode, Role, follower, candidate, leader, paused, Action}
use cs525_project.Raft.Client.{client_request, pause, un_pause, stop}
use cs525_project.Raft.Follower.{Flow, again, done, follower_round}
use cs525_project.Raft.Candidate.{Election, candidate_start, candidate_round}
use cs525_project.Raft.Leader.{LeaderClock, leader_start, leader_round}

-- Where the thread stands: at the head of the loop of `run`, in the loop of a role with its
-- variables, at the end, or ended by an exception.
pub data Phase : Type 0 where
  deciding : Phase
  following : ℕ → Phase
  electing : Election → Phase
  leading : ℕ → Phase
  stopped : Phase
  crashed : Error → Phase

pub record Thread : Type 0 where
  pub node : RaftNode
  pub phase : Phase
  pub listener : Listener

-- The readings of the clock that one step takes.
pub record Readings : Type 0 where
  pub now : ℕ
  pub now_later : ℕ
  pub leader_clock : LeaderClock
  pub heard : ℕ → ℕ

abbrev pub is_follower : Role → Bool
is_follower follower = true
is_follower _ = false

abbrev pub is_candidate : Role → Bool
is_candidate candidate = true
is_candidate _ = false

abbrev pub is_leader : Role → Bool
is_leader leader = true
is_leader _ = false

-- `_get_message`: the next message, parsed
unfoldable pub next_message : Thread → Result (Option Message) × Thread
next_message t =
    let (msg, l) = get_message t.listener in (parse_json_message msg, record t { listener = l })

-- The thread after an action, by how it ended.
abbrev pub settle : {A : Type 0} → (A → Phase) → Result A × RaftNode → Thread → Thread
settle after (ok a, s) t = record t { node = s; phase = after a }
settle after (err e, s) t = record t { node = s; phase = crashed e }

abbrev pub resume : {A : Type 0} → (A → Phase) → Flow A → Phase
resume loop (again a) = loop a
resume loop done = deciding

-- The head of the loop of `run`.
unfoldable pub decide : Readings → Role → Thread → Thread
decide r leader t = settle leading (leader_start r.now r.heard t.node) t
decide r follower t = record t { phase = following r.now }
decide r candidate t =
    let (e, s) = candidate_start r.now t.node in record t { node = s; phase = electing e }
decide r paused t = t

-- The body of a role's loop, on a message that was read; one that cannot be parsed raises.
abbrev pub on_parsed :
    {A : Type 0}
    → (Option Message → A → Action (Flow A))
    → (A → Phase)
    → A
    → Result (Option Message)
    → Thread
    → Thread
on_parsed body loop a (ok m) t = settle (resume loop) (body m a t.node) t
on_parsed body loop a (err e) t = record t { phase = crashed e }

-- A round of the loop of a role, after its test, with the next message.
unfoldable pub loop_round :
    {A : Type 0} → (Option Message → A → Action (Flow A)) → (A → Phase) → A → Thread → Thread
loop_round body loop a t = let (r, t') = next_message t in on_parsed body loop a r t'

-- A role's loop: `while ((not self._terminate) and (self.check_role() == …))`.
abbrev pub run_loop : Bool → Thread → Thread → Thread
run_loop in_role t rest =
    if not t.node.terminate && in_role then rest else record t { phase = deciding }

-- One step of the thread.
unfoldable pub advance : Readings → Phase → Thread → Thread
advance r deciding t =
    if t.node.terminate then record t { phase = stopped } else decide r t.node.current_role t
advance r (following last) t =
    run_loop (is_follower t.node.current_role) t
      (loop_round (follower_round r.now r.now_later) following last t)
advance r (electing e) t =
    run_loop (is_candidate t.node.current_role) t
      (loop_round (candidate_round r.now_later) electing e t)
advance r (leading last) t =
    run_loop (is_leader t.node.current_role) t
      (loop_round (leader_round r.leader_clock) leading last t)
advance r stopped t = t
advance r (crashed e) t = t

-- What happens to a node: its thread makes a step, the listener stores a message, or another
-- thread calls a public method.
pub data Event : Type 0 where
  tick : Readings → Event
  arrive : Fields → Event
  call_request : Value → ℤ → Event
  call_pause call_un_pause call_stop : Event

-- A message without the key of its receiver ends the process of the listener; it is dropped here.
abbrev pub hear : Result Listener → Thread → Thread
hear (ok l) t = record t { listener = l }
hear (err _) t = t

unfoldable pub step : Event → Thread → Thread
step (tick r) t = advance r t.phase t
step (arrive msg) t = hear (listener_receive msg t.listener) t
step (call_request value id_num) t = record t { node = client_request value id_num t.node }
step call_pause t = record t { node = pause t.node }
step call_un_pause t = record t { node = un_pause t.node }
step call_stop t = record t { node = stop t.node }

unfoldable pub run : List Event → Thread → Thread
run [] t = t
run (e ∷ es) t = run es (step e t)
