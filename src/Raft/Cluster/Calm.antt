-- ===== src/Raft/Cluster/Calm.antt =====
-- The invariant of one thread in a group of nodes that talk to each other only.
use mathlib.Core.Path.{subst}
use cs525_project.Common.{
  ℕ, suc, ◌-◌, ◌≡◌, refl, sym, Bool, true, false, not, ◌&&◌, Option, none, some, List, [], ◌∷◌, All,
  arith, Bool-cases, inl, inr, if◌then◌else◌, String, length, ok, err, Result,
}
use cs525_project.Json.{Fields}
use cs525_project.Protocol.{Entry, Message, request_votes_message, append_entries_message}
use cs525_project.Protocol.Wire.{jsonify, parse_json_message}
use cs525_project.Protocol.RoundTrip.{IsWellTyped, parse_json_message-jsonify}
use cs525_project.Interface.{Listener, get_message}
use cs525_project.Raft.State.{RaftNode, Role, follower, candidate, leader, paused, Action}
use cs525_project.Raft.Follower.{Flow, again, done, follower_round}
use cs525_project.Raft.Candidate.{candidate_round}
use cs525_project.Raft.Leader.{leader_entry, leader_start, leader_round}
use cs525_project.Raft.Thread.{
  Phase, deciding, following, electing, leading, stopped, crashed, Thread, Readings, next_message,
  settle, resume, decide, loop_round, run_loop, advance, is_follower, is_candidate, is_leader,
}
use cs525_project.Raft.Returns.{Returns, Ensures, Returns-both, Returns-weaken}
use cs525_project.Raft.Leadership.{Group, IsLeading}
use cs525_project.Raft.Leadership.Rounds.{
  IsAnswerable, IsReady, leader_start-Leads, leader_round-Leads,
}
use cs525_project.Raft.Sane.{IsHonest, IsSane, IsSaneOption}
use cs525_project.Raft.Sane.Leading.{leader_start-IsHonest, leader_round-IsHonest}
use cs525_project.Raft.Sane.Follower.{follower_round-IsHonest}
use cs525_project.Raft.Sane.Candidate.{candidate_start-IsHonest, candidate_round-IsHonest}
use cs525_project.Raft.Sane.Returning.{follower_round-Returns}

-- The dict of a sane message.
abbrev pub IsWritten : (Entry → Type 0) → List String → Fields → Type 0
IsWritten P ids d = (m : Message) × (d ≡ jsonify m) × IsSane P ids m

-- A thread that leads has the invariant of a leader; none has crashed.
abbrev pub Stands : List String → Phase → RaftNode → Type 0
Stands ids (leading _) s = (g : Group) × (g.ids ≡ ids) × (top : ℕ) × IsLeading g top top s
Stands ids (crashed _) s = ⊥
Stands ids _ s = Unit

pub record IsCalm (P : Entry → Type 0) (ids : List String) (t : Thread) : Type 0 where
  pub honest : IsHonest P ids t.node
  pub inbox : All (λ d. IsWritten P ids d) t.listener.messages
  pub stands : Stands ids t.phase t.node

sane-IsWellTyped :
    (P : Entry → Type 0) (ids : List String) (m : Message) → IsSane P ids m → IsWellTyped m
sane-IsWellTyped P ids (request_votes_message m) k = k
sane-IsWellTyped P ids (append_entries_message m) k = (k.typed, k.answer.0, k.answer.1)

sane-IsAnswerable :
    (P : Entry → Type 0) (g : Group) (incoming : Option Message)
    → IsSaneOption P g.ids incoming
    → IsAnswerable g incoming
sane-IsAnswerable P g none k = tt
sane-IsAnswerable P g (some (request_votes_message m)) k = tt
sane-IsAnswerable P g (some (append_entries_message m)) k =
    ((λ _. (k.known.0, k.answer.0, k.known.1, k.answer.1)), k.requested)

parse-none : parse_json_message none ≡ ok none
unfolding parse_json_message
parse-none = refl

module _ (P : Entry → Type 0) (ids : List String) where
  settle-IsCalm :
      {A : Type 0} (after : A → Phase) (p : Result A × RaftNode) (t : Thread)
      → All (λ d. IsWritten P ids d) t.listener.messages
      → Ensures (λ a s. IsHonest P ids s × Stands ids (after a) s) p.0 p.1
      → IsCalm P ids (settle after p t)
  settle-IsCalm after (ok a, s) t i h = record { honest = h.0; inbox = i; stands = h.1 }
  settle-IsCalm after (err e, s) t i h = absurd h

  -- The oldest message of the listener is read and parsed.
  next_message-sane :
      (t : Thread)
      → All (λ d. IsWritten P ids d) t.listener.messages
      → (m : Option Message) × (l : Listener) × (next_message t ≡ (ok m, record t { listener = l }))
        × IsSaneOption P ids m
        × All (λ d. IsWritten P ids d) l.messages
  unfolding next_message get_message
  next_message-sane t i = by_queue t.listener.messages i
    where
      by_queue :
          (queue : List Fields)
          → All (λ d. IsWritten P ids d) queue
          → (m : Option Message) × (l : Listener) × (next_message
                (record t { listener = record t.listener { messages = queue } })
              ≡ (ok m, record t { listener = l }))
            × IsSaneOption P ids m
            × All (λ d. IsWritten P ids d) l.messages
      by_queue [] a = (none, record t.listener { messages = [] }, rw parse-none, tt, tt)
      by_queue (d ∷ rest) a =
          let (m, written, k) = a.0 in
          (
            some m,
            record t.listener { messages = rest },
            rw (written, parse_json_message-jsonify m (sane-IsWellTyped P ids m k)),
            k,
            a.1,
          )

  -- A round of a role's loop, whose body keeps the node honest and does not raise.
  round-IsCalm :
      {A : Type 0} (body : Option Message → A → Action (Flow A)) (loop : A → Phase) (a : A)
      (in_role : Bool) (t : Thread)
      → IsCalm P ids t
      → ((m : Option Message)
          → IsSaneOption P ids m
          → Returns
              (λ flow s. IsHonest P ids s × Stands ids (resume loop flow) s)
              (body m a)
              t.node)
      → IsCalm P ids (run_loop in_role t (loop_round body loop a t))
  unfolding loop_round
  round-IsCalm body loop a in_role t c h = elim (Bool-cases (not t.node.terminate && in_role)) [
    | inr n ↦ rw n (record { honest = c.honest; inbox = c.inbox; stands = tt })
    | inl y ↦
        (let (m, l, read, k, i) = next_message-sane t c.inbox in
          rw (y, read)
            (settle-IsCalm (resume loop) (body m a t.node) (record t { listener = l }) i
              (h m k).holds))
  ]

  -- Where a thread that does not lead may stand.
  resumed :
      {A : Type 0} (loop : A → Phase) (flow : Flow A) (s : RaftNode)
      → ((a : A) → Stands ids (loop a) s)
      → Stands ids (resume loop flow) s
  resumed loop (again a) s h = h a
  resumed loop done s h = tt

  followed :
      (r : Readings) (last : ℕ) (t : Thread)
      → IsCalm P ids t
      → IsCalm P ids (advance r (following last) t)
  unfolding advance
  followed r last t c =
      round-IsCalm (follower_round r.now r.now_later) following last
        (is_follower t.node.current_role) t c
        λ m k.
          Returns-weaken
            (Returns-both {Q = IsHonest P ids}
              (follower_round-Returns P ids r.now r.now_later m last t.node k)
              ((follower_round-IsHonest r.now r.now_later m last k).at t.node c.honest))
            λ flow s h. (h.1, resumed following flow s (λ _. tt))

  elected :
      (r : Readings) (e : _) (t : Thread) → IsCalm P ids t → IsCalm P ids (advance r (electing e) t)
  unfolding advance
  elected r e t c =
      round-IsCalm (candidate_round r.now_later) electing e (is_candidate t.node.current_role) t c
        λ m k.
          Returns-weaken (candidate_round-IsHonest r.now_later m e t.node k c.honest)
            λ flow s h. (h, resumed electing flow s (λ _. tt))

  led :
      (r : Readings) (last : ℕ) (t : Thread)
      → IsCalm P ids t
      → Stands ids (leading last) t.node
      → IsCalm P ids (advance r (leading last) t)
  unfolding advance
  led r last t c (g, of, top, h) =
      round-IsCalm (leader_round r.leader_clock) leading last (is_leader t.node.current_role) t c
        λ m k.
          Returns-weaken
            (Returns-both {Q = IsHonest P ids}
              (leader_round-Leads g top t.node h r.leader_clock m last
                (sane-IsAnswerable P g m (subst (λ l. IsSaneOption P l m) (sym of) k)))
              ((leader_round-IsHonest r.leader_clock m last k).at t.node c.honest))
            λ flow s x. (x.1, resumed leading flow s (λ _. (g, of, x.0.0, x.0.2)))

  -- A leader starts.
  leads :
      (r : Readings) (t : Thread)
      → ((term : ℕ) → P (leader_entry term))
      → IsCalm P ids t
      → IsCalm P ids (settle leading (leader_start r.now r.heard t.node) t)
  leads r t p c =
      let mine = c.honest.member in
      let g : Group = record {
        ids = ids;
        my = t.node.my_id;
        me = mine.known.0;
        found = mine.known.1;
      } in
      let top = length t.node.log - 1 in
      let ready : IsReady g top t.node = record {
        ids_eq = mine.ids_eq;
        id_eq = refl;
        nodes_eq = mine.nodes_eq;
        log_length = omega (arith, c.honest.started);
      } in
      settle-IsCalm leading (leader_start r.now r.heard t.node) t c.inbox
        (Returns-weaken
          (Returns-both {Q = IsHonest P ids} (leader_start-Leads g top t.node ready r.now r.heard)
            ((leader_start-IsHonest r.now r.heard p).at t.node c.honest))
          (λ last s x. (x.1, (g, refl, suc top, x.0)))).holds

  decide-IsCalm :
      (r : Readings) (role : Role) (t : Thread)
      → ((term : ℕ) → P (leader_entry term))
      → IsCalm P ids t
      → Stands ids t.phase t.node
      → IsCalm P ids (decide r role t)
  unfolding decide
  decide-IsCalm r leader t p c h = leads r t p c
  decide-IsCalm r follower t p c h = record { honest = c.honest; inbox = c.inbox; stands = tt }
  decide-IsCalm r candidate t p c h = record {
    honest = candidate_start-IsHonest r.now t.node c.honest;
    inbox = c.inbox;
    stands = tt;
  }
  decide-IsCalm r paused t p c h = c

  if-IsCalm :
      (b : Bool) (t u : Thread)
      → IsCalm P ids t
      → IsCalm P ids u
      → IsCalm P ids (if b then t else u)
  if-IsCalm true t u c d = c
  if-IsCalm false t u c d = d

  -- A step of the thread.
  pub advance-IsCalm :
      (r : Readings) (phase : Phase) (t : Thread)
      → ((term : ℕ) → P (leader_entry term))
      → t.phase ≡ phase
      → IsCalm P ids t
      → IsCalm P ids (advance r phase t)
  unfolding advance
  advance-IsCalm r deciding t p e c =
      if-IsCalm t.node.terminate _ _ (record { honest = c.honest; inbox = c.inbox; stands = tt })
        (decide-IsCalm r t.node.current_role t p c c.stands)
  advance-IsCalm r (following last) t p e c = followed r last t c
  advance-IsCalm r (electing x) t p e c = elected r x t c
  advance-IsCalm r (leading last) t p e c =
      led r last t c (subst (λ q. Stands ids q t.node) e c.stands)
  advance-IsCalm r stopped t p e c = c
  advance-IsCalm r (crashed x) t p e c = c
