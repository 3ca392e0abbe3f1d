-- ===== src/Raft/Cluster/Safe.antt =====
-- What holds of every thread that a group of nodes may come to.
use cs525_project.Common.{
  ℕ, suc, ◌≡◌, refl, ◌⊎◌, inl, inr, Bool, true, some, List, [], ◌∷◌, ◌++◌, ◌>>=◌, All, All-append,
  All-set, All-get_elem?, arith, Bool-cases, if◌then◌else◌, String, ok, err, Result, ℤ, str_eq,
  eq_iff, get_elem?, set,
}
use cs525_project.Json.{Fields, Value, get}
use cs525_project.Protocol.{Entry, Message}
use cs525_project.Protocol.Wire.{jsonify}
use cs525_project.Interface.{listener_receive, is_for}
use cs525_project.Raft.State.{RaftNode, Role, follower, candidate, leader, paused, init, init_entry}
use cs525_project.Raft.Log.{index_of, set_current_role}
use cs525_project.Raft.Client.{client_request, pause, wake, un_pause, stop}
use cs525_project.Raft.Leader.{leader_entry}
use cs525_project.Raft.Thread.{
  Phase, deciding, following, electing, leading, stopped, crashed, Thread, Readings, hear, step,
  tick, arrive, call_request, call_pause, call_un_pause, call_stop,
}
use cs525_project.Raft.Sane.{Known, IsSane}
use cs525_project.Raft.Cluster.{
  Requests, Move, ticks, hears, asks, pauses, resumes, stops, new_nodes, Reach, new, later,
}
use cs525_project.Raft.Cluster.Calm.{IsWritten, Stands, IsCalm, advance-IsCalm}

-- The leader's invariant does not speak of the attributes that a call changes.
module _ (P : Entry → Type 0) (ids : List String) where
  -- A call that changes the queue, the role and the mark to terminate only.
  called :
      (t : Thread) (role : Role) (queue : List Entry) (mark : Bool)
      → IsCalm P ids t
      → All P queue
      → IsCalm P ids (record t {
        node = record t.node { current_role = role; client_queue = queue; terminate = mark };
      })
  called t role queue mark c q = record {
    honest = record {
      member = c.honest.member;
      started = c.honest.started;
      entries = c.honest.entries;
      queued = q;
      sent = c.honest.sent;
    };
    inbox = c.inbox;
    stands = standing t.phase t.node c.stands;
  }
    where
      standing :
          (phase : Phase) (s : RaftNode)
          → Stands ids phase s
          → Stands ids phase
              (record s { current_role = role; client_queue = queue; terminate = mark })
      standing deciding s h = tt
      standing (following _) s h = tt
      standing (electing _) s h = tt
      standing (leading _) s (g, of, top, h) = (
        g,
        of,
        top,
        record {
          ids_eq = h.ids_eq;
          id_eq = h.id_eq;
          nodes_eq = h.nodes_eq;
          log_length = h.log_length;
          next_length = h.next_length;
          match_length = h.match_length;
          heard_length = h.heard_length;
          nexts = h.nexts;
          own = h.own;
        },
      )
      standing stopped s h = tt
      standing (crashed _) s h = h

  pub asked-IsCalm :
      (t : Thread) (value : Value) (id : ℤ)
      → IsCalm P ids t
      → P (record { term = t.node.current_term; entry = value; id = id })
      → IsCalm P ids (step (call_request value id) t)
  unfolding step client_request
  asked-IsCalm t value id c p = called t t.node.current_role _ t.node.terminate c (
      All-append P t.node.client_queue
        (record { term = t.node.current_term; entry = value; id = id } ∷ []) c.honest.queued
        (p, tt))

  pub paused-IsCalm : (t : Thread) → IsCalm P ids t → IsCalm P ids (step call_pause t)
  unfolding step pause set_current_role
  paused-IsCalm t c = called t paused t.node.client_queue t.node.terminate c c.honest.queued

  pub resumed-IsCalm : (t : Thread) → IsCalm P ids t → IsCalm P ids (step call_un_pause t)
  unfolding step un_pause set_current_role
  resumed-IsCalm t c = by_role t.node.current_role
    where
      by_role : (role : Role) → IsCalm P ids (record t { node = wake role t.node })
      by_role paused = called t follower t.node.client_queue t.node.terminate c c.honest.queued
      by_role leader = c
      by_role follower = c
      by_role candidate = c

  pub stopped-IsCalm : (t : Thread) → IsCalm P ids t → IsCalm P ids (step call_stop t)
  unfolding step stop
  stopped-IsCalm t c = called t t.node.current_role t.node.client_queue true c c.honest.queued

  -- The listener stores the message, if it is for this node.
  received :
      (d : Fields) (t : Thread) (r : Result Value)
      → IsCalm P ids t
      → IsWritten P ids d
      → IsCalm P ids (
          hear
            (r >>= λ receiver. ok (
              if is_for t.listener.my_id receiver
              then record t.listener { messages = t.listener.messages ++ d ∷ [] }
              else t.listener))
            t)
  received d t (err e) c w = c
  received d t (ok receiver) c w = elim (Bool-cases (is_for t.listener.my_id receiver)) [
    | inl y ↦ rw y (record {
      honest = c.honest;
      inbox = All-append (λ x. IsWritten P ids x) t.listener.messages (d ∷ []) c.inbox (w, tt);
      stands = c.stands;
    })
    | inr n ↦ rw n c
  ]

  pub heard-IsCalm :
      (t : Thread) (m : Message)
      → IsCalm P ids t
      → IsSane P ids m
      → IsCalm P ids (step (arrive (jsonify m)) t)
  unfolding step listener_receive
  heard-IsCalm t m c k = received (jsonify m) t (get "receiver" (jsonify m)) c (m, refl, k)

  pub ticked-IsCalm :
      (t : Thread) (r : Readings)
      → ((term : ℕ) → P (leader_entry term))
      → IsCalm P ids t
      → IsCalm P ids (step (tick r) t)
  unfolding step
  ticked-IsCalm t r p c = advance-IsCalm P ids r t.phase t p refl c

module _ (asked : Requests) (ids : List String) where
  -- Where an entry may come from: it is the initial one, that of a new leader, or a client's request.
  abbrev pub Legal : Entry → Type 0
  Legal e = (e ≡ init_entry) ⊎ (((term : ℕ) × (e ≡ leader_entry term)) ⊎ asked e.entry e.id)

  replaced :
      (c : List Thread) (i : ℕ) (t u : Thread)
      → All (λ x. IsCalm Legal ids x) c
      → get_elem? c i ≡ some t
      → (IsCalm Legal ids t → IsCalm Legal ids u)
      → All (λ x. IsCalm Legal ids x) (set c i u)
  replaced c i t u a e f =
      All-set (λ x. IsCalm Legal ids x) c i u a
        (f (All-get_elem? (λ x. IsCalm Legal ids x) c i t a e))

  Move-IsCalm :
      (c d : List Thread)
      → Move asked c d
      → All (λ x. IsCalm Legal ids x) c
      → All (λ x. IsCalm Legal ids x) d
  Move-IsCalm c _ (ticks i t r e) a =
      replaced c i t _ a e (λ k. ticked-IsCalm Legal ids t r (λ term. inr (inl (term, refl))) k)
  Move-IsCalm c _ (hears i j k t u m e f g) a =
      let speaker = All-get_elem? (λ x. IsCalm Legal ids x) c j u a f in
      let sane = All-get_elem? (λ n. IsSane Legal ids n) u.node.outbox k m speaker.honest.sent g in
      replaced c i t _ a e (λ x. heard-IsCalm Legal ids t m x sane)
  Move-IsCalm c _ (asks i t value id e p) a =
      replaced c i t _ a e (λ k. asked-IsCalm Legal ids t value id k (inr (inr p)))
  Move-IsCalm c _ (pauses i t e) a = replaced c i t _ a e (λ k. paused-IsCalm Legal ids t k)
  Move-IsCalm c _ (resumes i t e) a = replaced c i t _ a e (λ k. resumed-IsCalm Legal ids t k)
  Move-IsCalm c _ (stops i t e) a = replaced c i t _ a e (λ k. stopped-IsCalm Legal ids t k)

pub Known-cons : (b a : String) (ids : List String) → Known ids a → Known (b ∷ ids) a
unfolding index_of
Known-cons b a ids (i, e) = elim (Bool-cases (str_eq b a)) [
  | inl y ↦ (0, rw y)
  | inr n ↦ (suc i, rw (n, e))
]

Known-weaken :
    (b : String) (ids rest : List String)
    → All (λ a. Known ids a) rest
    → All (λ a. Known (b ∷ ids) a) rest
Known-weaken b ids [] a = tt
Known-weaken b ids (x ∷ rest) a = (Known-cons b x ids a.0, Known-weaken b ids rest a.1)

pub all_known : (ids : List String) → All (λ a. Known ids a) ids
unfolding index_of
all_known [] = tt
all_known (b ∷ ids) = ((0, rw ((eq_iff b b).1 refl)), Known-weaken b ids ids (all_known ids))

module _ (asked : Requests) (ids : List String) (timeout : String → ℕ)
    (stamps : String → ℕ → ℕ) where
  new-IsCalm :
      (rest : List String)
      → All (λ a. Known ids a) rest
      → All (λ t. IsCalm (Legal asked ids) ids t) (new_nodes ids timeout stamps rest)
  unfolding init
  new-IsCalm [] k = tt
  new-IsCalm (a ∷ rest) k = (
    record {
      honest = record {
        member = record { ids_eq = refl; nodes_eq = refl; known = k.0 };
        started = omega arith;
        entries = (inl refl, tt);
        queued = tt;
        sent = tt;
      };
      inbox = tt;
      stands = tt;
    },
    new-IsCalm rest k.1,
  )

  pub Reach-IsCalm :
      {c : List Thread}
      → Reach asked ids timeout stamps c
      → All (λ t. IsCalm (Legal asked ids) ids t) c
  Reach-IsCalm new = new-IsCalm ids (all_known ids)
  Reach-IsCalm (later {c = c} {d = d} r m) = Move-IsCalm asked ids c d m (Reach-IsCalm r)
