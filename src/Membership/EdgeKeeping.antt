-- ===== src/Membership/EdgeKeeping.antt =====
-- The loop of `main` in src/edge.py: what the table and the broadcasts are like after a run.
use cs525_project.Common.Dict.{insert, keys}
use cs525_project.Common.Parts.{parts}
use cs525_project.Common.{
  ℕ, ◌+◌, ◌≤◌, ◌-◌, String, Bool, true, false, ◌≡◌, refl, List, [], ◌∷◌, ◌++◌, ok, leb,
  if◌then◌else◌, leb→le, arith,
}
use cs525_project.Membership.{Table, kept, on_parts, maintain_existing_connection}
use cs525_project.Membership.Fresh.{IsFresh, keys-IsSince, insert-IsFresh, forget_silent-IsFresh}
use cs525_project.Membership.Spacing.{IsPaced, IsPaced-snoc}
use cs525_project.Membership.Edge.{
  edge_advertisement_interval, edge_heartbeat_timer, EdgeServer, hear_node, due_edge_round,
  edge_round, EdgeEvent, hears, rounds, edge_step, edge_run,
}

-- The readings of the clock do not go back, from `t` on.
abbrev pub IsOrdered : ℕ → List EdgeEvent → Type 0
IsOrdered t [] = Unit
IsOrdered t (hears message now ∷ rest) = (t ≤ now) × IsOrdered now rest
IsOrdered t (rounds test now ∷ rest) = (t ≤ test) × (test ≤ now) × IsOrdered now rest

abbrev pub last_time : ℕ → List EdgeEvent → ℕ
last_time t [] = t
last_time t (hears message now ∷ rest) = last_time now rest
last_time t (rounds test now ∷ rest) = last_time now rest

-- The broadcasts are spaced by the interval; at the last round no node of the table had been silent
-- for the time of the timer, and that round is not later than `t`.
pub record IsUpToDate (t : ℕ) (s : EdgeServer) : Type 0 where
  pub past : s.systime ≤ t
  pub paced : IsPaced edge_advertisement_interval s.systime s.sent
  pub known : IsFresh edge_heartbeat_timer s.systime s.known_nodes

-- A message adds or changes one node, or nothing.
on_parts-keeps :
    (Q : Table → Type 0) (ps : List String) (now : ℕ) (m : Table)
    → Q m
    → ((id address : String) → Q (insert id (address, now) m))
    → Q (kept (on_parts ps now m) m)
on_parts-keeps Q [] now m q h = q
on_parts-keeps Q (a ∷ []) now m q h = q
on_parts-keeps Q (a ∷ b ∷ more) now m q h = h b a

hear_node-IsUpToDate :
    (t : ℕ) (message : String) (now : ℕ) (s : EdgeServer)
    → t ≤ now
    → IsUpToDate t s
    → IsUpToDate now (hear_node message now s)
unfolding hear_node maintain_existing_connection
hear_node-IsUpToDate t message now s later u = record {
  past = omega (arith, later, u.past);
  paced = u.paced;
  known =
      on_parts-keeps (λ m. IsFresh edge_heartbeat_timer s.systime m) (parts message) now
        s.known_nodes u.known
        (λ id address.
          insert-IsFresh edge_heartbeat_timer s.systime id (address, now) s.known_nodes
            (omega arith) (omega (arith, later, u.past)) u.known);
}

due_edge_round-IsUpToDate :
    (address : String) (t now : ℕ) (s : EdgeServer)
    → s.systime + edge_advertisement_interval ≤ now
    → IsUpToDate t s
    → (after : EdgeServer) × (due_edge_round address now s ≡ ok after) × IsUpToDate now after
unfolding due_edge_round
due_edge_round-IsUpToDate address t now s later u =
    let (known, returned, fresh) =
      forget_silent-IsFresh edge_heartbeat_timer now (keys s.known_nodes) s.known_nodes
        (omega arith) u.known.distinct (keys-IsSince now s.known_nodes u.known.distinct) in
    (
      record s { systime = now; known_nodes = known; sent = s.sent ++ (now, address) ∷ [] },
      rw returned,
      record {
        past = omega arith;
        paced = IsPaced-snoc edge_advertisement_interval s.systime now address s.sent later u.paced;
        known = fresh;
      },
    )

edge_round-IsUpToDate :
    (address : String) (t test now : ℕ) (s : EdgeServer)
    → t ≤ test
    → test ≤ now
    → IsUpToDate t s
    → (after : EdgeServer) × (edge_round address test now s ≡ ok after) × IsUpToDate now after
unfolding edge_round
edge_round-IsUpToDate address t test now s later on u =
    chosen (leb edge_advertisement_interval (test - s.systime)) refl
  where
    chosen :
        (b : Bool)
        → leb edge_advertisement_interval (test - s.systime) ≡ b
        → (after : EdgeServer) × ((if b then due_edge_round address now s else ok s) ≡ ok after)
          × IsUpToDate now after
    chosen true h =
        due_edge_round-IsUpToDate address t now s
          (omega (arith, leb→le edge_advertisement_interval (test - s.systime) h, on)) u
    chosen false h = (
      s,
      refl,
      record { past = omega (arith, later, on, u.past); paced = u.paced; known = u.known },
    )

-- An edge server whose clock does not go back, whatever the nodes send: no round of its loop raises
-- KeyError, and after all events its table has no double ids, no node of it had been silent for the time
-- of the timer at the last round that was due, and no two broadcasts were sent within the interval.
pub edge_run-IsUpToDate :
    (address : String) (es : List EdgeEvent) (t : ℕ) (s : EdgeServer)
    → IsOrdered t es
    → IsUpToDate t s
    → (after : EdgeServer) × (edge_run address es s ≡ ok after) × IsUpToDate (last_time t es) after
unfolding edge_run edge_step
edge_run-IsUpToDate address [] t s o u = (s, refl, u)
edge_run-IsUpToDate address (hears message now ∷ rest) t s o u =
    edge_run-IsUpToDate address rest now (hear_node message now s) o.1
      (hear_node-IsUpToDate t message now s o.0 u)
edge_run-IsUpToDate address (rounds test now ∷ rest) t s o u =
    let (s', returned, u') = edge_round-IsUpToDate address t test now s o.0 o.1 u in
    let (after, more, v) = edge_run-IsUpToDate address rest now s' o.2 u' in
    (after, rw returned more, v)
