-- ===== src/Membership/Keeping.antt =====
-- The loop of `main` in src/node.py: what the table, the edge server and the advertisements are like
-- after a run.
use cs525_project.Common.Dict.{insert, keys, IsDistinct}
use cs525_project.Common.Parts.{parts}
use cs525_project.Common.{
  ℕ, ◌+◌, ◌≤◌, ◌==◌, ◌-◌, String, Result, err, Error, ◌⊎◌, inl, inr, ◌>>=◌, Bool, true, false, ◌≡◌,
  refl, List, [], ◌∷◌, ◌++◌, ok, leb, length, if◌then◌else◌, leb→le, arith,
}
use cs525_project.Membership.{
  Table, forget_edge, kept, advertisement, on_two_parts, bluetooth_process_advertisement,
  edge_process_advertisement,
}
use cs525_project.Membership.Fresh.{
  IsFresh, IsRecent, IsRecent-if, IsSince, keys-IsSince, insert-IsFresh, insert-IsSince, kept_fresh,
  forget_silent-IsFresh,
}
use cs525_project.Membership.Spacing.{IsPaced, IsPaced-snoc}
use cs525_project.Membership.Node.{
  bluetooth_advertisement_interval, bluetooth_heartbeat_timer, edge_heartbeat_timer, Node, Heard,
  bluetooth, edge, hear, hear_all, agree_if_three, sweep, due_round, node_round, NodeEvent, hears,
  rounds, node_step, node_run,
}

-- An advertisement adds or changes one node, or nothing.
on_two_parts-keeps :
    (Q : Table → Type 0) (ps : List String) (now : ℕ) (m : Table)
    → Q m
    → ((id address : String) → Q (insert id (address, now) m))
    → Q (kept (on_two_parts ps now m) m)
on_two_parts-keeps Q [] now m q h = q
on_two_parts-keeps Q (a ∷ []) now m q h = q
on_two_parts-keeps Q (a ∷ b ∷ []) now m q h = h b a
on_two_parts-keeps Q (a ∷ b ∷ c ∷ more) now m q h = q

-- The clock when a thread heard something.
abbrev pub reading : Heard → ℕ
reading (bluetooth message now) = now
reading (edge message now) = now

-- The readings do not go back, from `t` on.
abbrev pub IsOrderedHeard : ℕ → List Heard → Type 0
IsOrderedHeard t [] = Unit
IsOrderedHeard t (h ∷ rest) = (t ≤ reading h) × IsOrderedHeard (reading h) rest

abbrev pub last_reading : ℕ → List Heard → ℕ
last_reading t [] = t
last_reading t (h ∷ rest) = last_reading (reading h) rest

abbrev pub IsOrdered : ℕ → List NodeEvent → Type 0
IsOrdered t [] = Unit
IsOrdered t (hears h ∷ rest) = (t ≤ reading h) × IsOrdered (reading h) rest
IsOrdered t (rounds test now outcome during ∷ rest) =
    (t ≤ test) × (test ≤ now) × IsOrderedHeard now during × IsOrdered (last_reading now during) rest

-- What was sent is spaced by the interval; at the last round no node of the table, and no edge
-- server, had been silent for the time of its timer, and that round is not later than `t`.
pub record IsUpToDate (t : ℕ) (s : Node) : Type 0 where
  pub past : s.systime ≤ t
  pub paced : IsPaced bluetooth_advertisement_interval s.systime s.sent
  pub group : IsFresh bluetooth_heartbeat_timer s.systime s.local_group
  pub server : IsRecent edge_heartbeat_timer s.systime s.edge_server_address_time

hear-IsUpToDate :
    (t : ℕ) (h : Heard) (s : Node)
    → t ≤ reading h
    → IsUpToDate t s
    → IsUpToDate (reading h) (hear h s)
unfolding hear bluetooth_process_advertisement edge_process_advertisement
hear-IsUpToDate t (bluetooth message now) s later u = record {
  past = omega (arith, later, u.past);
  paced = u.paced;
  group =
      on_two_parts-keeps (λ m. IsFresh bluetooth_heartbeat_timer s.systime m) (parts message) now
        s.local_group u.group
        (λ id address.
          insert-IsFresh bluetooth_heartbeat_timer s.systime id (address, now) s.local_group
            (omega arith) (omega (arith, later, u.past)) u.group);
  server = u.server;
}
hear-IsUpToDate t (edge message now) s later u = record {
  past = omega (arith, later, u.past);
  paced = u.paced;
  group = u.group;
  server = omega (arith, later, u.past);
}

-- While the loop waits, its keys stay, and nothing comes that is older than its reading of the clock.
record IsWaiting (t : ℕ) (ks : List String) (s : Node) : Type 0 where
  past : s.systime ≤ t
  paced : IsPaced bluetooth_advertisement_interval s.systime s.sent
  group : IsSince s.systime ks s.local_group

hear-IsWaiting :
    (t : ℕ) (ks : List String) (h : Heard) (s : Node)
    → t ≤ reading h
    → IsWaiting t ks s
    → IsWaiting (reading h) ks (hear h s)
unfolding hear bluetooth_process_advertisement edge_process_advertisement
hear-IsWaiting t ks (bluetooth message now) s later w = record {
  past = omega (arith, later, w.past);
  paced = w.paced;
  group =
      on_two_parts-keeps (λ m. IsSince s.systime ks m) (parts message) now s.local_group w.group
        (λ id address.
          insert-IsSince s.systime ks id (address, now) s.local_group (omega (arith, later, w.past))
            w.group);
}
hear-IsWaiting t ks (edge message now) s later w = record {
  past = omega (arith, later, w.past);
  paced = w.paced;
  group = w.group;
}

hear_all-IsWaiting :
    (t : ℕ) (ks : List String) (hs : List Heard) (s : Node)
    → IsOrderedHeard t hs
    → IsWaiting t ks s
    → IsWaiting (last_reading t hs) ks (hear_all hs s)
unfolding hear_all
hear_all-IsWaiting t ks [] s o w = w
hear_all-IsWaiting t ks (h ∷ rest) s o w =
    hear_all-IsWaiting (reading h) ks rest (hear h s) o.1 (hear-IsWaiting t ks h s o.0 w)

last_reading-le : (t : ℕ) (hs : List Heard) → IsOrderedHeard t hs → t ≤ last_reading t hs
last_reading-le t [] o = omega arith
last_reading-le t (h ∷ rest) o = omega (arith, o.0, last_reading-le (reading h) rest o.1)

-- A node of the property, or an error for which there is a cause.
abbrev Outcome : (Node → Type 0) → (Error → Type 0) → Result Node → Type 0
Outcome P Cause (ok after) = P after
Outcome P Cause (err e) = Cause e

-- A computation gives such a node, or raises such an error.
pub record Yields (P : Node → Type 0) (Cause : Error → Type 0) (r : Result Node) : Type 0 where
  pub holds : Outcome P Cause r

Yields-bind :
    {P Q : Node → Type 0} {Cause Other : Error → Type 0} (r : Result Node) (f : Node → Result Node)
    → Yields P Cause r
    → ((e : Error) → Cause e → Other e)
    → ((s : Node) → P s → Yields Q Other (f s))
    → Yields Q Other (r >>= f)
Yields-bind (ok s) f h c k = k s h.holds
Yields-bind (err e) f h c k = record { holds = c e h.holds }

Yields-weaken :
    {P : Node → Type 0} {Cause Other : Error → Type 0} (r : Result Node)
    → Yields P Cause r
    → ((e : Error) → Cause e → Other e)
    → Yields P Other r
Yields-weaken (ok s) h c = record { holds = h.holds }
Yields-weaken (err e) h c = record { holds = c e h.holds }

Yields-ok :
    {P : Node → Type 0} {Cause : Error → Type 0} (r : Result Node)
    → (after : Node) × (r ≡ ok after) × P after
    → Yields P Cause r
Yields-ok r (after, e, h) = record { holds = rw e h }

agree_if_three-IsWaiting :
    (t : ℕ) (ks : List String) (outcome : Result (Unit {0})) (during : List Heard) (s : Node)
    → IsOrderedHeard t during
    → IsWaiting t ks s
    → Yields
        (IsWaiting (last_reading t during) ks)
        (λ e. outcome ≡ err e)
        (agree_if_three outcome during s)
unfolding agree_if_three
agree_if_three-IsWaiting t ks outcome during s o w =
    chosen (length (keys s.local_group) == 3) outcome
  where
    chosen :
        (b : Bool) (given : Result (Unit {0}))
        → Yields
            (IsWaiting (last_reading t during) ks)
            (λ e. given ≡ err e)
            (if b
              then (given >>= λ _.
                  ok (hear_all during (record s { agreed = s.agreed ++ s.local_group ∷ [] })))
              else ok s)
    chosen true (ok done) = record {
      holds =
          hear_all-IsWaiting t ks during (record s { agreed = s.agreed ++ s.local_group ∷ [] }) o
            (record { past = w.past; paced = w.paced; group = w.group });
    }
    chosen true (err e) = record { holds = refl }
    chosen false given = record {
      holds = record {
        past = omega (arith, w.past, last_reading-le t during o);
        paced = w.paced;
        group = w.group;
      };
    }

sweep-IsUpToDate :
    (t : ℕ) (ks : List String) (s : Node)
    → IsDistinct ks
    → IsWaiting t ks s
    → (after : Node) × (sweep ks s ≡ ok after) × IsUpToDate t after
sweep-IsUpToDate t ks s d w =
    let (group, returned, fresh) =
      forget_silent-IsFresh bluetooth_heartbeat_timer s.systime ks s.local_group (omega arith) d
        w.group in
    (
      record s {
        edge_server_address_time =
            forget_edge edge_heartbeat_timer s.systime s.edge_server_address_time;
        local_group = group;
      },
      rw returned,
      record {
        past = w.past;
        paced = w.paced;
        group = fresh;
        server =
            IsRecent-if edge_heartbeat_timer s.systime
              (forget_edge edge_heartbeat_timer s.systime s.edge_server_address_time)
              (λ seen e.
                kept_fresh edge_heartbeat_timer s.systime s.edge_server_address_time seen e
                  (omega arith));
      },
    )

due_round-IsUpToDate :
    (address index : String) (t now : ℕ) (outcome : Result (Unit {0})) (during : List Heard)
    (s : Node)
    → s.systime + bluetooth_advertisement_interval ≤ now
    → IsOrderedHeard now during
    → IsUpToDate t s
    → Yields
        (IsUpToDate (last_reading now during))
        (λ e. outcome ≡ err e)
        (due_round address index now outcome during s)
unfolding due_round
due_round-IsUpToDate address index t now outcome during s later o u =
    let s' : Node = record s {
      systime = now;
      sent = s.sent ++ (now, advertisement address index) ∷ [];
    } in
    Yields-bind (agree_if_three outcome during s') (sweep (keys s.local_group))
      (agree_if_three-IsWaiting now (keys s.local_group) outcome during s' o (record {
        past = omega arith;
        paced =
            IsPaced-snoc bluetooth_advertisement_interval s.systime now
              (advertisement address index) s.sent later u.paced;
        group = keys-IsSince now s.local_group u.group.distinct;
      }))
      (λ e c. c)
      (λ x w.
        Yields-ok (sweep (keys s.local_group) x)
          (sweep-IsUpToDate (last_reading now during) (keys s.local_group) x u.group.distinct w))

IsUpToDate-later : (t t' : ℕ) (s : Node) → t ≤ t' → IsUpToDate t s → IsUpToDate t' s
IsUpToDate-later t t' s later u = record {
  past = omega (arith, later, u.past);
  paced = u.paced;
  group = u.group;
  server = u.server;
}

node_round-IsUpToDate :
    (address index : String) (t test now : ℕ) (outcome : Result (Unit {0})) (during : List Heard)
    (s : Node)
    → t ≤ test
    → test ≤ now
    → IsOrderedHeard now during
    → IsUpToDate t s
    → Yields
        (IsUpToDate (last_reading now during))
        (λ e. outcome ≡ err e)
        (node_round address index test now outcome during s)
unfolding node_round
node_round-IsUpToDate address index t test now outcome during s later on o u =
    chosen (leb bluetooth_advertisement_interval (test - s.systime)) refl
  where
    chosen :
        (b : Bool)
        → leb bluetooth_advertisement_interval (test - s.systime) ≡ b
        → Yields
            (IsUpToDate (last_reading now during))
            (λ e. outcome ≡ err e)
            (if b then due_round address index now outcome during s else ok s)
    chosen true h =
        due_round-IsUpToDate address index t now outcome during s
          (omega (arith, leb→le bluetooth_advertisement_interval (test - s.systime) h, on)) o u
    chosen false h = record {
      holds =
          IsUpToDate-later t (last_reading now during) s
            (omega (arith, later, on, last_reading-le now during o)) u;
    }

-- The clock after the events.
abbrev pub last_time : ℕ → List NodeEvent → ℕ
last_time t [] = t
last_time t (hears h ∷ rest) = last_time (reading h) rest
last_time t (rounds test now outcome during ∷ rest) = last_time (last_reading now during) rest

-- Some call of `local_consensus` among the events has raised the error.
abbrev pub HasRaised : List NodeEvent → Error → Type 0
HasRaised [] e = ⊥
HasRaised (hears h ∷ rest) e = HasRaised rest e
HasRaised (rounds test now outcome during ∷ rest) e = (outcome ≡ err e) ⊎ HasRaised rest e

-- A node whose clock does not go back, whatever it hears and however long a call of `local_consensus`
-- keeps its loop waiting: the loop raises no error but one that such a call has raised, and when it has
-- raised none, then after all events the table has no double ids, neither a node of it nor the edge
-- server had been silent for the time of its timer at the last round that was due, and no two
-- advertisements were sent within the interval.
pub node_run-IsUpToDate :
    (address index : String) (es : List NodeEvent) (t : ℕ) (s : Node)
    → IsOrdered t es
    → IsUpToDate t s
    → Yields (IsUpToDate (last_time t es)) (HasRaised es) (node_run address index es s)
unfolding node_run node_step
node_run-IsUpToDate address index [] t s o u = record { holds = u }
node_run-IsUpToDate address index (hears h ∷ rest) t s o u =
    node_run-IsUpToDate address index rest (reading h) (hear h s) o.1 (hear-IsUpToDate t h s o.0 u)
node_run-IsUpToDate address index (rounds test now outcome during ∷ rest) t s o u =
    Yields-bind (node_round address index test now outcome during s) (node_run address index rest)
      (node_round-IsUpToDate address index t test now outcome during s o.0 o.1 o.2 u) (λ e c. inl c)
      (λ x v.
        Yields-weaken (node_run address index rest x)
          (node_run-IsUpToDate address index rest (last_reading now during) x o.3 v) (λ e c. inr c))
