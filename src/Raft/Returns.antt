-- ===== src/Raft/Returns.antt =====
-- An action that returns, and what holds of its result and of the node then.
use cs525_project.Common.{Bool, true, false, if◌then◌else◌, ◌≡◌, refl, Result, ok, err}
use cs525_project.Raft.State.{RaftNode, Action, pure, modify, gets, reads, continue, ◌>>=◌}

abbrev pub Ensures : {A : Type 0} → (A → RaftNode → Type 0) → Result A → RaftNode → Type 0
Ensures P (ok a) s = P a s
Ensures P (err e) s = ⊥

-- The action returns from this state, and `P` holds.
pub record Returns {A : Type 0} (P : A → RaftNode → Type 0) (m : Action A) (s : RaftNode)
    : Type 0 where
  pub holds : Ensures P (m s).0 (m s).1

module _ {A B : Type 0} {P : A → RaftNode → Type 0} {Q : B → RaftNode → Type 0} where
  continue-Ensures :
      (r : Result A) (f : A → Action B) (s : RaftNode)
      → Ensures P r s
      → ((a : A) (t : RaftNode) → P a t → Returns Q (f a) t)
      → Ensures Q (continue r f s).0 (continue r f s).1
  continue-Ensures (ok a) f s h k = (k a s h).holds
  continue-Ensures (err e) f s h k = absurd h

  pub Returns-bind :
      (m : Action A) (f : A → Action B) (s : RaftNode)
      → Returns P m s
      → ((a : A) (t : RaftNode) → P a t → Returns Q (f a) t)
      → Returns Q (m >>= f) s
  unfolding ◌>>=◌
  Returns-bind m f s h k = record { holds = let (r, s') = m s in continue-Ensures r f s' h.holds k }

module _ {A : Type 0} {P : A → RaftNode → Type 0} where
  pub Returns-pure : (a : A) (s : RaftNode) → P a s → Returns P (pure a) s
  unfolding pure
  Returns-pure a s h = record { holds = h }

  -- a reading that is known to succeed
  pub Returns-reads :
      (f : RaftNode → Result A) (a : A) (s : RaftNode) → f s ≡ ok a → P a s → Returns P (reads f) s
  unfolding reads
  Returns-reads f a s e h = record { holds = rw e h }

  pub Returns-gets : (f : RaftNode → A) (s : RaftNode) → P (f s) s → Returns P (gets f) s
  unfolding gets
  Returns-gets f s h = record { holds = h }

pub Returns-modify :
    {P : Unit → RaftNode → Type 0} (f : RaftNode → RaftNode) (s : RaftNode)
    → P tt (f s)
    → Returns P (modify f) s
unfolding modify
Returns-modify f s h = record { holds = h }

-- A test between two ends of an action.
pub Ensures-if :
    {A : Type 0} (P : A → RaftNode → Type 0) (b : Bool) (x y : Result A × RaftNode)
    → (b ≡ true → Ensures P x.0 x.1)
    → (b ≡ false → Ensures P y.0 y.1)
    → Ensures P (if b then x else y).0 (if b then x else y).1
Ensures-if P true x y h k = h refl
Ensures-if P false x y h k = k refl

-- A weaker condition.
pub Returns-weaken :
    {A : Type 0} {P Q : A → RaftNode → Type 0} {m : Action A} {s : RaftNode}
    → Returns P m s
    → ((a : A) (t : RaftNode) → P a t → Q a t)
    → Returns Q m s
Returns-weaken {A} {P} {Q} {m} {s} h k = let (r, t) = m s in record { holds = weaken r t h.holds }
  where
    weaken : (r : Result A) (t : RaftNode) → Ensures P r t → Ensures Q r t
    weaken (ok a) t p = k a t p
    weaken (err e) t p = p

-- What is known of the result, and what is known of the node in any case.
pub Returns-both :
    {A : Type 0} {P : A → RaftNode → Type 0} {Q : RaftNode → Type 0} {m : Action A} {s : RaftNode}
    → Returns P m s
    → Q (m s).1
    → Returns (λ a t. P a t × Q t) m s
Returns-both {A} {P} {Q} {m} {s} h k = let (r, t) = m s in record { holds = pair r t h.holds k }
  where
    pair : (r : Result A) (t : RaftNode) → Ensures P r t → Q t → Ensures (λ a u. P a u × Q u) r t
    pair (ok a) t p q = (p, q)
    pair (err e) t p q = p
