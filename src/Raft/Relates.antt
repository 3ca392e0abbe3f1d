-- ===== src/Raft/Relates.antt =====
-- What an action does to the node, as a relation between the states before and after it, whether
-- it returns or raises; one rule for each way to build an action.
use cs525_project.Common.{Bool, true, false, Result, ok, err, if◌then◌else◌, Error}
use cs525_project.Raft.State.{RaftNode, Action, pure, raise, gets, reads, modify, continue, ◌>>=◌}

pub record Relation : Type 1 where
  pub holds : RaftNode → RaftNode → Type 0
  pub same : (s : RaftNode) → holds s s
  pub chain : (s t u : RaftNode) → holds s t → holds t u → holds s u

pub record Relates {A : Type 0} (R : Relation) (m : Action A) : Type 0 where
  pub at : (s : RaftNode) → R.holds s (m s).1

module _ {A : Type 0} {R : Relation} where
  pub Relates-pure : (a : A) → Relates R (pure a)
  unfolding pure
  Relates-pure a = record { at = R.same }

  pub Relates-raise : (e : Error) → Relates R (raise {A = A} e)
  unfolding raise
  Relates-raise e = record { at = R.same }

  pub Relates-gets : (f : RaftNode → A) → Relates R (gets f)
  unfolding gets
  Relates-gets f = record { at = R.same }

  pub Relates-reads : (f : RaftNode → Result A) → Relates R (reads f)
  unfolding reads
  Relates-reads f = record { at = R.same }

  pub Relates-if :
      (b : Bool) (m n : Action A) → Relates R m → Relates R n → Relates R (if b then m else n)
  Relates-if true m n km kn = km
  Relates-if false m n km kn = kn

pub Relates-modify :
    {R : Relation} (f : RaftNode → RaftNode)
    → ((s : RaftNode) → R.holds s (f s))
    → Relates R (modify f)
unfolding modify
Relates-modify f h = record { at = h }

module _ {A B : Type 0} {R : Relation} where
  continue-holds :
      (r : Result A) (f : A → Action B) (s t : RaftNode)
      → R.holds s t
      → ((a : A) → Relates R (f a))
      → R.holds s (continue r f t).1
  continue-holds (ok a) f s t h kf = R.chain s t (f a t).1 h ((kf a).at t)
  continue-holds (err e) f s t h kf = h

  pub Relates-bind :
      (m : Action A) (f : A → Action B)
      → Relates R m
      → ((a : A) → Relates R (f a))
      → Relates R (m >>= f)
  unfolding ◌>>=◌
  Relates-bind m f km kf = record {
    at = λ s. let (r, s') = m s in continue-holds r f s s' (km.at s) kf;
  }

  -- The same at one state.
  pub bind-holds :
      (m : Action A) (f : A → Action B) (s : RaftNode)
      → R.holds s (m s).1
      → ((a : A) → Relates R (f a))
      → R.holds s ((m >>= f) s).1
  unfolding ◌>>=◌
  bind-holds m f s h kf = let (r, s') = m s in continue-holds r f s s' h kf

pub ruleset relates_rules = (
  Relates-pure, Relates-raise, Relates-gets, Relates-reads, Relates-if, Relates-modify,
  Relates-bind,
)
