-- ===== src/Raft/Roles/Ends.antt =====
-- What an action of a role ends in, branch by branch.
use cs525_project.Common.{◌≡◌, refl, Bool, true, false, Result, if◌then◌else◌}
use cs525_project.Raft.State.{RaftNode}

-- What an action ends in, and the rule for a test.
pub record Ends {A : Type 0} (P : Result A × RaftNode → Type 0) (p : Result A × RaftNode)
    : Type 0 where
  pub holds : P p

pub Ends-in :
    {A : Type 0} {P : Result A × RaftNode → Type 0} (p : Result A × RaftNode) → P p → Ends P p
Ends-in p h = record { holds = h }

pub Ends-if :
    {A : Type 0} {P : Result A × RaftNode → Type 0} (b : Bool) (p q : Result A × RaftNode)
    → (b ≡ true → Ends P p)
    → Ends P q
    → Ends P (if b then p else q)
Ends-if true p q h k = h refl
Ends-if false p q h k = k
