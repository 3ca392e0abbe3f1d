-- ===== src/Raft/Roles.antt =====
-- src/raft/raft.py: how the role of a node changes in a round of its loop, as a relation between the
-- states before and after.
pub mod Ends
pub mod Follower
pub mod Candidate
pub mod Leader
pub mod Steps
use mathlib.Core.Path.{subst}
use cs525_project.Common.{ℕ, ◌≤◌, ◌<◌, ◌≡◌, refl, sym, ◌∙◌, ◌⊎◌, inl, inr, String, Bool, arith}
use cs525_project.Protocol.{RequestVotesMessage}
use cs525_project.Raft.State.{RaftNode, Role, follower, candidate, leader, Action}
use cs525_project.Raft.Send.{send_vote, send_message}
use cs525_project.Raft.Log.{set_current_role, increment_term}
use cs525_project.Raft.Follower.{see_term, on_request_votes}
use cs525_project.Raft.Relates.{Relation, Relates}
use cs525_project.Raft.Frame.{Keeps, keeping}

-- What the round of a leader does: the role stays and the term does not fall, or the node steps down for
-- a higher term.
abbrev pub StepsDown : RaftNode → RaftNode → Type 0
StepsDown s t =
    ((t.current_role ≡ s.current_role) × (s.current_term ≤ t.current_term))
    ⊎ ((t.current_role ≡ follower) × (s.current_term < t.current_term))

pub StepsDown-trans : (s t u : RaftNode) → StepsDown s t → StepsDown t u → StepsDown s u
StepsDown-trans s t u (inl h) (inl k) = inl (k.0 ∙ h.0, omega (arith, h.1, k.1))
StepsDown-trans s t u (inl h) (inr k) = inr (k.0, omega (arith, h.1, k.1))
StepsDown-trans s t u (inr h) (inl k) = inr (k.0 ∙ h.0, omega (arith, h.1, k.1))
StepsDown-trans s t u (inr h) (inr k) = inr (k.0, omega (arith, h.1, k.1))

abbrev pub stepping : Relation
stepping = record {
  holds = StepsDown;
  same = λ s. inl (refl, omega arith);
  chain = StepsDown-trans;
}

pub Keeps-StepsDown : (s t : RaftNode) → Keeps s t → StepsDown s t
Keeps-StepsDown s t k = inl (k.same_role, omega (arith, k.same_term))

pub Relates-StepsDown : {A : Type 0} {m : Action A} → Relates keeping m → Relates stepping m
Relates-StepsDown {A} {m} h = record { at = λ s. Keeps-StepsDown s (m s).1 (h.at s) }

-- A term that is seen, and a vote, leave the role.
pub see_term-role : (term : ℕ) (s : RaftNode) → (see_term term s).current_role ≡ s.current_role
unfolding see_term increment_term
see_term-role term s = ground arith

pub send_vote-role :
    (a : String) (yes_vote : Bool) (s : RaftNode)
    → (send_vote a yes_vote s).current_role ≡ s.current_role
unfolding send_vote send_message
send_vote-role a yes_vote s = refl

pub on_request_votes-role :
    (m : RequestVotesMessage) (s : RaftNode) → (on_request_votes m s).current_role ≡ s.current_role
unfolding on_request_votes
on_request_votes-role m s = send_vote-role m.sender _ (see_term m.term s) ∙ see_term-role m.term s
