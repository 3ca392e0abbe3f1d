-- ===== src/Raft/Grows.antt =====
-- What every step of the thread does to the term and to the votes: the term never falls, and a node
-- that has granted at most one vote in each term still has.
use mathlib.Core.List.{append-nil}
use cs525_project.Common.{
  ℕ, ◌≤◌, ◌<◌, String, ◌≡◌, refl, ◌∙◌, Bool, true, false, Option, none, some, [], arith, ltb,
  get_elem?, ltb→lt, Bool-cases, inl, inr,
}
use cs525_project.Protocol.{RequestVotesMessage, Message}
use cs525_project.Raft.State.{RaftNode, Role, Action}
use cs525_project.Raft.Send.{send_message, send_vote, vote_message, send_request_vote}
use cs525_project.Raft.Log.{set_current_role, increment_term}
use cs525_project.Raft.Candidate.{yield_vote}
use cs525_project.Raft.Follower.{see_term, on_request_votes, may_vote}
use cs525_project.Raft.Relates.{Relation, Relates}
use cs525_project.Raft.Granted.{granted, granted_by, granted-append}
use cs525_project.Raft.Voting.{Voting, Voting-raise, Voting-deny, Voting-grant}
use cs525_project.Raft.Frame.{Keeps, keeping}

-- The votes of a node are in order.
unfoldable pub IsVoting : RaftNode → Type 0
IsVoting s = Voting s.current_term s.voted_for (granted s.outbox)

pub record Grows (s t : RaftNode) : Type 0 where
  pub term_le : s.current_term ≤ t.current_term
  pub votes_kept : IsVoting s → IsVoting t
  pub same_ids : t.all_ids ≡ s.all_ids
  pub same_id : t.my_id ≡ s.my_id
  pub same_nodes : t.current_num_nodes ≡ s.current_num_nodes
  pub same_first : get_elem? t.log 0 ≡ get_elem? s.log 0

pub Grows-refl : (s : RaftNode) → Grows s s
Grows-refl s = record {
  term_le = omega arith;
  votes_kept = λ v. v;
  same_ids = refl;
  same_id = refl;
  same_nodes = refl;
  same_first = refl;
}

pub Grows-trans : (s t u : RaftNode) → Grows s t → Grows t u → Grows s u
Grows-trans s t u h k = record {
  term_le = omega arith;
  votes_kept = λ v. k.votes_kept (h.votes_kept v);
  same_ids = k.same_ids ∙ h.same_ids;
  same_id = k.same_id ∙ h.same_id;
  same_nodes = k.same_nodes ∙ h.same_nodes;
  same_first = k.same_first ∙ h.same_first;
}

abbrev pub growing : Relation
growing = record { holds = Grows; same = Grows-refl; chain = Grows-trans }

pub Keeps-Grows : (s t : RaftNode) → Keeps s t → Grows s t
unfolding IsVoting
Keeps-Grows s t k = record {
  term_le = omega arith;
  votes_kept = λ v. rw (k.same_term, k.same_vote, k.same_granted) v;
  same_ids = k.same_ids;
  same_id = k.same_id;
  same_nodes = k.same_nodes;
  same_first = k.same_first;
}

pub Relates-Grows : {A : Type 0} {m : Action A} → Relates keeping m → Relates growing m
Relates-Grows {A} {m} h = record { at = λ s. Keeps-Grows s (m s).1 (h.at s) }

-- A new role changes nothing here.
pub set_current_role-Grows : (role : Role) (s : RaftNode) → Grows s (set_current_role role s)
unfolding set_current_role IsVoting
set_current_role-Grows role s = record {
  term_le = omega arith;
  votes_kept = λ v. v;
  same_ids = refl;
  same_id = refl;
  same_nodes = refl;
  same_first = refl;
}

-- A higher term clears the vote.
pub increment_term-Grows :
    (term : ℕ) (s : RaftNode) → s.current_term < term → Grows s (increment_term (some term) s)
unfolding increment_term IsVoting
increment_term-Grows term s h = record {
  term_le = omega arith;
  votes_kept = λ v. Voting-raise v term h;
  same_ids = refl;
  same_id = refl;
  same_nodes = refl;
  same_first = refl;
}

pub next_term-Grows : (s : RaftNode) → Grows s (increment_term none s)
unfolding increment_term IsVoting
next_term-Grows s = record {
  term_le = omega arith;
  votes_kept = λ v. Voting-raise v _ (omega arith);
  same_ids = refl;
  same_id = refl;
  same_nodes = refl;
  same_first = refl;
}

-- A vote is granted only while the node has none in its term.
pub send_vote-Grows :
    (candidate : String) (yes_vote : Bool) (s : RaftNode)
    → (yes_vote ≡ true → s.voted_for ≡ none)
    → Grows s (send_vote candidate yes_vote s)
unfolding send_vote send_message IsVoting
send_vote-Grows candidate true s h = record {
  term_le = omega arith;
  votes_kept = λ v.
      rw (granted-append s.outbox (vote_message candidate true s))
        (Voting-grant v candidate (h refl));
  same_ids = refl;
  same_id = refl;
  same_nodes = refl;
  same_first = refl;
}
send_vote-Grows candidate false s h = record {
  term_le = omega arith;
  votes_kept = λ v.
      rw (granted-append s.outbox (vote_message candidate false s) ∙ append-nil (granted s.outbox))
        (Voting-deny v candidate);
  same_ids = refl;
  same_id = refl;
  same_nodes = refl;
  same_first = refl;
}

-- A message that grants nothing.
send_message-IsVoting :
    (m : Message) (s : RaftNode) → granted_by m ≡ [] → IsVoting s → IsVoting (send_message m s)
unfolding send_message IsVoting
send_message-IsVoting m s e v = rw (granted-append s.outbox m, e, append-nil) v

pub send_request_vote-Grows : (to : Option String) (s : RaftNode) → Grows s (send_request_vote to s)
unfolding send_request_vote send_message IsVoting
send_request_vote-Grows to s = record {
  term_le = omega arith;
  votes_kept = λ v. send_message-IsVoting _ s refl v;
  same_ids = refl;
  same_id = refl;
  same_nodes = refl;
  same_first = refl;
}

pub see_term-Grows : (term : ℕ) (s : RaftNode) → Grows s (see_term term s)
unfolding see_term
see_term-Grows term s = elim (Bool-cases (ltb s.current_term term)) [
  | inl e ↦ rw e (increment_term-Grows term s (ltb→lt _ _ e))
  | inr e ↦ rw e (Grows-refl s)
]

may_vote-none : (m : RequestVotesMessage) (s : RaftNode) → may_vote m s ≡ true → s.voted_for ≡ none
may_vote-none m s h = ground arith

pub on_request_votes-Grows :
    (m : RequestVotesMessage) (s : RaftNode) → Grows s (on_request_votes m s)
unfolding on_request_votes
on_request_votes-Grows m s =
    let s' = see_term m.term s in
    Grows-trans s s' _ (see_term-Grows m.term s)
      (send_vote-Grows m.sender _ s' (may_vote-none m s'))

yielded-none : (term : ℕ) (s : RaftNode) → (increment_term (some term) s).voted_for ≡ none
unfolding increment_term
yielded-none term s = refl

pub yield_vote-Grows :
    (m : RequestVotesMessage) (s : RaftNode) → s.current_term < m.term → Grows s (yield_vote m s)
unfolding yield_vote
yield_vote-Grows m s h =
    let s1 = increment_term (some m.term) s in
    let s2 = send_vote m.sender true s1 in
    Grows-trans s s1 _ (increment_term-Grows m.term s h) (
      Grows-trans s1 s2 _ (send_vote-Grows m.sender true s1 (λ _. yielded-none m.term s))
        (set_current_role-Grows _ s2))
