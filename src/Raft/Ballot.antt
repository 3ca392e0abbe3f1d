-- ===== src/Raft/Ballot.antt =====
-- What makes a candidate a leader, over the rounds of its loop in `_candidate`.
pub mod Wins
pub mod Voters
pub mod OneLeader
use cs525_project.Common.{
  ℕ, ◌+◌, ◌-◌, ◌/◌, ◌<◌, ◌≤◌, Bool, true, false, ◌≡◌, refl, ◌⊎◌, inl, inr, Option, none, some, List,
  [], ◌∷◌, arith, ltb, leb, ◌==◌, Result, ok, err, Bool-cases, if◌then◌else◌,
}
use cs525_project.Protocol.{
  RequestVotesMessage, AppendEntriesMessage, Message, request_votes_message, append_entries_message,
  Results, votes, appends,
}
use cs525_project.Protocol.MessageType
use cs525_project.Protocol.MessageDirection
use cs525_project.Raft.State.{RaftNode, leader, candidate, follower, Action, ◌>>=◌, raise, continue}
use cs525_project.Raft.Log.{set_current_role, increment_term}
use cs525_project.Raft.Send.{send_vote, send_message, send_request_vote}
use mathlib.Core.Path.{subst}
use cs525_project.Raft.Follower.{Flow, again, done}
use cs525_project.Raft.Candidate.{
  Election, candidate_start, is_granted, has_majority, tally, on_vote, yield_vote, yield_leader,
  candidate_message, candidate_receive, candidate_timeout, candidate_round,
}

-- 1 for a response that grants a vote, 0 for any other message
unfoldable pub grants_results : Results → ℕ
grants_results (appends r) = 0
grants_results (votes r) = if is_granted r.vote_granted then 1 else 0

unfoldable pub grants_message : Option Message → ℕ
unfolding grants_results
grants_message none = 0
grants_message (some (append_entries_message m)) = 0
grants_message (some (request_votes_message m)) =
    if m.direction == MessageDirection.response then grants_results m.results else 0

-- A round of the loop: a time, and the message that is read.
abbrev pub Round : Type 0
Round = ℕ × Option Message

unfoldable pub ballots : List Round → ℕ
unfolding grants_message
ballots [] = 0
ballots (r ∷ rest) = grants_message r.1 + ballots rest

abbrev pub next_round : (Election → Action (Flow Election)) → Flow Election → Action (Flow Election)
next_round rest done s = (ok done, s)
next_round rest (again e) s = rest e s

-- The rounds of one election, up to the one in which the method returns or raises.
unfoldable pub candidate_rounds : List Round → Election → Action (Flow Election)
candidate_rounds [] e s = (ok (again e), s)
candidate_rounds (r ∷ rest) e s =
    (candidate_round r.0 r.1 e >>= next_round (candidate_rounds rest)) s

-- What a part of an election may end in, when it began in a system of `nodes` nodes and the candidate
-- has had `have` votes: it goes on with no more votes than these, or it ends, and as a leader only if
-- these are a majority.
abbrev pub Outcome : ℕ → ℕ → Result (Flow Election) → RaftNode → Type 0
Outcome have nodes (ok (again e)) t =
    (t.current_role ≡ candidate) × (t.current_num_nodes ≡ nodes) × (e.votes_for_me ≤ have)
Outcome have nodes (ok done) t = t.current_role ≡ leader → has_majority have nodes ≡ true
Outcome have nodes (err _) t = Unit

abbrev Ended : ℕ → ℕ → Result (Flow Election) × RaftNode → Type 0
Ended have nodes p = Outcome have nodes p.0 p.1

-- The end of `on_vote`.
abbrev vote_end : Bool → Election → RaftNode → Result (Flow Election) × RaftNode
vote_end granted e s =
    if has_majority (tally granted e).votes_for_me s.current_num_nodes
    then (ok done, set_current_role leader s)
    else (ok (again (tally granted e)), s)

has_majority_mono :
    (x y nodes : ℕ) → x ≤ y → has_majority x nodes ≡ true → has_majority y nodes ≡ true
has_majority_mono x y nodes h e = ground arith

-- The state and the votes when a part of an election begins.
record Begins (have nodes : ℕ) (e : Election) (s : RaftNode) : Type 0 where
  role_eq : s.current_role ≡ candidate
  nodes_eq : s.current_num_nodes ≡ nodes
  votes_le : e.votes_for_me ≤ have

module _ {have nodes : ℕ} {e : Election} {s : RaftNode} (b : Begins have nodes e s) where
  waiting : (more : ℕ) → Outcome (have + more) nodes (ok (again e)) s
  waiting more = (b.role_eq, b.nodes_eq, omega (arith, b.votes_le))

  abbrev votes_after : Bool → ℕ
  votes_after granted = (tally granted e).votes_for_me

  counted : (granted : Bool) → votes_after granted ≤ have + (if granted then 1 else 0)
  counted true = omega (arith, b.votes_le)
  counted false = omega (arith, b.votes_le)

  -- A vote, granted or not.
  on_votes :
      (granted : Bool) → Ended (have + (if granted then 1 else 0)) nodes (vote_end granted e s)
  on_votes granted =
      elim (Bool-cases (has_majority (tally granted e).votes_for_me s.current_num_nodes)) [
        | inl y ↦ rw y (λ h. has_majority_mono _ _ nodes (counted granted) (rw (← b.nodes_eq) y))
        | inr n ↦ rw n (b.role_eq, b.nodes_eq, counted granted)
      ]

  yielding :
      (t : RaftNode) (more : ℕ) → Ended (have + more) nodes (ok done, set_current_role follower t)
  unfolding set_current_role
  yielding t more h = cc

  -- A request for votes.
  on_request :
      (m : RequestVotesMessage) (more : ℕ)
      → Ended
          (have + more)
          nodes
          (if ltb s.current_term m.term then (ok done, yield_vote m s) else (ok (again e), s))
  unfolding yield_vote
  on_request m more = elim (Bool-cases (ltb s.current_term m.term)) [
    | inl y ↦ rw y (yielding _ more)
    | inr n ↦ rw n (waiting more)
  ]

  on_vote-Ended :
      (m : RequestVotesMessage) → Ended (have + grants_results m.results) nodes (on_vote m e s)
  unfolding on_vote grants_results raise
  on_vote-Ended m = by_results m.results
    where
      by_results :
          (r : Results)
          → Ended
              (have + grants_results r)
              nodes
              (on_vote (record m { base = record m.base { results = r } }) e s)
      by_results (appends r) = tt
      by_results (votes r) = on_votes (is_granted r.vote_granted)

  on_leader :
      (m : AppendEntriesMessage)
      → Ended (have + 0) nodes (candidate_message (append_entries_message m) e s)
  unfolding candidate_message yield_leader
  on_leader m = elim (Bool-cases (m.direction == MessageDirection.request)) [
    | inr n ↦ rw n (waiting 0)
    | inl d ↦ elim (Bool-cases (m.type_ == MessageType.heartbeat)) [
      | inr n ↦ rw (d, n) (waiting 0)
      | inl t ↦ elim (Bool-cases (leb s.current_term m.term)) [
        | inr n ↦ rw (d, t, n) (waiting 0)
        | inl y ↦ rw (d, t, y) (yielding _ 0)
      ]
    ]
  ]

  on_ballot :
      (m : RequestVotesMessage)
      → Ended
          (have + grants_message (some (request_votes_message m)))
          nodes
          (candidate_message (request_votes_message m) e s)
  unfolding candidate_message grants_message
  on_ballot m = elim (Bool-cases (m.direction == MessageDirection.response)) [
    | inl y ↦ rw y (on_vote-Ended m)
    | inr n ↦ elim (Bool-cases (m.direction == MessageDirection.request)) [
      | inl y ↦ rw (n, y) (on_request m 0)
      | inr k ↦ rw (n, k) (waiting 0)
    ]
  ]

  received : (m : Option Message) → Ended (have + grants_message m) nodes (candidate_receive m e s)
  unfolding candidate_receive grants_message
  received none = waiting 0
  received (some (request_votes_message m)) = on_ballot m
  received (some (append_entries_message m)) = on_leader m

-- The test for the end of the election makes no leader.
timed :
    (have nodes now : ℕ) (r : Result (Flow Election)) (s : RaftNode)
    → Outcome have nodes r s
    → Ended have nodes (continue r (candidate_timeout now) s)
unfolding candidate_timeout set_current_role
timed have nodes now (err x) s h = tt
timed have nodes now (ok done) s h = h
timed have nodes now (ok (again e)) s h =
    elim (Bool-cases (ltb s.election_timeout (now - e.time_election_going))) [
      | inl y ↦ rw y (λ is. cc)
      | inr n ↦ rw n h
    ]

round-Ended :
    {have nodes : ℕ} {e : Election} {s : RaftNode} (b : Begins have nodes e s) (now : ℕ)
    (m : Option Message)
    → Ended (have + grants_message m) nodes (candidate_round now m e s)
unfolding candidate_round ◌>>=◌
round-Ended {have} {nodes} {e} {s} b now m =
    let (r, t) = candidate_receive m e s in timed _ nodes now r t (received b m)

onward :
    (have more nodes : ℕ) (rest : List Round) (x : Result (Flow Election)) (t : RaftNode)
    → ((e : Election)
        → Begins have nodes e t
        → Ended (have + more) nodes (candidate_rounds rest e t))
    → Outcome have nodes x t
    → Ended (have + more) nodes (continue x (next_round (candidate_rounds rest)) t)
onward have more nodes rest (err y) t k h = tt
onward have more nodes rest (ok done) t k h = λ is. has_majority_mono _ _ nodes (omega arith) (h is)
onward have more nodes rest (ok (again e)) t k h =
    k e (record { role_eq = h.0; nodes_eq = h.1; votes_le = h.2 })

rounds-Ended :
    (rs : List Round) {have nodes : ℕ} {e : Election} {s : RaftNode}
    → Begins have nodes e s
    → Ended (have + ballots rs) nodes (candidate_rounds rs e s)
unfolding candidate_rounds ballots ◌>>=◌
rounds-Ended [] b = waiting b 0
rounds-Ended (r ∷ rest) {have} {nodes} {e} {s} b =
    let (x, t) = candidate_round r.0 r.1 e s in
    let got = have + grants_message r.1 in
    let sum_eq : got + ballots rest ≡ have + (grants_message r.1 + ballots rest) = omega arith in
    rw (← sum_eq) (
      onward got (ballots rest) nodes rest x t (λ e' b'. rounds-Ended rest b')
        (round-Ended b r.0 r.1))

-- An election: what comes before the loop, and rounds of the loop.
unfoldable pub election : ℕ → List Round → Action (Flow Election)
election now rs s = let (e, asked) = candidate_start now s in candidate_rounds rs e asked

pub has_majority-meaning :
    (x nodes : ℕ) → has_majority x nodes ≡ true → (nodes / 2 < x) ⊎ (nodes ≡ 1)
has_majority-meaning x nodes h = ground arith

start-Begins :
    (now : ℕ) (s : RaftNode)
    → s.current_role ≡ candidate
    → Begins 0 s.current_num_nodes (candidate_start now s).0 (candidate_start now s).1
unfolding candidate_start increment_term send_request_vote send_vote send_message
start-Begins now s c = record { role_eq = c; nodes_eq = refl; votes_le = omega arith }

-- A candidate that becomes a leader in an election, after any number of rounds of its loop and
-- whatever it heard, has read responses that grant it a vote in a number that is more than half of the
-- nodes, or is the only node.
pub election-leader :
    (now : ℕ) (rs : List Round) (s t : RaftNode)
    → s.current_role ≡ candidate
    → election now rs s ≡ (ok done, t)
    → t.current_role ≡ leader
    → (s.current_num_nodes / 2 < ballots rs) ⊎ (s.current_num_nodes ≡ 1)
unfolding election
election-leader now rs s t c ended is =
    let zero_add : 0 + ballots rs ≡ ballots rs = omega arith in
    let out : Ended (ballots rs) s.current_num_nodes (ok done, t) =
      subst (Ended (ballots rs) s.current_num_nodes) ended (
        subst (λ n. Ended n s.current_num_nodes (election now rs s)) zero_add
          (rounds-Ended rs (start-Begins now s c))) in
    has_majority-meaning (ballots rs) s.current_num_nodes (out is)
