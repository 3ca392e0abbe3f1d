-- ===== src/Raft/Roles/Candidate.antt =====
-- How a round of `_candidate` in src/raft/raft.py may end.
use mathlib.Core.Path.{subst}
use cs525_project.Common.{
  ℕ, ◌+◌, ◌/◌, if◌then◌else◌, ◌-◌, ◌≤◌, ◌<◌, ◌==◌, ◌≡◌, refl, sym, ◌∙◌, ◌⊎◌, inl, inr, Bool, true,
  Bool-cases, Option, none, some, arith, Result, ok, err, ltb, ltb→lt, leb, leb→le,
}
use cs525_project.Protocol.{
  RequestVotesResults, AppendEntriesResults, Results, votes, appends, RequestVotesMessage,
  AppendEntriesMessage, Message, request_votes_message, append_entries_message,
}
use cs525_project.Protocol.MessageType
use cs525_project.Protocol.MessageDirection
use cs525_project.Raft.State.{RaftNode, follower, candidate, leader, continue, raise, ◌>>=◌}
use cs525_project.Raft.Log.{set_current_role, increment_term}
use cs525_project.Raft.Send.{send_vote, send_message}
use cs525_project.Raft.Follower.{Flow, again, done}
use cs525_project.Raft.Candidate.{
  Election, has_majority, is_granted, tally, on_vote, yield_vote, yield_leader, candidate_message,
  candidate_receive, candidate_timeout, candidate_round,
}
use cs525_project.Raft.Ballot.{has_majority-meaning}
use cs525_project.Raft.Roles.Ends.{Ends, Ends-in, Ends-if}

-- A candidate that has won has, with the response that it has read, votes of more than half of the nodes,
-- or is the only node.
pub record HasWon (e : Election) (s : RaftNode) : Type 0 where
  pub role : s.current_role ≡ leader
  pub granted : Bool
  pub total : ℕ
  pub counted : total ≡ (if granted then e.votes_for_me + 1 else e.votes_for_me)
  pub majority : (s.current_num_nodes / 2 < total) ⊎ (s.current_num_nodes ≡ 1)

-- How an election may end: the candidate has won, or it yields for a term that is not lower.
abbrev pub Elects : Election → RaftNode → RaftNode → Type 0
Elects e s t =
    (t.current_role ≡ s.current_role)
    ⊎ (HasWon e t ⊎ ((t.current_role ≡ follower) × (s.current_term ≤ t.current_term)))

Results-cases :
    (x : Results)
    → ((r : AppendEntriesResults) × (x ≡ appends r)) ⊎ ((r : RequestVotesResults) × (x ≡ votes r))
Results-cases (appends r) = inl (r, refl)
Results-cases (votes r) = inr (r, refl)

on_vote-Elects :
    (m : RequestVotesMessage) (e : Election) (s : RaftNode) → Elects e s (on_vote m e s).1
unfolding on_vote raise set_current_role
on_vote-Elects m e s = elim (Results-cases m.results) [
  | inl (r, is) ↦ rw is (inl refl)
  | inr (r, is) ↦
      elim (Bool-cases
        (has_majority (tally (is_granted r.vote_granted) e).votes_for_me s.current_num_nodes)) [
          | inl y ↦
              rw (is, y)
                (inr (
                  inl (record {
                    role = refl;
                    granted = is_granted r.vote_granted;
                    total = _;
                    counted = refl;
                    majority =
                        has_majority-meaning (tally (is_granted r.vote_granted) e).votes_for_me
                          s.current_num_nodes y;
                  })))
          | inr n ↦ rw (is, n) (inl refl)
        ]
]

pub yield_vote-down :
    (m : RequestVotesMessage) (s : RaftNode)
    → ltb s.current_term m.term ≡ true
    → ((yield_vote m s).current_role ≡ follower) × (s.current_term < (yield_vote m s).current_term)
unfolding yield_vote send_vote send_message increment_term set_current_role
yield_vote-down m s y = (refl, ltb→lt _ _ y)

yield_vote-role :
    (m : RequestVotesMessage) (s : RaftNode)
    → ltb s.current_term m.term ≡ true
    → ((yield_vote m s).current_role ≡ follower) × (s.current_term ≤ (yield_vote m s).current_term)
yield_vote-role m s y = let (r, up) = yield_vote-down m s y in (r, omega (arith, up))

yield_leader-role :
    (m : AppendEntriesMessage) (s : RaftNode)
    → leb s.current_term m.term ≡ true
    → ((yield_leader m s).current_role ≡ follower)
      × (s.current_term ≤ (yield_leader m s).current_term)
unfolding yield_leader increment_term set_current_role
yield_leader-role m s y = (refl, leb→le _ _ y)

candidate_message-Ends :
    (m : Message) (e : Election) (s : RaftNode)
    → Ends (λ p. Elects e s p.1) (candidate_message m e s)
unfolding candidate_message
candidate_message-Ends (request_votes_message m) e s =
    Ends-if (m.direction == MessageDirection.response) _ _ (λ _. Ends-in _ (on_vote-Elects m e s))
      (Ends-if (m.direction == MessageDirection.request) _ _
        (λ _.
          Ends-if (ltb s.current_term m.term) _ _
            (λ y. Ends-in _ (inr (inr (yield_vote-role m s y)))) (Ends-in _ (inl refl)))
        (Ends-in _ (inl refl)))
candidate_message-Ends (append_entries_message m) e s =
    Ends-if (m.direction == MessageDirection.request) _ _
      (λ _.
        Ends-if (m.type_ == MessageType.heartbeat) _ _
          (λ _.
            Ends-if (leb s.current_term m.term) _ _
              (λ y. Ends-in _ (inr (inr (yield_leader-role m s y)))) (Ends-in _ (inl refl)))
          (Ends-in _ (inl refl)))
      (Ends-in _ (inl refl))

candidate_receive-Elects :
    (incoming : Option Message) (e : Election) (s : RaftNode)
    → Elects e s (candidate_receive incoming e s).1
unfolding candidate_receive
candidate_receive-Elects none e s = inl refl
candidate_receive-Elects (some m) e s = (candidate_message-Ends m e s).holds

-- The test for the end of the time.
candidate_timeout-role :
    (now : ℕ) (flow : Flow Election) (s : RaftNode)
    → let t = (candidate_timeout now flow s).1 in (t.current_role ≡ candidate) ⊎ (t ≡ s)
unfolding candidate_timeout set_current_role
candidate_timeout-role now done s = inr refl
candidate_timeout-role now (again e) s =
    elim (Bool-cases (ltb s.election_timeout (now - e.time_election_going))) [
      | inl y ↦ rw y (inl refl)
      | inr n ↦ rw n (inr refl)
    ]

pub candidate_round-Elects :
    (now : ℕ) (incoming : Option Message) (e : Election) (s : RaftNode)
    → s.current_role ≡ candidate
    → Elects e s (candidate_round now incoming e s).1
unfolding candidate_round ◌>>=◌
candidate_round-Elects now incoming e s own =
    by_result (candidate_receive incoming e s).0 (candidate_receive incoming e s).1
      (candidate_receive-Elects incoming e s)
  where
    by_result :
        (r : Result (Flow Election)) (t : RaftNode)
        → Elects e s t
        → Elects e s (continue r (candidate_timeout now) t).1
    by_result (err x) t h = h
    by_result (ok flow) t h = elim (candidate_timeout-role now flow t) [
      | inl late ↦ inl (late ∙ sym own)
      | inr same ↦ subst (Elects e s) (sym same) h
    ]
