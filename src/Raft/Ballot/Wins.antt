-- ===== src/Raft/Ballot/Wins.antt =====
-- A candidate that has enough votes in time becomes a leader.
use cs525_project.Common.{
  ℕ, ◌≢◌, ◌⊎◌, ◌+◌, ◌-◌, ◌/◌, ◌<◌, ◌≤◌, Bool, true, false, ◌≡◌, refl, inl, inr, Option, none, some,
  List, [], ◌∷◌, All, arith, ltb, ok, Bool-cases, if◌then◌else◌,
}
use cs525_project.Protocol.{
  RequestVotesResults, RequestVotesMessage, AppendEntriesMessage, Message, request_votes_message,
  append_entries_message, votes,
}
use cs525_project.Protocol.MessageDirection
use cs525_project.Protocol.MessageType
use cs525_project.Raft.State.{RaftNode, leader, ◌>>=◌}
use cs525_project.Raft.Log.{set_current_role, increment_term}
use cs525_project.Raft.Send.{send_vote, send_message, send_request_vote}
use cs525_project.Raft.Follower.{again, done}
use cs525_project.Raft.Candidate.{
  Election, candidate_start, is_granted, has_majority, tally, on_vote, candidate_message,
  candidate_receive, candidate_timeout, candidate_round,
}
use cs525_project.Raft.Ballot.{
  Round, grants_results, grants_message, ballots, candidate_rounds, election,
}

-- A vote, granted or not.
abbrev pub IsVote : RequestVotesMessage → Type 0
IsVote m =
    (m.direction ≡ MessageDirection.response) × (r : RequestVotesResults) × (m.results ≡ votes r)

-- What does not take a candidate of this term from its election: no message, a vote, a request for votes
-- of no higher term, such as the one that it has sent to all, its own included, and every other message
-- but a heartbeat of its own or a higher term.
abbrev pub Spares : ℕ → Option Message → Type 0
Spares term none = Unit
Spares term (some (request_votes_message m)) =
    IsVote m ⊎ ((m.direction ≡ MessageDirection.request) × (m.term ≤ term))
Spares term (some (append_entries_message m)) =
    (m.direction ≡ MessageDirection.response)
    ⊎ ((m.type_ ≢ MessageType.heartbeat) ⊎ (m.term < term))

-- A round that ends before the time is up, and reads nothing that takes the candidate from its election.
abbrev pub InTime : ℕ → ℕ → Round → Type 0
InTime deadline term r = (r.0 ≤ deadline) × Spares term r.1

module _ (deadline : ℕ) (e : Election) (s : RaftNode)
    (time : deadline ≡ e.time_election_going + s.election_timeout) where
  not_over :
      (now : ℕ) → now ≤ deadline → ltb s.election_timeout (now - e.time_election_going) ≡ false
  not_over now h = ground (arith, time)

  quiet_round : (now : ℕ) → now ≤ deadline → candidate_round now none e s ≡ (ok (again e), s)
  unfolding candidate_round candidate_receive candidate_timeout ◌>>=◌
  quiet_round now h = rw (not_over now h)

  -- A request for votes that is not answered.
  idle_round :
      (now : ℕ) (m : RequestVotesMessage)
      → now ≤ deadline
      → m.direction ≡ MessageDirection.request
      → m.term ≤ s.current_term
      → candidate_round now (some (request_votes_message m)) e s ≡ (ok (again e), s)
  unfolding candidate_round candidate_receive candidate_message candidate_timeout ◌>>=◌
  idle_round now m h d low =
      let stays : ltb s.current_term m.term ≡ false = ground (arith, low) in
      rw (d, stays, not_over now h)

  -- A message of the leader's class that is passed over.
  deaf :
      (m : AppendEntriesMessage)
      → Spares s.current_term (some (append_entries_message m))
      → candidate_message (append_entries_message m) e s ≡ (ok (again e), s)
  unfolding candidate_message
  deaf m h = ground (arith, h)

  deaf_round :
      (now : ℕ) (m : AppendEntriesMessage)
      → now ≤ deadline
      → Spares s.current_term (some (append_entries_message m))
      → candidate_round now (some (append_entries_message m)) e s ≡ (ok (again e), s)
  unfolding candidate_round candidate_receive candidate_timeout ◌>>=◌
  deaf_round now m h d = rw (deaf m d, not_over now h)

  -- A round with a vote.
  vote_round :
      (now : ℕ) (m : RequestVotesMessage) (r : RequestVotesResults)
      → now ≤ deadline
      → m.direction ≡ MessageDirection.response
      → m.results ≡ votes r
      → let e' = tally (is_granted r.vote_granted) e in
        candidate_round now (some (request_votes_message m)) e s ≡ (
          if has_majority e'.votes_for_me s.current_num_nodes
          then (ok done, set_current_role leader s)
          else (ok (again e'), s))
  unfolding candidate_round candidate_receive candidate_message on_vote candidate_timeout ◌>>=◌
  vote_round now m r h d v =
      elim (Bool-cases
        (has_majority (tally (is_granted r.vote_granted) e).votes_for_me s.current_num_nodes)) [
          | inl y ↦ rw (d, v, y)
          | inr n ↦ rw (d, v, n, not_over now h)
        ]

no_majority : (x nodes : ℕ) → has_majority x nodes ≡ false → x ≤ nodes / 2
no_majority x nodes h = ground arith

abbrev one_if : Bool → ℕ
one_if granted = if granted then 1 else 0

vote_counts :
    (m : RequestVotesMessage) (r : RequestVotesResults)
    → m.direction ≡ MessageDirection.response
    → m.results ≡ votes r
    → grants_message (some (request_votes_message m)) ≡ one_if (is_granted r.vote_granted)
unfolding grants_message grants_results
vote_counts m r d v = rw (d, v)

request_counts :
    (m : RequestVotesMessage)
    → m.direction ≡ MessageDirection.request
    → grants_message (some (request_votes_message m)) ≡ 0
unfolding grants_message
request_counts m d = rw d refl

tally_counts :
    (granted : Bool) (e : Election)
    → (tally granted e).votes_for_me ≡ e.votes_for_me + one_if granted
tally_counts true e = refl
tally_counts false e = omega arith

rounds_win :
    (deadline : ℕ) (rs : List Round) (e : Election) (s : RaftNode)
    → deadline ≡ e.time_election_going + s.election_timeout
    → All (InTime deadline s.current_term) rs
    → e.votes_for_me ≤ s.current_num_nodes / 2
    → s.current_num_nodes / 2 < e.votes_for_me + ballots rs
    → candidate_rounds rs e s ≡ (ok done, set_current_role leader s)
unfolding candidate_rounds ballots grants_message ◌>>=◌
rounds_win deadline [] e s time h few many = let no : ⊥ = omega (arith, few, many) in absurd no
rounds_win deadline ((now, none) ∷ rest) e s time h few many =
    rw (quiet_round deadline e s time now h.0.0)
      (rounds_win deadline rest e s time h.1 few (omega (arith, many)))
rounds_win deadline ((now, some (append_entries_message m)) ∷ rest) e s time h few many =
    rw (deaf_round deadline e s time now m h.0.0 h.0.1)
      (rounds_win deadline rest e s time h.1 few (omega (arith, many)))
rounds_win deadline ((now, some (request_votes_message m)) ∷ rest) e s time h few many =
    elim h.0.1 [
      | inr (d, low) ↦
          rw (idle_round deadline e s time now m h.0.0 d low)
            (rounds_win deadline rest e s time h.1 few (omega (arith, many, request_counts m d)))
      | inl (d, r, v) ↦
          (let granted = is_granted r.vote_granted in
            let round_eq = vote_round deadline e s time now m r h.0.0 d v in
            elim (Bool-cases (has_majority (tally granted e).votes_for_me s.current_num_nodes)) [
              | inl y ↦ rw (round_eq, y)
              | inr n ↦
                  rw (round_eq, n)
                    (rounds_win deadline rest (tally granted e) s time h.1
                      (no_majority (tally granted e).votes_for_me s.current_num_nodes n)
                      (omega (arith, many, tally_counts granted e, vote_counts m r d v)))
            ])
    ]

-- A candidate that reads, before its election timeout is over, granting votes that are more than half of
-- the nodes, ends its election as a leader, and until then the rounds change nothing but the count of the
-- votes, whatever else it reads but these: a request for votes of a higher term than its own, and a
-- heartbeat of its own term or a higher one. So its own request for votes, which it hears too, is no
-- obstacle, nor is any late message.
pub election-wins :
    (now : ℕ) (rs : List Round) (s : RaftNode)
    → All (InTime (now + s.election_timeout) (s.current_term + 1)) rs
    → s.current_num_nodes / 2 < ballots rs
    → election now rs s ≡ (ok done, set_current_role leader (candidate_start now s).1)
unfolding election candidate_start increment_term send_request_vote send_vote send_message
election-wins now rs s h many =
    rounds_win (now + s.election_timeout) rs (candidate_start now s).0 (candidate_start now s).1
      refl h (omega arith) (omega (arith, many))
