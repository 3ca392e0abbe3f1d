-- ===== src/Raft/Rounds/Candidate.antt =====
-- Each round of a candidate makes the term and the votes grow, unless it hears a heartbeat of its own
-- term: there the vote of that term is cleared.
use cs525_project.Common.{
  ◌&&◌, get_elem?, ℕ, ◌≤◌, ◌<◌, ◌≡◌, refl, ◌∙◌, Bool, true, false, Option, none, some, arith,
  Bool-cases, inl, inr, ◌==◌,
}
use cs525_project.Protocol.{
  RequestVotesMessage, AppendEntriesMessage, Message, request_votes_message, append_entries_message,
}
use cs525_project.Protocol.MessageType
use cs525_project.Protocol.MessageDirection
use cs525_project.Raft.State.{RaftNode, Role, raise}
use cs525_project.Raft.Send.{send_message, send_request_vote}
use cs525_project.Raft.Log.{set_current_role, increment_term}
use cs525_project.Raft.Follower.{Flow, again, done}
use cs525_project.Raft.Candidate.{
  candidate_start, on_vote, yield_leader, candidate_message, candidate_receive, candidate_timeout,
  candidate_round,
}
use cs525_project.Raft.Rounds.Follower.{leader_id-Keeps}
use cs525_project.Raft.Candidate.{Election}
use cs525_project.Raft.Relates.{Relation, Relates, bind-holds}
use cs525_project.Raft.Grows.{
  Grows, Grows-refl, increment_term-Grows, Grows-trans, growing, Keeps-Grows,
  set_current_role-Grows, yield_vote-Grows, next_term-Grows, send_request_vote-Grows,
  send_vote-Grows,
}

-- A heartbeat of the term that the node is in.
abbrev pub is_own_heartbeat : Message → RaftNode → Bool
is_own_heartbeat (request_votes_message m) s = false
is_own_heartbeat (append_entries_message m) s =
    m.direction == MessageDirection.request
    && (m.type_ == MessageType.heartbeat && m.term == s.current_term)

abbrev pub hears_own : Option Message → RaftNode → Bool
hears_own none s = false
hears_own (some m) s = is_own_heartbeat m s

pub candidate_start-Grows : (now : ℕ) (s : RaftNode) → Grows s (candidate_start now s).1
unfolding candidate_start
candidate_start-Grows now s =
    let s1 = increment_term none s in
    let s2 = send_request_vote none s1 in
    Grows-trans s s1 _ (next_term-Grows s) (
      Grows-trans s1 s2 _ (send_request_vote-Grows none s1)
        (send_vote-Grows s2.my_id true s2 (λ _. fresh s)))
  where
    fresh : (s : RaftNode) → (send_request_vote none (increment_term none s)).voted_for ≡ none
    fresh s = unfold send_request_vote increment_term send_message in refl

on_vote-Grows : (m : RequestVotesMessage) (e : Election) → Relates growing (on_vote m e)
unfolding on_vote raise
on_vote-Grows m e = record {
  at = λ s. ground (arith, Grows-refl s, set_current_role-Grows Role.leader s);
}

yield_leader-Grows :
    (m : AppendEntriesMessage) (s : RaftNode) → s.current_term < m.term → Grows s (yield_leader m s)
unfolding yield_leader
yield_leader-Grows m s h =
    let s1 = increment_term (some m.term) s in
    let s2 : RaftNode = record s1 { leader_id = m.leader_id } in
    Grows-trans s s1 _ (increment_term-Grows m.term s h) (
      Grows-trans s1 s2 _ (Keeps-Grows s1 s2 (leader_id-Keeps m.leader_id s1))
        (set_current_role-Grows Role.follower s2))

candidate_message-Grows :
    (m : Message) (e : Election) (s : RaftNode)
    → is_own_heartbeat m s ≡ false
    → Grows s (candidate_message m e s).1
unfolding candidate_message
candidate_message-Grows (request_votes_message m) e s h =
    ground (arith, Grows-refl s, (on_vote-Grows m e).at s, yield_vote-Grows m s)
candidate_message-Grows (append_entries_message m) e s h =
    ground (arith, Grows-refl s, yield_leader-Grows m s)

candidate_receive-Grows :
    (incoming : Option Message) (e : Election) (s : RaftNode)
    → hears_own incoming s ≡ false
    → Grows s (candidate_receive incoming e s).1
unfolding candidate_receive
candidate_receive-Grows none e s h = Grows-refl s
candidate_receive-Grows (some m) e s h = candidate_message-Grows m e s h

candidate_timeout-Grows :
    (now : ℕ) (flow : Flow Election) → Relates growing (candidate_timeout now flow)
unfolding candidate_timeout
candidate_timeout-Grows now done = record { at = Grows-refl }
candidate_timeout-Grows now (again e) = record {
  at = λ s. ground (arith, Grows-refl s, set_current_role-Grows Role.candidate s);
}

pub candidate_round-Grows :
    (now : ℕ) (incoming : Option Message) (e : Election) (s : RaftNode)
    → hears_own incoming s ≡ false
    → Grows s (candidate_round now incoming e s).1
unfolding candidate_round
candidate_round-Grows now incoming e s h =
    bind-holds _ _ s (candidate_receive-Grows incoming e s h) (candidate_timeout-Grows now)

-- What holds of the exception too: the term does not fall, and the log keeps its first entry.
pub record Later (s t : RaftNode) : Type 0 where
  pub term_le : s.current_term ≤ t.current_term
  pub same_first : get_elem? t.log 0 ≡ get_elem? s.log 0

pub Later-refl : (s : RaftNode) → Later s s
Later-refl s = record { term_le = omega arith; same_first = refl }

pub Later-trans : (s t u : RaftNode) → Later s t → Later t u → Later s u
Later-trans s t u h k = record { term_le = omega arith; same_first = k.same_first ∙ h.same_first }

abbrev pub later : Relation
later = record { holds = Later; same = Later-refl; chain = Later-trans }

pub Grows-Later : {s t : RaftNode} → Grows s t → Later s t
Grows-Later g = record { term_le = g.term_le; same_first = g.same_first }

own_heartbeat-Later :
    (m : Message) (e : Election) (s : RaftNode)
    → is_own_heartbeat m s ≡ true
    → Later s (candidate_message m e s).1
unfolding candidate_message yield_leader increment_term set_current_role
own_heartbeat-Later (request_votes_message m) e s h = cc
own_heartbeat-Later (append_entries_message m) e s h = ground arith

candidate_receive-Later :
    (incoming : Option Message) (e : Election) (s : RaftNode)
    → Later s (candidate_receive incoming e s).1
unfolding candidate_receive
candidate_receive-Later none e s = Later-refl s
candidate_receive-Later (some m) e s = elim (Bool-cases (is_own_heartbeat m s)) [
  | inl own ↦ own_heartbeat-Later m e s own
  | inr other ↦ Grows-Later (candidate_message-Grows m e s other)
]

-- No round of a candidate lowers the term or changes the first entry.
pub candidate_round-Later :
    (now : ℕ) (incoming : Option Message) (e : Election) (s : RaftNode)
    → Later s (candidate_round now incoming e s).1
unfolding candidate_round
candidate_round-Later now incoming e s =
    bind-holds {R = later} _ _ s (candidate_receive-Later incoming e s)
      (λ flow. record { at = λ s'. Grows-Later ((candidate_timeout-Grows now flow).at s') })
