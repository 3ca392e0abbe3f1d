-- ===== src/Raft/Follower.antt =====
-- src/raft/raft.py: `_follower`, one round of its loop. A message of the class
-- RequestVotesMessage is one of the type RequestVotes, as parsing makes it.
use cs525_project.Common.{
  ℕ, ◌-◌, String, Bool, true, false, not, ◌&&◌, Option, none, some, not_modelled, leb, ltb, ◌==◌,
  is_some, str_eq, if◌then◌else◌, ok,
}
use cs525_project.Protocol.{
  Entry, RequestVotesMessage, AppendEntriesMessage, Message, request_votes_message,
  append_entries_message,
}
use cs525_project.Protocol.MessageType
use cs525_project.Protocol.MessageDirection
use cs525_project.Raft.State.{
  RaftNode, candidate, Action, modify, pure, raise, gets, reads, ◌>>=◌, ◌>>◌,
}
use cs525_project.Raft.Send.{send_vote, send_acknowledge, send_client_request}
use cs525_project.Raft.Log.{
  set_current_role, increment_term, verify_entry, append_entry, commit_entry,
}
use cs525_project.Raft.Client.{get_client_request}

-- How a round of a role's loop ends: the loop goes on with its variables, or the method returns.
pub data Flow (A : Type 0) : Type 0 where
  again : A → Flow A
  done : Flow A

-- "If this election is for a new term, update your term"
unfoldable pub see_term : ℕ → RaftNode → RaftNode
see_term term s = if ltb s.current_term term then increment_term (some term) s else s

-- The test for a vote.
abbrev pub may_vote : RequestVotesMessage → RaftNode → Bool
may_vote m s =
    not (is_some s.voted_for)
    && (leb s.last_applied_index m.last_log_index && leb s.last_applied_term m.last_log_term)

-- A request for votes.
unfoldable pub on_request_votes : RequestVotesMessage → RaftNode → RaftNode
on_request_votes m s = let s' = see_term m.term s in send_vote m.sender (may_vote m s') s'

-- `if (self.leader_id)`: neither None nor the empty text
abbrev pub truthy : Option String → Bool
truthy none = false
truthy (some a) = not (str_eq a "")

-- The oldest client request goes to the leader.
unfoldable pub forward_request : Option String → RaftNode → RaftNode
forward_request leader s =
    let (request, s') = get_client_request s in
    elim request [ none ↦ s' | some e ↦ send_client_request leader e s' ]

-- A heartbeat.
unfoldable pub on_heartbeat : AppendEntriesMessage → RaftNode → RaftNode
on_heartbeat m s =
    let s' = record (see_term m.term s) { leader_id = m.leader_id } in
    if truthy m.leader_id then forward_request m.leader_id s' else s'

-- The last branch for an entry to append. A leader always names one; the code would cut the log, append
-- None and raise TypeError.
unfoldable pub accept_entries : AppendEntriesMessage → Option Entry → Action Unit
accept_entries m none = raise not_modelled
accept_entries m (some entry) = do
  commit ← gets (λ s. ltb s.commit_index m.leader_commit)
  append_entry entry commit m.prev_log_index
  modify (send_acknowledge m.leader_id true)

-- The branches after the entry before the new one has been looked up.
unfoldable pub on_verified : AppendEntriesMessage → Bool → Action Unit
on_verified m false = modify (send_acknowledge m.leader_id false)
on_verified m true = accept_entries m m.entries

-- An entry to append.
unfoldable pub on_append_entries : AppendEntriesMessage → Action Unit
on_append_entries m = do
  stale ← gets (λ s. ltb m.term s.current_term)
  if stale then modify (send_acknowledge m.leader_id false) else (do
    verified ← reads (verify_entry m.prev_log_index m.prev_log_term)
    on_verified m verified)

-- A commit message. The node that sends one always fills in both fields; the code would store None.
unfoldable pub on_committal : AppendEntriesMessage → Action Unit
on_committal m s = elim m.prev_log_index [
  | none ↦ raise not_modelled s
  | some index ↦ elim m.prev_log_term [
    | none ↦ raise not_modelled s
    | some term ↦ (ok tt, commit_entry index term s)
  ]
]

-- One message, read at the time `now`; the result is the time of the most recent heartbeat.
unfoldable pub follower_message : ℕ → ℕ → Message → Action ℕ
follower_message now last (request_votes_message m) s =
    if m.direction == MessageDirection.request then (ok now, on_request_votes m s) else (ok last, s)
follower_message now last (append_entries_message m) s =
    if m.direction == MessageDirection.request
    then (if m.type_ == MessageType.heartbeat
        then (ok now, on_heartbeat m s)
        else if m.type_ == MessageType.append_entries
        then (on_append_entries m >> pure last) s
        else if m.type_ == MessageType.committal
        then (on_committal m >> pure last) s
        else (ok last, s))
    else (ok last, s)

unfoldable pub follower_receive : ℕ → ℕ → Option Message → Action ℕ
follower_receive now last none s = (ok last, s)
follower_receive now last (some m) s = follower_message now last m s

-- The test for the timeout, at the time `now`.
unfoldable pub follower_timeout : ℕ → ℕ → Action (Flow ℕ)
follower_timeout now last s =
    if ltb s.election_timeout (now - last)
    then (ok done, set_current_role candidate s)
    else (ok (again last), s)

-- One round of the loop.
unfoldable pub follower_round : ℕ → ℕ → Option Message → ℕ → Action (Flow ℕ)
follower_round now now_later incoming last =
    follower_receive now last incoming >>= follower_timeout now_later
