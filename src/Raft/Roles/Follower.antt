-- ===== src/Raft/Roles/Follower.antt =====
-- How a round of `_follower` in src/raft/raft.py may end.
use cs525_project.Common.{
  ℕ, ◌-◌, ◌<◌, ◌==◌, ◌≡◌, refl, ◌⊎◌, inl, inr, Bool-cases, Option, none, some, arith, Result, ok,
  err, ltb, ltb→lt,
}
use cs525_project.Protocol.{
  AppendEntriesMessage, Message, request_votes_message, append_entries_message,
}
use cs525_project.Protocol.MessageType
use cs525_project.Protocol.MessageDirection
use cs525_project.Raft.State.{RaftNode, Action, candidate, continue, pure, ◌>>◌, ◌>>=◌}
use cs525_project.Raft.Log.{set_current_role}
use cs525_project.Raft.Follower.{
  on_heartbeat, see_term, on_append_entries, on_committal, follower_message, follower_receive,
  follower_timeout, follower_round,
}
use cs525_project.Raft.Relates.{Relates}
use cs525_project.Raft.Frame.{keeping}
use cs525_project.Raft.Rounds.Follower.{
  forward_request-Keeps, on_append_entries-Keeps, on_committal-Keeps,
}
use cs525_project.Raft.Roles.{see_term-role, on_request_votes-role}
use cs525_project.Raft.Roles.Ends.{Ends, Ends-in, Ends-if}

on_heartbeat-role :
    (m : AppendEntriesMessage) (s : RaftNode) → (on_heartbeat m s).current_role ≡ s.current_role
unfolding on_heartbeat
on_heartbeat-role m s =
    let s' : RaftNode = record (see_term m.term s) { leader_id = m.leader_id } in
    ground (arith, see_term-role m.term s, (forward_request-Keeps m.leader_id s').same_role)

-- The time from which a follower counts: what it was, or the time of the round.
abbrev Since : ℕ → ℕ → Result ℕ → Type 0
Since now last (ok time) = (time ≡ last) ⊎ (time ≡ now)
Since now last (err e) = Unit

-- What reading a message does to a follower: the role stays.
abbrev Follows : ℕ → ℕ → RaftNode → Result ℕ × RaftNode → Type 0
Follows now last s p = (p.1.current_role ≡ s.current_role) × Since now last p.0

kept_last :
    (now last : ℕ) (m : Action Unit) (s : RaftNode)
    → Relates keeping m
    → Follows now last s ((m >> pure last) s)
unfolding ◌>>=◌ pure
kept_last now last m s h = by_result (m s).0 (m s).1 (h.at s).same_role
  where
    by_result :
        (r : Result Unit) (t : RaftNode)
        → t.current_role ≡ s.current_role
        → Follows now last s (continue r (λ _. pure last) t)
    by_result (ok u) t e = (e, inl refl)
    by_result (err e') t e = (e, tt)

follower_message-Follows :
    (now last : ℕ) (m : Message) (s : RaftNode)
    → Ends (Follows now last s) (follower_message now last m s)
unfolding follower_message
follower_message-Follows now last (request_votes_message m) s =
    Ends-if (m.direction == MessageDirection.request) _ _
      (λ _. Ends-in _ (on_request_votes-role m s, inr refl)) (Ends-in _ (refl, inl refl))
follower_message-Follows now last (append_entries_message m) s =
    Ends-if (m.direction == MessageDirection.request) _ _
      (λ _.
        Ends-if (m.type_ == MessageType.heartbeat) _ _
          (λ _. Ends-in _ (on_heartbeat-role m s, inr refl))
          (Ends-if (m.type_ == MessageType.append_entries) _ _
            (λ _.
              Ends-in _ (kept_last now last (on_append_entries m) s (on_append_entries-Keeps m)))
            (Ends-if (m.type_ == MessageType.committal) _ _
              (λ _. Ends-in _ (kept_last now last (on_committal m) s (on_committal-Keeps m)))
              (Ends-in _ (refl, inl refl)))))
      (Ends-in _ (refl, inl refl))

follower_receive-Follows :
    (now last : ℕ) (incoming : Option Message) (s : RaftNode)
    → Follows now last s (follower_receive now last incoming s)
unfolding follower_receive
follower_receive-Follows now last none s = (refl, inl refl)
follower_receive-Follows now last (some m) s = (follower_message-Follows now last m s).holds

-- A follower that has become a candidate has heard nothing for longer than its timeout.
pub record IsOver (now later last : ℕ) (s : RaftNode) : Type 0 where
  pub role : s.current_role ≡ candidate
  pub since : ℕ
  pub counted : (since ≡ last) ⊎ (since ≡ now)
  pub late : s.election_timeout < later - since

pub follower_round-IsOver :
    (now later : ℕ) (incoming : Option Message) (last : ℕ) (s : RaftNode)
    → let s' = (follower_round now later incoming last s).1 in
      (s'.current_role ≡ s.current_role) ⊎ IsOver now later last s'
unfolding follower_round follower_timeout set_current_role ◌>>=◌
follower_round-IsOver now later incoming last s =
    by_result (follower_receive now last incoming s).0 (follower_receive now last incoming s).1
      (follower_receive-Follows now last incoming s)
  where
    by_result :
        (r : Result ℕ) (t : RaftNode)
        → Follows now last s (r, t)
        → let s' = (continue r (follower_timeout later) t).1 in
          (s'.current_role ≡ s.current_role) ⊎ IsOver now later last s'
    by_result (err e) t h = inl h.0
    by_result (ok time) t h = elim (Bool-cases (ltb t.election_timeout (later - time))) [
      | inr n ↦ rw n (inl h.0)
      | inl y ↦
          rw y (inr (record { role = refl; since = time; counted = h.1; late = ltb→lt _ _ y }))
    ]
