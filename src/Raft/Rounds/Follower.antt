-- ===== src/Raft/Rounds/Follower.antt =====
-- Each round of a follower makes the term and the votes grow.
use cs525_project.Common.{
  ℕ, String, Bool, true, false, Option, none, some, arith, Bool-cases, Option-cases, inl, inr,
}
use cs525_project.Protocol.{
  Entry, AppendEntriesMessage, Message, request_votes_message, append_entries_message,
}
use cs525_project.Raft.State.{RaftNode, Role, pure, raise, ◌>>◌}
use cs525_project.Raft.Send.{send_client_request}
use cs525_project.Raft.Client.{get_client_request}
use cs525_project.Raft.Follower.{
  forward_request, on_heartbeat, truthy, see_term, accept_entries, on_verified, on_append_entries,
  on_committal, follower_message, follower_receive, follower_timeout, follower_round,
}
use cs525_project.Raft.Relates.{Relates, relates_rules, Relates-bind}
use cs525_project.Raft.Frame.{
  Keeps, Keeps-refl, Keeps-trans, keeping, get_client_request-Keeps, send_client_request-Keeps,
  send_acknowledge-Keeps, append_entry-Keeps, commit_entry-Keeps,
}
use cs525_project.Raft.Grows.{
  Grows, Grows-refl, Grows-trans, growing, Keeps-Grows, Relates-Grows, set_current_role-Grows,
  see_term-Grows, on_request_votes-Grows,
}

-- The follower.
pub leader_id-Keeps :
    (leader : Option String) (s : RaftNode) → Keeps s (record s { leader_id = leader })
leader_id-Keeps leader s = ground arith

forwarded-Keeps :
    (leader : Option String) (request : Option Entry) (s : RaftNode)
    → Keeps s (elim request [ none ↦ s | some e ↦ send_client_request leader e s ])
forwarded-Keeps leader none s = Keeps-refl s
forwarded-Keeps leader (some e) s = send_client_request-Keeps leader e s

pub forward_request-Keeps :
    (leader : Option String) (s : RaftNode) → Keeps s (forward_request leader s)
unfolding forward_request
forward_request-Keeps leader s =
    let (request, s') = get_client_request s in
    Keeps-trans s s' _ (get_client_request-Keeps s) (forwarded-Keeps leader request s')

on_heartbeat-Grows : (m : AppendEntriesMessage) (s : RaftNode) → Grows s (on_heartbeat m s)
unfolding on_heartbeat
on_heartbeat-Grows m s =
    let s1 = see_term m.term s in
    let s2 : RaftNode = record s1 { leader_id = m.leader_id } in
    let known =
      Grows-trans s s1 s2 (see_term-Grows m.term s)
        (Keeps-Grows s1 s2 (leader_id-Keeps m.leader_id s1)) in
    elim (Bool-cases (truthy m.leader_id)) [
      | inl e ↦
          rw e (Grows-trans s s2 _ known (Keeps-Grows s2 _ (forward_request-Keeps m.leader_id s2)))
      | inr e ↦ rw e known
    ]

ruleset replies = (relates_rules, append_entry-Keeps, send_acknowledge-Keeps)

accept_entries-Keeps :
    (m : AppendEntriesMessage) (entries : Option Entry) → Relates keeping (accept_entries m entries)
unfolding accept_entries
accept_entries-Keeps m none = search replies
accept_entries-Keeps m (some entry) = search replies depth 8

on_verified-Keeps :
    (m : AppendEntriesMessage) (verified : Bool) → Relates keeping (on_verified m verified)
unfolding on_verified
on_verified-Keeps m false = search replies
on_verified-Keeps m true = accept_entries-Keeps m m.entries

pub on_append_entries-Keeps : (m : AppendEntriesMessage) → Relates keeping (on_append_entries m)
unfolding on_append_entries
on_append_entries-Keeps m = search (replies, on_verified-Keeps) depth 8

on_append_entries-Grows : (m : AppendEntriesMessage) → Relates growing (on_append_entries m)
on_append_entries-Grows m = Relates-Grows (on_append_entries-Keeps m)

pub on_committal-Keeps : (m : AppendEntriesMessage) → Relates keeping (on_committal m)
unfolding on_committal raise
on_committal-Keeps m = record {
  at = λ s. elim (Option-cases m.prev_log_index) [
    | inl e ↦ rw e (Keeps-refl s)
    | inr (index, e) ↦ rw e (elim (Option-cases m.prev_log_term) [
      | inl e' ↦ rw e' (Keeps-refl s)
      | inr (term, e') ↦ rw e' (commit_entry-Keeps index term s)
    ])
  ];
}

on_committal-Grows : (m : AppendEntriesMessage) → Relates growing (on_committal m)
on_committal-Grows m = Relates-Grows (on_committal-Keeps m)

ruleset grows_rules = (relates_rules, Grows-refl, set_current_role-Grows)

follower_message-Grows :
    (now last : ℕ) (m : Message) → Relates growing (follower_message now last m)
unfolding follower_message
follower_message-Grows now last (request_votes_message m) = record {
  at = λ s. ground (arith, Grows-refl s, on_request_votes-Grows m s);
}
follower_message-Grows now last (append_entries_message m) = record {
  at = λ s.
      let appended : Relates growing (on_append_entries m >> pure last) =
        search (relates_rules, on_append_entries-Grows m) in
      let committed : Relates growing (on_committal m >> pure last) =
        search (relates_rules, on_committal-Grows m) in
      ground (arith, Grows-refl s, on_heartbeat-Grows m s, appended.at s, committed.at s);
}

follower_receive-Grows :
    (now last : ℕ) (incoming : Option Message)
    → Relates growing (follower_receive now last incoming)
unfolding follower_receive
follower_receive-Grows now last none = record { at = Grows-refl }
follower_receive-Grows now last (some m) = record { at = (follower_message-Grows now last m).at }

follower_timeout-Grows : (now last : ℕ) → Relates growing (follower_timeout now last)
unfolding follower_timeout
follower_timeout-Grows now last = record {
  at = λ s. ground (arith, Grows-refl s, set_current_role-Grows Role.candidate s);
}

pub follower_round-Grows :
    (now later : ℕ) (incoming : Option Message) (last : ℕ)
    → Relates growing (follower_round now later incoming last)
unfolding follower_round
follower_round-Grows now later incoming last =
    Relates-bind _ _ (follower_receive-Grows now last incoming) (follower_timeout-Grows later)
