-- ===== src/Raft/Leader.antt =====
-- src/raft/raft.py: `_leader`, its start and one round of its loop, with `_broadcast_append_entries`
-- and `_broadcast_commmit_entries`. Entries of `next_index` are at least 1, so that `index - 1` is
-- no negative index.
use cs525_project.Common.{
  ℕ, ◌+◌, ◌-◌, zero, suc, String, Bool, true, false, Option, none, some, List, [], ◌∷◌, negsuc,
  Result, ok, err, type_error, attribute_error, index_error, get_elem?, item, length, set,
  replicate, leb, ltb, ◌==◌, if◌then◌else◌,
}
use cs525_project.Json.{str}
use cs525_project.Protocol.{
  Entry, Results, votes, appends, AppendEntriesMessage, Message, request_votes_message,
  append_entries_message,
}
use cs525_project.Protocol.MessageType
use cs525_project.Protocol.MessageDirection
use cs525_project.Raft.State.{
  RaftNode, heartbeat_frequency, resend_time, Action, pure, raise, gets, reads, modify, ◌>>=◌, ◌>>◌,
}
use cs525_project.Raft.Send.{send_heartbeat, send_append_entries, send_committal}
use cs525_project.Raft.Log.{get_node_index, log_max_index, append_entry, commit_entry}
use cs525_project.Raft.Client.{get_client_request}
use cs525_project.Raft.Follower.{Flow, again, done}
use cs525_project.Raft.Candidate.{is_granted, yield_vote}
use cs525_project.Raft.Committable.{max_committable_index}

abbrev pub set_next : ℕ → Option ℕ → RaftNode → RaftNode
set_next node index s = record s { next_index = set s.next_index node index }

-- `self.next_index[node] = index`, `self.match_index[node] = index`, `self.heard_from[node] = now`
unfoldable pub assign_next : ℕ → Option ℕ → Action Unit
assign_next node index s =
    if ltb node (length s.next_index) then (ok tt, set_next node index s) else raise index_error s

unfoldable pub assign_match : ℕ → ℕ → Action Unit
assign_match node index s =
    if ltb node (length s.match_index)
    then (ok tt, record s { match_index = set s.match_index node index })
    else raise index_error s

unfoldable pub assign_heard : ℕ → ℕ → Action Unit
assign_heard node now s =
    if ltb node (length s.heard_from)
    then (ok tt, record s { heard_from = set s.heard_from node now })
    else raise index_error s

-- A node that is up to date is sent the entry, and is out of date from then on.
unfoldable pub send_to_node : ℕ → ℕ → Entry → ℕ → Action Unit
send_to_node prev_index prev_term entry node = do
  address ← reads (λ s. item s.all_ids node)
  modify (send_append_entries prev_index prev_term entry (some address))
  top ← gets log_max_index
  assign_next node (some top)

-- The loop of `_broadcast_append_entries` over the nodes, from number `node` on. `next_index` is
-- assigned at the position that is being visited only, so the list can be read in advance.
unfoldable pub send_to_current : ℕ → ℕ → Entry → ℕ → List (Option ℕ) → Action Unit
send_to_current prev_index prev_term entry node [] = pure tt
send_to_current prev_index prev_term entry node (some _ ∷ rest) =
    send_to_current prev_index prev_term entry (suc node) rest
send_to_current prev_index prev_term entry node (none ∷ rest) =
    send_to_node prev_index prev_term entry node
    >> send_to_current prev_index prev_term entry (suc node) rest

-- `_broadcast_append_entries`
unfoldable pub broadcast_append_entries : Entry → Action Unit
broadcast_append_entries entry = do
  prev ← append_entry entry false none
  nodes ← gets (λ s. s.next_index)
  send_to_current prev.0 prev.1 entry 0 nodes
  me ← reads (λ s. get_node_index s.my_id s)
  assign_next me none
  top ← gets log_max_index
  assign_match me top

-- One round of the loop of `_broadcast_commmit_entries`. Its variable `index` hides the argument, so
-- that the test compares an entry of `match_index` with itself.
unfoldable pub send_committal_to : ℕ → ℕ → Action Unit
send_committal_to node index =
    if leb index index
    then (do address ← reads (λ s. item s.all_ids node); modify (send_committal index address))
    else pure tt

unfoldable pub send_committals : ℕ → List ℕ → Action Unit
send_committals node [] = pure tt
send_committals node (index ∷ rest) =
    send_committal_to node index >> send_committals (suc node) rest

-- `_broadcast_commmit_entries`
unfoldable pub broadcast_commit_entries : ℕ → Action Unit
broadcast_commit_entries index = do
  entry ← reads (λ s. item s.log index)
  modify (commit_entry index entry.term)
  nodes ← gets (λ s. s.match_index)
  send_committals 0 nodes

-- An entry of the log, and the term of the one before it, sent to one node.
unfoldable pub send_entry : ℕ → Option String → Action Unit
send_entry index receiver = do
  prev ← reads (λ s. item s.log (index - 1))
  entry ← reads (λ s. item s.log index)
  modify (send_append_entries (index - 1) prev.term entry receiver)

-- `[time.time() for _ in range(n)]`, from number k on
unfoldable pub times : (ℕ → ℕ) → ℕ → ℕ → List ℕ
times heard zero k = []
times heard (suc n) k = heard k ∷ times heard n (suc k)

-- "Assume all other nodes are up to date with your log", and the two assignments next to it
unfoldable pub reset_nodes : (ℕ → ℕ) → RaftNode → RaftNode
reset_nodes heard s = record s {
  leader_id = some s.my_id;
  match_index = replicate s.current_num_nodes s.commit_index;
  next_index = replicate s.current_num_nodes none;
  heard_from = times heard s.current_num_nodes 0;
}

abbrev pub leader_entry : ℕ → Entry
leader_entry term = record { term = term; entry = str "Leader Entry"; id = negsuc 0 }

-- What comes before the loop, started at the time `now`; `heard k` is the time that is noted for
-- node k.
unfoldable pub leader_start : ℕ → (ℕ → ℕ) → Action ℕ
leader_start now heard = do
  modify send_heartbeat
  modify (reset_nodes heard)
  term ← gets (λ s. s.current_term)
  broadcast_append_entries (leader_entry term)
  pure now

-- The readings of the clock in one round of the loop, one for each place where the source takes
-- one; those of the loop over the nodes are taken for each node.
pub record LeaderClock : Type 0 where
  pub check : ℕ
  pub beat : ℕ
  pub resend_check : ℕ → ℕ
  pub resend_at : ℕ → ℕ
  pub ack : ℕ

-- "First, send a heartbeat"
unfoldable pub beat : LeaderClock → ℕ → Action ℕ
beat c last s =
    if ltb heartbeat_frequency (c.check - last) then (ok c.beat, send_heartbeat s) else (ok last, s)

unfoldable pub is_silent : LeaderClock → ℕ → RaftNode → Result Bool
is_silent c node s = elim (get_elem? s.heard_from node) [
  | none ↦ err index_error
  | some heard ↦ ok (ltb resend_time (c.resend_check node - heard))
]

-- One node that is not up to date: its turn comes when it has not been heard from for a while.
unfoldable pub resend_to : LeaderClock → ℕ → ℕ → Action Unit
resend_to c node index = do
  silent ← reads (is_silent c node)
  if silent
      then (do
        address ← reads (λ s. item s.all_ids node)
        send_entry index (some address)
        assign_heard node (c.resend_at node))
      else pure tt

-- The loop that sends again to the nodes that have not answered.
unfoldable pub resend : LeaderClock → ℕ → List (Option ℕ) → Action Unit
resend c node [] = pure tt
resend c node (none ∷ rest) = resend c (suc node) rest
resend c node (some index ∷ rest) = resend_to c node index >> resend c (suc node) rest

-- `results.success`; the other class has no such attribute.
unfoldable pub is_success : Results → Result Bool
is_success (votes _) = err attribute_error
is_success (appends r) = ok (is_granted r.success)

-- The index to send next after an answer.
abbrev pub next_after : Bool → ℕ → ℕ
next_after true index = index + 1
next_after false index = if index == 1 then index else index - 1

-- "Are there more entries to send to bring this node up to date?"
unfoldable pub send_more : ℕ → ℕ → Option String → Action Unit
send_more node index sender s =
    if ltb (log_max_index s) index then assign_next node none s else send_entry index sender s

-- "If there's a new committable index, then send the commit"
unfoldable pub try_commit : Action Unit
try_commit s =
    let index = max_committable_index s.current_num_nodes s.match_index in
    if ltb s.commit_index index then broadcast_commit_entries index s else (ok tt, s)

-- An answer of node `node` while index `index` was sent to it.
unfoldable pub on_answer : ℕ → ℕ → AppendEntriesMessage → Action Unit
on_answer node index m = do
  success ← reads (λ _. is_success m.results)
  if success then assign_match node index else pure tt
  assign_next node (some (next_after success index))
  send_more node (next_after success index) (some m.sender)
  try_commit

-- "If you haven't already gotten a positive ack for this operation"
unfoldable pub answer_found : ℕ → AppendEntriesMessage → Option ℕ → Action Unit
answer_found node m none = pure tt
answer_found node m (some index) = on_answer node index m

-- "Incoming message is an ack", at the time `now`
unfoldable pub on_acknowledge : ℕ → AppendEntriesMessage → Action Unit
on_acknowledge now m = do
  node ← reads (get_node_index m.sender)
  assign_heard node now
  found ← reads (λ s. item s.next_index node)
  answer_found node m found

-- A client request that a follower sent on.
unfoldable pub on_client_request : AppendEntriesMessage → Action Unit
on_client_request m s = elim m.entries [
  | none ↦ raise type_error s
  | some entry ↦ broadcast_append_entries entry s
]

unfoldable pub leader_message : LeaderClock → ℕ → Message → Action (Flow ℕ)
leader_message c last (append_entries_message m) s =
    if m.direction == MessageDirection.response
    then (if m.type_ == MessageType.acknowledge
        then (on_acknowledge c.ack m >> pure (again last)) s
        else if m.type_ == MessageType.client_request
        then (on_client_request m >> pure (again last)) s
        else (ok (again last), s))
    else (ok (again last), s)
leader_message c last (request_votes_message m) s =
    if m.direction == MessageDirection.request
    then (if ltb s.current_term m.term then (ok done, yield_vote m s) else (ok (again last), s))
    else (ok (again last), s)

unfoldable pub leader_receive : LeaderClock → Option Message → ℕ → Action (Flow ℕ)
leader_receive c none last s = (ok (again last), s)
leader_receive c (some m) last s = leader_message c last m s

-- A request of a client, if there is one, is broadcast.
unfoldable pub serve_request : ℕ → Option Entry → Action (Flow ℕ)
serve_request last none = pure (again last)
serve_request last (some e) = broadcast_append_entries e >> pure (again last)

-- "Get any pending client requests", unless the method has returned.
unfoldable pub leader_requests : Flow ℕ → Action (Flow ℕ)
leader_requests done s = (ok done, s)
leader_requests (again last) s =
    let (request, s') = get_client_request s in serve_request last request s'

-- One round of the loop.
unfoldable pub leader_round : LeaderClock → Option Message → ℕ → Action (Flow ℕ)
leader_round c incoming last = do
  last' ← beat c last
  nodes ← gets (λ s. s.next_index)
  resend c 0 nodes
  flow ← leader_receive c incoming last'
  leader_requests flow
