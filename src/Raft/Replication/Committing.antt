-- ===== src/Raft/Replication/Committing.antt =====
-- From the last acknowledgement of an entry to what `check_committed_entry` gives: `_leader`,
-- `_broadcast_commmit_entries` and `_follower`.
use mathlib.Core.List.{append-nil}
use cs525_project.Common.{
  ℕ, suc, ◌+◌, ◌-◌, ◌≤◌, ◌<◌, String, true, ◌≡◌, refl, sym, ◌∙◌, ap, some, none, List, [], ◌∷◌,
  ◌++◌, map, arith, length, length-set, get_elem?, get_elem?-set_self, lt-get_elem?, set, All,
  All-get_elem?, ok, lt→ltb,
}
use cs525_project.Json.{Value}
use cs525_project.Protocol.{
  Entry, AppendEntriesResults, AppendEntriesMessage, Message, append_entries_message,
  request_votes_message, appends, base_of,
}
use cs525_project.Protocol.MessageType
use cs525_project.Protocol.MessageDirection
use cs525_project.Raft.State.{RaftNode, ◌>>=◌, pure}
use cs525_project.Raft.Send.{send_committal, committal_message, send_message}
use cs525_project.Raft.Log.{commit_entry, get_node_index}
use cs525_project.Raft.Client.{check_committed_entry}
use cs525_project.Raft.Follower.{on_committal, follower_message}
use cs525_project.Raft.Committable.{max_committable_index}
use cs525_project.Raft.Committable.Least.{le-max_committable_index}
use cs525_project.Raft.Leader.{
  assign_next, assign_match, assign_heard, is_success, send_more, try_commit, on_answer,
  answer_found, on_acknowledge, send_committals, broadcast_commit_entries,
}
use cs525_project.Raft.Returns.{Returns, Returns-weaken}
use cs525_project.Raft.Replication.Broadcast.{
  send_committal-all_ids, send_committals-next, get_elem?-middle, snoc-append, length-snoc,
}

-- A request to commit this index.
abbrev pub IsCommittal : ℕ → Message → Type 0
IsCommittal index (request_votes_message m) = ⊥
IsCommittal index (append_entries_message m) =
    (m.direction ≡ MessageDirection.request)
    × (m.type_ ≡ MessageType.committal)
    × (m.prev_log_index ≡ some index)
    × (term : ℕ) × (m.prev_log_term ≡ some term)

-- What a node has sent since, and to whom: committals of the index that it has committed.
pub record Tells (index : ℕ) (log : List Entry) (before : List Message) (ids : List String)
    (t : RaftNode) : Type 0 where
  pub new : List Message
  pub log_eq : t.log ≡ log
  pub commit_eq : t.commit_index ≡ index
  pub outbox_eq : t.outbox ≡ before ++ new
  pub receivers_eq : map (λ m. (base_of m).receiver) new ≡ map some ids
  pub committals : All (IsCommittal index) new

-- One committal before the others.
one_more :
    (index : ℕ) (a : String) (rest : List String) (s t : RaftNode)
    → s.last_applied_index ≡ index
    → Tells index s.log (s.outbox ++ committal_message a s ∷ []) rest t
    → Tells index s.log s.outbox (a ∷ rest) t
one_more index a rest s t l told = record {
  new = committal_message a s ∷ told.new;
  log_eq = told.log_eq;
  commit_eq = told.commit_eq;
  outbox_eq = told.outbox_eq ∙ snoc-append s.outbox (committal_message a s) told.new;
  receivers_eq = ap (λ l. some a ∷ l) told.receivers_eq;
  committals = ((refl, refl, ap some l, s.last_applied_term, refl), told.committals);
}

committals-Tells :
    (index : ℕ) (before rest : List String) (node : ℕ) (indices : List ℕ) (s : RaftNode)
    → node ≡ length before
    → s.all_ids ≡ before ++ rest
    → length indices ≡ length rest
    → s.commit_index ≡ index
    → s.last_applied_index ≡ index
    → Returns (λ _ t. Tells index s.log s.outbox rest t) (send_committals node indices) s
unfolding send_committals pure send_committal send_message
committals-Tells index before [] node [] s at ids same c l = record {
  holds = record {
    new = [];
    log_eq = refl;
    commit_eq = c;
    outbox_eq = sym (append-nil s.outbox);
    receivers_eq = refl;
    committals = tt;
  };
}
committals-Tells index before (a ∷ rest) node [] s at ids same c l =
    let no : ⊥ = omega (arith, same) in absurd no
committals-Tells index before [] node (i ∷ is) s at ids same c l =
    let no : ⊥ = omega (arith, same) in absurd no
committals-Tells index before (a ∷ rest) node (i ∷ is) s at ids same c l =
    let found : get_elem? s.all_ids node ≡ some a = rw (ids, at) (get_elem?-middle before a rest) in
    let sent = send_committal i a s in
    let rest_told =
      committals-Tells index (before ++ a ∷ []) rest (suc node) is sent
        (ap suc at ∙ sym (length-snoc before a))
        (send_committal-all_ids i a s ∙ ids ∙ sym (snoc-append before a rest)) (omega (arith, same))
        c l in
    record {
      holds =
          rw (send_committals-next node i is a s found)
            ((Returns-weaken rest_told (λ _ t told. one_more index a rest s t l told)).holds);
    }

-- Committing an index of its log, a leader with an entry of `match_index` for each node commits it itself,
-- keeps its log, and sends one committal of that index to each node in the order of the address book, and
-- nothing else, whatever `match_index` says of the node: also to one that does not have the entry.
pub broadcast_commit_entries-Tells :
    (index : ℕ) (entry : Entry) (s : RaftNode)
    → get_elem? s.log index ≡ some entry
    → length s.match_index ≡ length s.all_ids
    → Returns (λ _ t. Tells index s.log s.outbox s.all_ids t) (broadcast_commit_entries index) s
unfolding broadcast_commit_entries ◌>>=◌ commit_entry
broadcast_commit_entries-Tells index entry s found same =
    let t = commit_entry index entry.term s in
    record {
      holds =
          rw found
            (committals-Tells index [] s.all_ids 0 s.match_index t refl refl same refl refl).holds;
    }

-- A follower that handles a committal.
follower_message-committed :
    (later last index : ℕ) (c : Message) (s : RaftNode)
    → IsCommittal index c
    → ((follower_message later last c s).0 ≡ ok last)
      × ((follower_message later last c s).1.commit_index ≡ index)
      × ((follower_message later last c s).1.log ≡ s.log)
unfolding follower_message on_committal commit_entry ◌>>=◌ pure
follower_message-committed later last index (request_votes_message m) s h = absurd h
follower_message-committed later last index (append_entries_message m) s (d, t, i, term, p) =
    rw (d, t, i, p) (refl, refl, refl)

-- The least of some numbers, one of which is `index`.
pub least-max_committable_index :
    (ms : List ℕ) (k index : ℕ)
    → get_elem? ms k ≡ some index
    → All (λ i. index ≤ i) ms
    → max_committable_index (length ms) ms ≡ index
least-max_committable_index ms k index found all =
    let some_one : 0 < length ms = omega (arith, lt-get_elem? ms k found) in
    let least = le-max_committable_index ms index some_one in
    let above =
      (le-max_committable_index ms (max_committable_index (length ms) ms) some_one).0
        (omega arith) in
    let bound =
      All-get_elem? (λ i. max_committable_index (length ms) ms ≤ i) ms k index above found in
    omega (arith, least.1 all, bound)

-- A leader that gets a positive answer to its last entry, from node `k`.
pub record Answered (m : AppendEntriesMessage) (k index : ℕ) (s : RaftNode) : Type 0 where
  pub sender_eq : get_node_index m.sender s ≡ ok k
  pub waiting : get_elem? s.next_index k ≡ some (some index)
  pub heard : k < length s.heard_from
  pub matched : k < length s.match_index
  pub result : AppendEntriesResults
  pub results_eq : m.results ≡ appends result
  pub success_eq : result.success ≡ some true
  pub top : length s.log ≡ suc index

module _ (now : ℕ) (m : AppendEntriesMessage) (k index : ℕ) (s : RaftNode)
    (a : Answered m k index s) where
  abbrev pub noted : RaftNode
  noted = record s {
    heard_from = set s.heard_from k now;
    match_index = set s.match_index k index;
    next_index = set (set s.next_index k (some (index + 1))) k none;
  }

  pub on_acknowledge-noted : on_acknowledge now m s ≡ try_commit noted
  unfolding on_acknowledge assign_heard answer_found on_answer is_success assign_match assign_next
      send_more ◌>>=◌ pure
  on_acknowledge-noted =
      let next_lt : k < length s.next_index = lt-get_elem? s.next_index k a.waiting in
      rw (
        a.sender_eq,
        lt→ltb k (length s.heard_from) a.heard,
        a.waiting,
        a.results_eq,
        a.success_eq,
        lt→ltb k (length s.match_index) a.matched,
        lt→ltb k (length s.next_index) next_lt,
        lt→ltb (length s.log - 1) (index + 1) (omega (arith, a.top)),
        lt→ltb k (length (set s.next_index k (some (index + 1))))
            (omega (arith, next_lt, length-set s.next_index k (some (index + 1)))),
      )

  committing :
      (entry : Entry)
      → get_elem? s.log index ≡ some entry
      → length s.match_index ≡ length s.all_ids
      → s.current_num_nodes ≡ length s.match_index
      → All (λ i. index ≤ i) (set s.match_index k index)
      → s.commit_index < index
      → Returns (λ _ t. Tells index s.log s.outbox s.all_ids t) (on_acknowledge now m) s
  unfolding try_commit
  committing entry found same nodes all new =
      let longer = length-set s.match_index k index in
      let counted : s.current_num_nodes ≡ length (set s.match_index k index) =
        omega (arith, nodes, longer) in
      let least : max_committable_index s.current_num_nodes (set s.match_index k index) ≡ index =
        rw counted (
          least-max_committable_index (set s.match_index k index) k index
            (get_elem?-set_self s.match_index k index a.matched) all) in
      record {
        holds =
            rw (on_acknowledge-noted, least, lt→ltb s.commit_index index new)
              ((broadcast_commit_entries-Tells index entry noted found
                (omega (arith, longer, same))).holds);
      }

pub check_committed-found :
    (index : ℕ) (entry : Entry) (t : RaftNode)
    → t.commit_index ≡ index
    → get_elem? t.log index ≡ some entry
    → check_committed_entry none t ≡ ok entry.entry
unfolding check_committed_entry
check_committed-found index entry t e found = rw (e, found)

-- What a committal does to a follower that has the entry.
abbrev pub Learns : ℕ → ℕ → Value → RaftNode → Message → Type 0
Learns later last value follower c =
    ((follower_message later last c follower).0 ≡ ok last)
    × (check_committed_entry none (follower_message later last c follower).1 ≡ ok value)

all_learn :
    (later last index : ℕ) (entry : Entry) (follower : RaftNode) (cs : List Message)
    → get_elem? follower.log index ≡ some entry
    → All (IsCommittal index) cs
    → All (Learns later last entry.entry follower) cs
all_learn later last index entry follower [] found h = tt
all_learn later last index entry follower (c ∷ cs) found h =
    let (returns, committed, log_eq) = follower_message-committed later last index c follower h.0 in
    (
      (
        returns,
        check_committed-found index entry (follower_message later last c follower).1 committed
            (rw log_eq found),
      ),
      all_learn later last index entry follower cs found h.1,
    )

-- What the leader gives to its caller, and tells the others.
abbrev pub Commits : ℕ → ℕ → Value → RaftNode → RaftNode → Unit {0} → RaftNode → Type 0
Commits later last value follower s done t =
    (check_committed_entry none t ≡ ok value)
    × (new : List Message) × (t.outbox ≡ s.outbox ++ new)
    × (map (λ m. (base_of m).receiver) new ≡ map some s.all_ids)
    × All (Learns later last value follower) new

-- A leader that handles a positive answer to the last entry of its log, after which every node has been
-- noted to have this entry, which is not committed yet: the call returns; from then on
-- `check_committed_entry` of the leader gives the value of the entry; the leader has sent one message to
-- each node, in the order of the address book; and when a follower that has the entry at the same index
-- handles any of these messages, `check_committed_entry` of the follower gives the same value.
pub on_acknowledge-Commits :
    (now later last k index : ℕ) (m : AppendEntriesMessage) (entry : Entry) (s follower : RaftNode)
    → Answered m k index s
    → get_elem? s.log index ≡ some entry
    → length s.match_index ≡ length s.all_ids
    → s.current_num_nodes ≡ length s.match_index
    → All (λ i. index ≤ i) (set s.match_index k index)
    → s.commit_index < index
    → get_elem? follower.log index ≡ some entry
    → Returns (Commits later last entry.entry follower s) (on_acknowledge now m) s
on_acknowledge-Commits now later last k index m entry s follower a found same nodes all new known =
    Returns-weaken (committing now m k index s a entry found same nodes all new) (λ _ t told. (
      check_committed-found index entry t told.commit_eq (rw told.log_eq found),
      told.new,
      told.outbox_eq,
      told.receivers_eq,
      all_learn later last index entry follower told.new known told.committals,
    ))
