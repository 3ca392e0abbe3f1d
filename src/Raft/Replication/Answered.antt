-- ===== src/Raft/Replication/Answered.antt =====
-- The positive answers of all nodes to the last entry of a leader, in `_leader`, in any order.
use mathlib.Core.Path.{subst}
use cs525_project.Common.{
  ℕ, suc, ◌+◌, ◌≤◌, ◌<◌, String, true, ◌≡◌, inl, inr, refl, sym, ◌∙◌, ap, some, none, List, [], ◌∷◌,
  ◌++◌, arith, length, length-set, get_elem?, get_elem?-lt, All, All-get_elem?, All-set, ok, ltb,
  Bool-cases,
}
use cs525_project.Common.Members.{Differ}
use cs525_project.Protocol.{Entry, AppendEntriesResults, AppendEntriesMessage, Message, appends}
use cs525_project.Raft.State.{RaftNode, Action, pure, ◌>>=◌, ◌>>◌}
use cs525_project.Raft.Send.{send_committal, send_message}
use cs525_project.Raft.Log.{commit_entry, get_node_index, index_of}
use cs525_project.Raft.Client.{check_committed_entry}
use cs525_project.Raft.Committable.{max_committable_index}
use cs525_project.Raft.Committable.Least.{le-max_committable_index}
use cs525_project.Raft.Leader.{
  try_commit, on_acknowledge, send_committals, broadcast_commit_entries,
}
use cs525_project.Raft.Leadership.{index_of-lt}
use cs525_project.Raft.Returns.{Returns, Returns-weaken, Returns-bind, Returns-pure}
use cs525_project.Raft.Replication.Broadcast.{
  send_committal-all_ids, send_committals-next, get_elem?-middle, snoc-append, length-snoc,
}
use cs525_project.Raft.Replication.Noted.{Noted, Noted-set, Noted-All, still_waiting}
use cs525_project.Raft.Replication.Committing.{
  Answered, noted, on_acknowledge-noted, check_committed-found,
}

-- The leader handles some acknowledgements, each at a time.
unfoldable pub acknowledge_all : List (ℕ × AppendEntriesMessage) → Action Unit
acknowledge_all [] = pure tt
acknowledge_all ((now, m) ∷ rest) = on_acknowledge now m >> acknowledge_all rest

-- A positive answer of the node number `k`.
abbrev pub IsPositive : List String → ℕ → AppendEntriesMessage → Type 0
IsPositive ids k m =
    (index_of m.sender ids ≡ some k)
    × (r : AppendEntriesResults) × (m.results ≡ appends r)
    × (r.success ≡ some true)

-- One positive answer of each of the nodes, in this order.
abbrev pub ArePositive : List String → List ℕ → List (ℕ × AppendEntriesMessage) → Type 0
ArePositive ids [] [] = Unit
ArePositive ids (k ∷ ks) (a ∷ rest) = IsPositive ids k a.1 × ArePositive ids ks rest
ArePositive ids _ _ = ⊥

-- A leader that waits for the answers of some nodes to its last entry.
pub record Waits (ids : List String) (index : ℕ) (entry : Entry) (pending : List ℕ) (s : RaftNode)
    : Type 0 where
  pub ids_eq : s.all_ids ≡ ids
  pub nodes_eq : s.current_num_nodes ≡ length ids
  pub match_length : length s.match_index ≡ length ids
  pub heard_length : length s.heard_from ≡ length ids
  pub top : length s.log ≡ suc index
  pub found : get_elem? s.log index ≡ some entry
  pub bounded : All (λ i. i ≤ index) s.match_index
  pub commit_le : s.commit_index ≤ index
  pub waiting : All (λ k. get_elem? s.next_index k ≡ some (some index)) pending
  pub noted : Noted index pending 0 s.match_index

-- Nothing is left to commit.
abbrev pub IsSettled : RaftNode → Type 0
IsSettled s = max_committable_index s.current_num_nodes s.match_index ≤ s.commit_index

-- What a broadcast of committals changes.
abbrev told : ℕ → ℕ → List Message → RaftNode → RaftNode
told index term out s = record s {
  last_applied_index = index;
  last_applied_term = term;
  commit_index = index;
  outbox = out;
}

committals-frame :
    (before rest : List String) (node : ℕ) (indices : List ℕ) (s : RaftNode)
    → node ≡ length before
    → s.all_ids ≡ before ++ rest
    → length indices ≡ length rest
    → Returns
        (λ _ t. (out : List Message) × (t ≡ record s { outbox = out }))
        (send_committals node indices)
        s
unfolding send_committals pure send_committal send_message
committals-frame before [] node [] s at ids same = record { holds = (s.outbox, refl) }
committals-frame before (a ∷ rest) node [] s at ids same =
    let no : ⊥ = omega (arith, same) in absurd no
committals-frame before [] node (i ∷ is) s at ids same =
    let no : ⊥ = omega (arith, same) in absurd no
committals-frame before (a ∷ rest) node (i ∷ is) s at ids same =
    let found : get_elem? s.all_ids node ≡ some a = rw (ids, at) (get_elem?-middle before a rest) in
    let sent = send_committal i a s in
    record {
      holds = rw (send_committals-next node i is a s found) (
          (committals-frame (before ++ a ∷ []) rest (suc node) is sent
            (ap suc at ∙ sym (length-snoc before a))
            (send_committal-all_ids i a s ∙ ids ∙ sym (snoc-append before a rest))
            (omega (arith, same))).holds);
    }

broadcast-frame :
    (index : ℕ) (entry : Entry) (s : RaftNode)
    → get_elem? s.log index ≡ some entry
    → length s.match_index ≡ length s.all_ids
    → Returns
        (λ _ t. (out : List Message) × (t ≡ told index entry.term out s))
        (broadcast_commit_entries index)
        s
unfolding broadcast_commit_entries ◌>>=◌ commit_entry
broadcast-frame index entry s found same = record {
  holds = rw found (
      (committals-frame [] s.all_ids 0 s.match_index (commit_entry index entry.term s) refl refl
        same).holds);
}

module _ (ids : List String) (index : ℕ) (entry : Entry) where
  told-Waits :
      (c term : ℕ) (out : List Message) (pending : List ℕ) (s : RaftNode)
      → c ≤ index
      → Waits ids index entry pending s
      → Waits ids index entry pending (told c term out s)
  told-Waits c term out pending s le w = record {
    ids_eq = w.ids_eq;
    nodes_eq = w.nodes_eq;
    match_length = w.match_length;
    heard_length = w.heard_length;
    top = w.top;
    found = w.found;
    bounded = w.bounded;
    commit_le = le;
    waiting = w.waiting;
    noted = w.noted;
  }

  committable-le :
      (pending : List ℕ) (s : RaftNode)
      → 0 < length ids
      → Waits ids index entry pending s
      → max_committable_index s.current_num_nodes s.match_index ≤ index
  committable-le pending s some_node w =
      let c = max_committable_index s.current_num_nodes s.match_index in
      let counted : s.current_num_nodes ≡ length s.match_index =
        omega (arith, w.nodes_eq, w.match_length) in
      let (v, first) = get_elem?-lt s.match_index 0 (omega (arith, some_node, w.match_length)) in
      let all =
        (le-max_committable_index s.match_index c (omega (arith, some_node, w.match_length))).0
          (rw counted (omega arith)) in
      omega (
        arith,
        All-get_elem? (λ i. c ≤ i) s.match_index 0 v all first,
        All-get_elem? (λ i. i ≤ index) s.match_index 0 v w.bounded first,
      )

  -- The commit that may follow leaves nothing to commit.
  try_commit-Waits :
      (pending : List ℕ) (s : RaftNode)
      → 0 < length ids
      → Waits ids index entry pending s
      → Returns (λ _ t. Waits ids index entry pending t × IsSettled t) try_commit s
  unfolding try_commit
  try_commit-Waits pending s some_node w =
      let c = max_committable_index s.current_num_nodes s.match_index in
      let c_le = committable-le pending s some_node w in
      let (e, at) = get_elem?-lt s.log c (omega (arith, c_le, w.top)) in
      elim (Bool-cases (ltb s.commit_index c)) [
        | inl y ↦ record {
          holds = rw y (
              (Returns-weaken (broadcast-frame c e s at (w.match_length ∙ sym (ap length w.ids_eq)))
                (λ _ t (out, is).
                  subst (λ u. Waits ids index entry pending u × IsSettled u) (sym is)
                    (told-Waits c e.term out pending s c_le w, omega arith))).holds);
        }
        | inr n ↦ record { holds = rw n (w, ground arith) }
      ]

  answered :
      (m : AppendEntriesMessage) (k : ℕ) (pending : List ℕ) (s : RaftNode)
      → IsPositive ids k m
      → Waits ids index entry (k ∷ pending) s
      → Answered m k index s
  unfolding get_node_index
  answered m k pending s (is, r, results, success) w =
      let inside = index_of-lt m.sender ids k is in
      record {
        sender_eq = rw (w.ids_eq, is);
        waiting = w.waiting.0;
        heard = omega (arith, inside, w.heard_length);
        matched = omega (arith, inside, w.match_length);
        result = r;
        results_eq = results;
        success_eq = success;
        top = w.top;
      }

  -- One answer: the node is noted, and what can be committed is.
  on_acknowledge-Waits :
      (now : ℕ) (m : AppendEntriesMessage) (k : ℕ) (pending : List ℕ) (s : RaftNode)
      → Differ (k ∷ pending)
      → IsPositive ids k m
      → Waits ids index entry (k ∷ pending) s
      → Returns (λ _ t. Waits ids index entry pending t × IsSettled t) (on_acknowledge now m) s
  on_acknowledge-Waits now m k pending s d p w =
      let a = answered m k pending s p w in
      let inside = index_of-lt m.sender ids k p.0 in
      let after : Waits ids index entry pending (noted now m k index s a) = record {
        ids_eq = w.ids_eq;
        nodes_eq = w.nodes_eq;
        match_length = length-set s.match_index k index ∙ w.match_length;
        heard_length = length-set s.heard_from k now ∙ w.heard_length;
        top = w.top;
        found = w.found;
        bounded = All-set (λ i. i ≤ index) s.match_index k index w.bounded (omega arith);
        commit_le = w.commit_le;
        waiting =
            still_waiting s.next_index k index (some (index + 1)) none pending d.0 w.waiting.1;
        noted = Noted-set index k 0 k pending s.match_index (omega arith) w.noted;
      } in
      record {
        holds = rw (on_acknowledge-noted now m k index s a) (
            (try_commit-Waits pending (noted now m k index s a) (omega (arith, inside))
              after).holds);
      }

  acknowledge_all-Waits :
      (pending : List ℕ) (acks : List (ℕ × AppendEntriesMessage)) (s : RaftNode)
      → Differ pending
      → ArePositive ids pending acks
      → Waits ids index entry pending s
      → IsSettled s
      → Returns (λ _ t. Waits ids index entry [] t × IsSettled t) (acknowledge_all acks) s
  unfolding acknowledge_all
  acknowledge_all-Waits [] [] s d p w settled = Returns-pure tt s (w, settled)
  acknowledge_all-Waits [] (a ∷ acks) s d p w settled = absurd p
  acknowledge_all-Waits (k ∷ pending) [] s d p w settled = absurd p
  acknowledge_all-Waits (k ∷ pending) ((now, m) ∷ acks) s d p w settled =
      Returns-bind (on_acknowledge now m) (λ _. acknowledge_all acks) s
        (on_acknowledge-Waits now m k pending s d p.0 w)
        (λ _ t h. acknowledge_all-Waits pending acks t d.1 p.1 h.0 h.1)

  committed :
      (t : RaftNode)
      → 0 < length ids
      → Waits ids index entry [] t
      → IsSettled t
      → (t.commit_index ≡ index) × (check_committed_entry none t ≡ ok entry.entry)
  committed t some_node w settled =
      let counted : t.current_num_nodes ≡ length t.match_index =
        omega (arith, w.nodes_eq, w.match_length) in
      let least =
        (le-max_committable_index t.match_index index (omega (arith, some_node, w.match_length))).1
          (Noted-All index 0 t.match_index w.noted) in
      let counted_least : index ≤ max_committable_index t.current_num_nodes t.match_index =
        rw counted least in
      let now_committed : t.commit_index ≡ index =
        omega (arith, counted_least, settled, w.commit_le) in
      (now_committed, check_committed-found index entry t now_committed w.found)

-- A leader that waits for the answers of some nodes to the last entry of its log, and has noted that all
-- the others have it: when it handles one positive answer of each of these nodes, in any order, every
-- call returns, and in the end the entry is committed and `check_committed_entry` gives its value.
pub acknowledge_all-commits :
    (ids : List String) (index : ℕ) (entry : Entry) (k : ℕ) (pending : List ℕ)
    (acks : List (ℕ × AppendEntriesMessage)) (s : RaftNode)
    → Differ (k ∷ pending)
    → ArePositive ids (k ∷ pending) acks
    → Waits ids index entry (k ∷ pending) s
    → Returns
        (λ _ t. (t.commit_index ≡ index) × (check_committed_entry none t ≡ ok entry.entry))
        (acknowledge_all acks)
        s
unfolding acknowledge_all
acknowledge_all-commits ids index entry k pending [] s d p w = absurd p
acknowledge_all-commits ids index entry k pending ((now, m) ∷ acks) s d p w =
    Returns-weaken
      (Returns-bind (on_acknowledge now m) (λ _. acknowledge_all acks) s
        (on_acknowledge-Waits ids index entry now m k pending s d p.0 w)
        (λ _ t h. acknowledge_all-Waits ids index entry pending acks t d.1 p.1 h.0 h.1))
      (λ _ t h.
        committed ids index entry t (omega (arith, index_of-lt m.sender ids k p.0.0)) h.0 h.1)
