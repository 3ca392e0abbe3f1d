-- ===== src/Raft/Replication/Request.antt =====
-- A request from its entry into the log of a leader, `_broadcast_append_entries`, to its commit.
use cs525_project.Common.{
  ℕ, zero, suc, ◌-◌, ◌≤◌, ◌<◌, String, ◌≡◌, ◌≢◌, ◌⊎◌, inl, inr, refl, sym, ◌∙◌, ap, some, none,
  List, [], ◌∷◌, ◌++◌, arith, length, length-append, length-set, length-replicate, replicate,
  get_elem?, get_elem?-lt, get_elem?-append_last, set, All, All-set, ok, lt→ltb, false,
}
use mathlib.Core.Path.{subst}
use cs525_project.Common.Members.{IsIn, here, there, Differ}
use cs525_project.Protocol.{Entry, AppendEntriesMessage, Message}
use cs525_project.Raft.State.{RaftNode, Action, gets, reads, ◌>>=◌, ◌>>◌}
use cs525_project.Raft.Log.{
  append_entry, place_entry, cut_log, push_entry, get_node_index, index_of, log_max_index,
}
use cs525_project.Raft.Client.{check_committed_entry}
use cs525_project.Raft.Leader.{assign_next, assign_match, send_to_current, broadcast_append_entries}
use cs525_project.Raft.Leadership.{index_of-lt}
use cs525_project.Raft.Returns.{Returns, Returns-bind}
use cs525_project.Raft.Replication.Sending.{sending, send_to_current-frame}
use cs525_project.Raft.Replication.Noted.{Noted, Noted-set, get_elem?-set_other}
use cs525_project.Raft.Replication.Answered.{
  acknowledge_all, ArePositive, Waits, acknowledge_all-commits,
}

-- A leader whose nodes are all up to date, before entry number `index`.
pub record IsSteady (ids : List String) (me index : ℕ) (s : RaftNode) : Type 0 where
  pub ids_eq : s.all_ids ≡ ids
  pub me_eq : index_of s.my_id ids ≡ some me
  pub nodes_eq : s.current_num_nodes ≡ length ids
  pub next_eq : s.next_index ≡ replicate (length ids) none
  pub match_length : length s.match_index ≡ length ids
  pub heard_length : length s.heard_from ≡ length ids
  pub not_empty : 0 < index
  pub top : length s.log ≡ index
  pub bounded : All (λ i. i ≤ index) s.match_index
  pub commit_le : s.commit_index ≤ index

-- Each of `count` nodes from number `i` on is `me` or pending.
abbrev pub Covers : ℕ → List ℕ → ℕ → ℕ → Type 0
Covers me pending i zero = Unit
Covers me pending i (suc count) = ((i ≡ me) ⊎ IsIn i pending) × Covers me pending (suc i) count

Covers-Noted :
    (index me : ℕ) (pending : List ℕ) (i : ℕ) (vs : List ℕ)
    → Covers me pending i (length vs)
    → Noted index (me ∷ pending) i vs
Covers-Noted index me pending i [] h = tt
Covers-Noted index me pending i (v ∷ vs) h = (
  elim h.0 [ inl e ↦ inr (here e) | inr m ↦ inr (there m) ],
  Covers-Noted index me pending (suc i) vs h.1,
)

get_elem?-replicate : {A : Type 0} (n j : ℕ) (a : A) → j < n → get_elem? (replicate n a) j ≡ some a
get_elem?-replicate zero j a h = elim h [ ]
get_elem?-replicate (suc n) zero a h = refl
get_elem?-replicate (suc n) (suc j) a h = get_elem?-replicate n j a (omega (arith, h))

appended :
    (entry : Entry) (index : ℕ) (s : RaftNode)
    → 0 < index
    → length s.log ≡ index
    → (prev : ℕ × ℕ) × (append_entry entry false none s ≡ (ok prev, push_entry entry s))
unfolding append_entry place_entry cut_log
appended entry index s h e =
    let (last, found) = get_elem?-lt s.log (length s.log - 1) (omega (arith, h, e)) in
    ((length s.log - 1, last.term), rw found)

all_waiting :
    (n me index : ℕ) (pending : List ℕ)
    → All (λ j. j ≢ me) pending
    → All (λ j. j < n) pending
    → All (λ j. get_elem? (set (replicate n (some index)) me none) j ≡ some (some index)) pending
all_waiting n me index [] d h = tt
all_waiting n me index (j ∷ pending) d h = (
  get_elem?-set_other (replicate n (some index)) me j none d.0
      ∙ get_elem?-replicate n j (some index) h.0,
  all_waiting n me index pending d.1 h.1,
)

module _ (ids : List String) (me index : ℕ) (entry : Entry) (pending : List ℕ) (s : RaftNode)
    (w : IsSteady ids me index s) (d : Differ (me ∷ pending))
    (others : All (λ j. j < length ids) pending) (all : Covers me pending 0 (length ids)) where
  -- The end of `_broadcast_append_entries`.
  abbrev sent_to_all : List Message → RaftNode
  sent_to_all out = sending (replicate (length ids) (some index)) out (push_entry entry s)

  abbrev marked : List Message → RaftNode
  marked out = record (sent_to_all out) {
    next_index = set (replicate (length ids) (some index)) me none;
    match_index = set s.match_index me index;
  }

  longer : length (s.log ++ entry ∷ []) ≡ suc index
  longer = omega (arith, length-append s.log (entry ∷ []), w.top)

  marked-Waits : (out : List Message) → Waits ids index entry pending (marked out)
  unfolding push_entry
  marked-Waits out = record {
    ids_eq = w.ids_eq;
    nodes_eq = w.nodes_eq;
    match_length = length-set s.match_index me index ∙ w.match_length;
    heard_length = w.heard_length;
    top = longer;
    found =
        subst (λ i. get_elem? (s.log ++ entry ∷ []) i ≡ some entry) w.top
          (get_elem?-append_last s.log entry);
    bounded = All-set (λ i. i ≤ index) s.match_index me index w.bounded (omega arith);
    commit_le = w.commit_le;
    waiting = all_waiting (length ids) me index pending d.0 others;
    noted = Noted-set index me 0 me pending s.match_index (omega arith) (
        Covers-Noted index me pending 0 s.match_index
          (subst (Covers me pending 0) (sym w.match_length) all));
  }

  me_inside : me < length ids
  me_inside = index_of-lt s.my_id ids me w.me_eq

  abbrev mark_me : Action Unit
  mark_me = do
    node ← reads (λ s. get_node_index s.my_id s)
    assign_next node none
    top ← gets log_max_index
    assign_match node top

  mark_me-Waits :
      (out : List Message)
      → Returns (λ _ t. Waits ids index entry pending t) mark_me (sent_to_all out)
  unfolding get_node_index assign_next assign_match ◌>>=◌ push_entry
  mark_me-Waits out = record {
    holds =
        rw
          (
            ap (index_of s.my_id) w.ids_eq ∙ w.me_eq,
            lt→ltb me (length (replicate (length ids) (some index)))
                (omega (arith, me_inside, length-replicate (length ids) (some index))),
            log_end,
            lt→ltb me (length s.match_index) (omega (arith, me_inside, w.match_length)),
          )
          (unfold push_entry in marked-Waits out);
  }
    where
      log_end : length (s.log ++ entry ∷ []) - 1 ≡ index
      log_end = omega (arith, longer)

  all_sent :
      (prev : ℕ × ℕ)
      → Returns
          (λ _ t. (out : List Message) × (t ≡ sent_to_all out))
          (send_to_current prev.0 prev.1 entry 0 (push_entry entry s).next_index)
          (push_entry entry s)
  unfolding push_entry
  all_sent prev =
      subst
        (λ nodes.
          Returns (λ _ t. (out : List Message) × (t ≡ sent_to_all out))
            (send_to_current prev.0 prev.1 entry 0 nodes) (push_entry entry s))
        (sym w.next_eq)
        (send_to_current-frame [] ids [] 0 prev.0 prev.1 index entry (push_entry entry s) w.ids_eq
          refl refl w.next_eq (omega (arith, longer)))

  broadcast-Waits :
      Returns (λ _ t. Waits ids index entry pending t) (broadcast_append_entries entry) s
  unfolding broadcast_append_entries ◌>>=◌
  broadcast-Waits =
      let (prev, is) = appended entry index s w.not_empty w.top in
      record {
        holds = rw is (
            (Returns-bind (send_to_current prev.0 prev.1 entry 0 (push_entry entry s).next_index)
              (λ _. mark_me) (push_entry entry s) (all_sent prev)
              (λ _ t (out, same).
                subst (λ u. Returns (λ _ v. Waits ids index entry pending v) mark_me u) (sym same)
                  (mark_me-Waits out))).holds);
      }

-- When a leader whose nodes are all up to date broadcasts an entry, such as the request of a client, and
-- then handles one positive answer of each other node, in any order and with no other message between
-- them: every call returns, and in the end the entry is committed at the end of the leader's log and
-- `check_committed_entry` gives its value.
pub acknowledge_all-broadcast_append_entries :
    (ids : List String) (me index k : ℕ) (pending : List ℕ) (entry : Entry)
    (acks : List (ℕ × AppendEntriesMessage)) (s : RaftNode)
    → IsSteady ids me index s
    → Differ (me ∷ k ∷ pending)
    → All (λ j. j < length ids) (k ∷ pending)
    → Covers me (k ∷ pending) 0 (length ids)
    → ArePositive ids (k ∷ pending) acks
    → Returns
        (λ _ t. (t.commit_index ≡ index) × (check_committed_entry none t ≡ ok entry.entry))
        (broadcast_append_entries entry >> acknowledge_all acks)
        s
acknowledge_all-broadcast_append_entries ids me index k pending entry acks s w d others all
      positive =
    Returns-bind (broadcast_append_entries entry) (λ _. acknowledge_all acks) s
      (broadcast-Waits ids me index entry (k ∷ pending) s w d others all)
      (λ _ t waits. acknowledge_all-commits ids index entry k pending acks t d.1 positive waits)
