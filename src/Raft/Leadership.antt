-- ===== src/Raft/Leadership.antt =====
-- The invariant of a leader: its lists have an entry for each node, it knows its own position, the
-- last index of its log is `top`, every entry of `next_index` is an index of the log from 1 on, and
-- its own entry of `match_index` is at most `cap` (which is `top`, but while the leader starts).
pub mod Assign
pub mod Broadcast
pub mod Answers
pub mod Rounds
use cs525_project.Common.{
  ℕ, zero, suc, ◌+◌, ◌≤◌, ◌<◌, String, ◌≡◌, refl, Option, none, some, List, [], ◌∷◌, ◌++◌, arith,
  length, get_elem?, Option-cases, inl, inr, set, All, All-set, length-set, get_elem?-set_self,
}
use cs525_project.Protocol.{Message}
use cs525_project.Raft.State.{RaftNode}
use cs525_project.Raft.Log.{index_of}

-- The addresses of the nodes, and the position of this one.
pub record Group : Type 0 where
  pub ids : List String
  pub my : String
  pub me : ℕ
  pub found : index_of my ids ≡ some me

abbrev pub InLog : ℕ → Option ℕ → Type 0
InLog top none = Unit
InLog top (some i) = (1 ≤ i) × (i ≤ top)

pub record IsLeading (g : Group) (top cap : ℕ) (s : RaftNode) : Type 0 where
  pub ids_eq : s.all_ids ≡ g.ids
  pub id_eq : s.my_id ≡ g.my
  pub nodes_eq : s.current_num_nodes ≡ length g.ids
  pub log_length : length s.log ≡ suc top
  pub next_length : length s.next_index ≡ length g.ids
  pub match_length : length s.match_index ≡ length g.ids
  pub heard_length : length s.heard_from ≡ length g.ids
  pub nexts : All (InLog top) s.next_index
  pub own : (x : ℕ) → get_elem? s.match_index g.me ≡ some x → x ≤ cap

pub index_of-lt :
    (a : String) (ids : List String) (i : ℕ) → index_of a ids ≡ some i → i < length ids
unfolding index_of
index_of-lt a [] i h = cc
index_of-lt a (b ∷ ids) i h = elim (Option-cases (index_of a ids)) [
  | inl e ↦ ground arith
  | inr (j, e) ↦ ground (arith, index_of-lt a ids j e)
]

-- The attributes that the invariant speaks of, changed one at a time.
module _ {g : Group} {top cap : ℕ} {s : RaftNode} (h : IsLeading g top cap s) where
  pub IsLeading-next :
      (next : List (Option ℕ))
      → length next ≡ length g.ids
      → All (InLog top) next
      → IsLeading g top cap (record s { next_index = next })
  IsLeading-next next l a = record {
    ids_eq = h.ids_eq;
    id_eq = h.id_eq;
    nodes_eq = h.nodes_eq;
    log_length = h.log_length;
    next_length = l;
    match_length = h.match_length;
    heard_length = h.heard_length;
    nexts = a;
    own = h.own;
  }

  pub IsLeading-match :
      (bound : ℕ) (matched : List ℕ)
      → length matched ≡ length g.ids
      → ((x : ℕ) → get_elem? matched g.me ≡ some x → x ≤ bound)
      → IsLeading g top bound (record s { match_index = matched })
  IsLeading-match bound matched l a = record {
    ids_eq = h.ids_eq;
    id_eq = h.id_eq;
    nodes_eq = h.nodes_eq;
    log_length = h.log_length;
    next_length = h.next_length;
    match_length = l;
    heard_length = h.heard_length;
    nexts = h.nexts;
    own = a;
  }

  pub IsLeading-heard :
      (heard : List ℕ)
      → length heard ≡ length g.ids
      → IsLeading g top cap (record s { heard_from = heard })
  IsLeading-heard heard l = record {
    ids_eq = h.ids_eq;
    id_eq = h.id_eq;
    nodes_eq = h.nodes_eq;
    log_length = h.log_length;
    next_length = h.next_length;
    match_length = h.match_length;
    heard_length = l;
    nexts = h.nexts;
    own = h.own;
  }

  pub IsLeading-outbox :
      (outbox : List Message) → IsLeading g top cap (record s { outbox = outbox })
  IsLeading-outbox outbox = record {
    ids_eq = h.ids_eq;
    id_eq = h.id_eq;
    nodes_eq = h.nodes_eq;
    log_length = h.log_length;
    next_length = h.next_length;
    match_length = h.match_length;
    heard_length = h.heard_length;
    nexts = h.nexts;
    own = h.own;
  }
