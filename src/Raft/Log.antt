-- ===== src/Raft/Log.antt =====
-- src/raft/raft.py: the terms, the log and the commits of one node.
use cs525_project.Common.{
  ℕ, ◌+◌, ◌-◌, String, Bool, false, Option, none, some, List, [], ◌∷◌, ◌++◌, ℤ, int_eq, Result, ok,
  err, type_error, value_error, index_error, or_raise, length, take, get_elem?, leb, ◌==◌, str_eq,
  if◌then◌else◌, suc,
}
use cs525_project.Protocol.{Entry}
use cs525_project.Raft.State.{RaftNode, Role, Action}

-- `_set_current_role`
unfoldable pub set_current_role : Role → RaftNode → RaftNode
set_current_role role s = record s { current_role = role }

-- `list.index`, for `_get_node_index`
unfoldable pub index_of : String → List String → Option ℕ
index_of a [] = none
index_of a (b ∷ ids) =
    if str_eq b a then some 0 else elim (index_of a ids) [ none ↦ none | some i ↦ some (suc i) ]

-- `_get_node_index`
unfoldable pub get_node_index : String → RaftNode → Result ℕ
get_node_index address s = or_raise value_error (index_of address s.all_ids)

-- `_log_max_index`; the log is never empty.
abbrev pub log_max_index : RaftNode → ℕ
log_max_index s = length s.log - 1

-- `_increment_term`
unfoldable pub increment_term : Option ℕ → RaftNode → RaftNode
increment_term none s = record s { voted_for = none; current_term = s.current_term + 1 }
increment_term (some term) s = record s { voted_for = none; current_term = term }

abbrev pub is_term : Option ℕ → ℕ → Bool
is_term none t = false
is_term (some u) t = t == u

abbrev pub entry_matches : Option ℕ → Option Entry → Result Bool
entry_matches prev_term none = err index_error
entry_matches prev_term (some e) = ok (is_term prev_term e.term)

-- `_verify_entry`; comparing a length with None raises TypeError.
unfoldable pub verify_entry : Option ℕ → Option ℕ → RaftNode → Result Bool
verify_entry none prev_term s = err type_error
verify_entry (some prev_index) prev_term s =
    if leb (length s.log) prev_index
    then ok false
    else entry_matches prev_term (get_elem? s.log prev_index)

-- `d[k] = v` and `d.get(k)` for the dict `log_hash`
unfoldable pub hash_set : ℤ → Entry → List (ℤ × Entry) → List (ℤ × Entry)
hash_set k e [] = (k, e) ∷ []
hash_set k e ((j, f) ∷ m) = if int_eq j k then (k, e) ∷ m else (j, f) ∷ hash_set k e m

unfoldable pub hash_get : ℤ → List (ℤ × Entry) → Option Entry
hash_get k [] = none
hash_get k ((j, f) ∷ m) = if int_eq j k then some f else hash_get k m

-- `_commit_entry`
unfoldable pub commit_entry : ℕ → ℕ → RaftNode → RaftNode
commit_entry index term s = record s {
  last_applied_index = index;
  last_applied_term = term;
  commit_index = index;
}

-- The two assignments under the lock in `_append_entry`.
unfoldable pub push_entry : Entry → RaftNode → RaftNode
push_entry entry s = record s {
  log = s.log ++ entry ∷ [];
  log_hash = hash_set entry.id entry s.log_hash;
}

-- Cutting the log short, if an index is given, and that index or the last one.
unfoldable pub cut_log : Option ℕ → RaftNode → ℕ × RaftNode
cut_log none s = (length s.log - 1, s)
cut_log (some i) s = (i, record s { log = take (suc i) s.log })

-- The rest of `_append_entry`, for the last entry of the log that is left, if it has one.
unfoldable pub place_entry : Entry → Bool → ℕ → Option Entry → Action (ℕ × ℕ)
place_entry entry commit prev none s = (err index_error, s)
place_entry entry commit prev (some last) s = (
  ok (prev, last.term),
  (if commit then commit_entry prev entry.term (push_entry entry s) else push_entry entry s),
)

-- `_append_entry`, which returns the previous index and term
unfoldable pub append_entry : Entry → Bool → Option ℕ → Action (ℕ × ℕ)
append_entry entry commit prev_index s =
    let (prev, cut) = cut_log prev_index s in
    place_entry entry commit prev (get_elem? cut.log (length cut.log - 1)) cut
