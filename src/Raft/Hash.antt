-- ===== src/Raft/Hash.antt =====
-- What `check_committed_entry` finds under an id.
use cs525_project.Common.{
  ℕ, suc, ◌-◌, ◌≡◌, refl, ◌∙◌, Bool, true, false, Option, none, some, List, [], ◌∷◌, ℤ, int_eq,
  int_eq_iff, ok, length, length-take, take, get_elem?-lt, arith, if◌then◌else◌, ap, ◌++◌, ◌<◌,
}
use cs525_project.Protocol.{Entry}
use cs525_project.Protocol.Wire.{entry_dict}
use cs525_project.Raft.State.{RaftNode}
use cs525_project.Raft.Log.{
  hash_set, hash_get, append_entry, push_entry, cut_log, place_entry, commit_entry,
}
use cs525_project.Raft.Client.{entry_or_null, check_committed_entry}

hash_get-hash_set :
    (k j : ℤ) (e : Entry) (m : List (ℤ × Entry))
    → hash_get j (hash_set k e m) ≡ (if int_eq k j then some e else hash_get j m)
unfolding hash_get hash_set
hash_get-hash_set k j e [] = ground arith
hash_get-hash_set k j e ((i, f) ∷ m) =
    ground (arith, int_eq_iff i k, int_eq_iff k j, int_eq_iff i j, hash_get-hash_set k j e m)

-- The entry is at the end of the log, and under its id; other ids are as they were.
pub record IsStored (entry : Entry) (before : List Entry) (s t : RaftNode) : Type 0 where
  pub log_eq : t.log ≡ before ++ entry ∷ []
  pub checked :
      (j : ℤ)
      → check_committed_entry (some j) t
        ≡ (if int_eq entry.id j then ok (entry_dict entry) else check_committed_entry (some j) s)

by_id :
    (b : Bool) (entry : Entry) (old : Option Entry)
    → entry_or_null (if b then some entry else old)
      ≡ (if b then ok (entry_dict entry) else entry_or_null old)
by_id true entry old = refl
by_id false entry old = refl

pushed-IsStored :
    (entry : Entry) (s cut t : RaftNode)
    → t.log ≡ cut.log ++ entry ∷ []
    → t.log_hash ≡ hash_set entry.id entry cut.log_hash
    → cut.log_hash ≡ s.log_hash
    → IsStored entry cut.log s t
unfolding check_committed_entry
pushed-IsStored entry s cut t grown hashed same = record {
  log_eq = grown;
  checked = λ j.
      ap (λ m. entry_or_null (hash_get j m))
        (hashed ∙ ap (λ (m : List (ℤ × Entry)). hash_set entry.id entry m) same)
      ∙ ap entry_or_null (hash_get-hash_set entry.id j entry s.log_hash)
      ∙ by_id (int_eq entry.id j) entry (hash_get j s.log_hash);
}

-- The rest of `_append_entry`, when the log that is left has an entry.
placed :
    (entry : Entry) (commit : Bool) (prev : ℕ) (last : Entry) (s cut : RaftNode)
    → cut.log_hash ≡ s.log_hash
    → (p : ℕ × ℕ) × (t : RaftNode) × (place_entry entry commit prev (some last) cut ≡ (ok p, t))
      × IsStored entry cut.log s t
unfolding place_entry push_entry commit_entry
placed entry true prev last s cut same =
    ((prev, last.term), _, refl, pushed-IsStored entry s cut _ refl refl same)
placed entry false prev last s cut same =
    ((prev, last.term), _, refl, pushed-IsStored entry s cut _ refl refl same)

-- The entries that are kept.
abbrev pub kept_log : Option ℕ → List Entry → List Entry
kept_log none log = log
kept_log (some i) log = take (suc i) log

-- Appending an entry to a log that is not empty returns, puts the entry behind those that are kept, and
-- from then on the check finds this entry under its id and under every other id what it found before,
-- whether or not the entry is committed and whatever was cut off.
pub append_entry-IsStored :
    (entry : Entry) (commit : Bool) (prev : Option ℕ) (s : RaftNode)
    → 0 < length s.log
    → (p : ℕ × ℕ) × (t : RaftNode) × (append_entry entry commit prev s ≡ (ok p, t))
      × IsStored entry (kept_log prev s.log) s t
unfolding append_entry cut_log
append_entry-IsStored entry commit none s h =
    let (last, found) = get_elem?-lt s.log (length s.log - 1) (omega (arith, h)) in
    rw found (placed entry commit (length s.log - 1) last s s refl)
append_entry-IsStored entry commit (some i) s h =
    let cut : RaftNode = record s { log = take (suc i) s.log } in
    let (last, found) =
      get_elem?-lt cut.log (length cut.log - 1) (omega (arith, length-take (suc i) s.log, h)) in
    rw found (placed entry commit i last s cut refl)
