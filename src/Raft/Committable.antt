-- ===== src/Raft/Committable.antt =====
-- src/raft/raft.py: the part of `_leader` that finds the highest index to commit.
pub mod Least
use cs525_project.Common.{ℕ, ◌+◌, ◌/◌, List, [], ◌∷◌, leb, if◌then◌else◌}

-- `log_lengths.sort(reverse=True)`, by insertion
abbrev pub insert_desc : ℕ → List ℕ → List ℕ
insert_desc x [] = x ∷ []
insert_desc x (y ∷ ys) = let rest = insert_desc x ys in if leb y x then x ∷ y ∷ ys else y ∷ rest

unfoldable pub sort_desc : List ℕ → List ℕ
sort_desc [] = []
sort_desc (x ∷ xs) = insert_desc x (sort_desc xs)

-- `sum([1 if index <= i else 0 for i in log_lengths])`
unfoldable pub replicated_on : ℕ → List ℕ → ℕ
replicated_on index [] = 0
replicated_on index (i ∷ is) = (if leb index i then 1 else 0) + replicated_on index is

-- The loop over the sorted indices, which goes on after a hit.
unfoldable pub committable_loop : ℕ → List ℕ → List ℕ → ℕ → ℕ
committable_loop nodes all [] found = found
committable_loop nodes all (index ∷ rest) found =
    committable_loop nodes all rest
      (if leb (nodes / 2 + 1) (replicated_on index all) then index else found)

unfoldable pub max_committable_index : ℕ → List ℕ → ℕ
unfolding sort_desc committable_loop
max_committable_index nodes match_index =
    let log_lengths = sort_desc match_index in committable_loop nodes log_lengths log_lengths 0
