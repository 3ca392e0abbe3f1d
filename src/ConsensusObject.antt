-- ===== src/ConsensusObject.antt =====
-- src/consensusobject.py: class LockedConsensusObject, a list under a lock. The lock makes an assignment
-- one step.
use cs525_project.Common.{
  ℕ, ◌+◌, name_error, suc, ◌==◌, ◌-◌, ◌<◌, ◌≡◌, Option, none, some, List, ℤ, pos, negsuc, Result,
  ok, err, or_raise, index_error, length, set, get_elem?, replicate, ltb, if◌then◌else◌, ◌>>=◌,
}

-- `LockedConsensusObject()`: `[0]*8`, and then `threading`, which the file does not import.
unfoldable pub new_object : Result (List ℤ)
new_object = do object ← ok (replicate 8 (pos 0)); err name_error

-- The place that an index of a Python list of this length names, if there is one: a negative index counts
-- from the end.
unfoldable pub place : ℤ → ℕ → Option ℕ
place (pos i) n = if ltb i n then some i else none
place (negsuc i) n = if ltb i n then some (n - suc i) else none

-- `set_value`
unfoldable pub set_value : ℤ → ℤ → List ℤ → Result (List ℤ)
set_value index value object = do
  i ← or_raise index_error (place index (length object))
  ok (set object i value)

-- The index is from -n to n - 1.
abbrev pub IsWithin : ℤ → ℕ → Type 0
IsWithin (pos i) n = i < n
IsWithin (negsuc i) n = i < n

-- The place from the front that an index names in a list of this length.
abbrev pub Names : ℤ → ℕ → ℕ → Type 0
Names (pos i) n at = at ≡ i
Names (negsuc i) n at = at + suc i ≡ n

-- What an assignment has done: the place that the index names holds the value, every other place is as it
-- was, and so is the length.
pub record IsAssigned (index value : ℤ) (object after : List ℤ) : Type 0 where
  pub at : ℕ
  pub named : Names index (length object) at
  pub bounded : at < length object
  pub found : (j : ℕ) → get_elem? after j ≡ (if j == at then some value else get_elem? object j)
  pub length_eq : length after ≡ length object
