-- ===== src/Json.antt =====
-- The values that `json` carries between the nodes: Python's None, booleans, integers, texts, lists
-- and dicts with text keys.
use cs525_project.Common.{
  ℕ, String, Bool, Option, none, some, ℤ, pos, str_eq, Result, or_raise, key_error, if◌then◌else◌,
}

mutual
  -- The keys and values of a dict, in the order of insertion.
  pub data Fields : Type 0 where
    end : Fields
    field : String → Value → Fields → Fields

  pub data Elements : Type 0 where
    empty : Elements
    element : Value → Elements → Elements

  pub data Value : Type 0 where
    null : Value
    bool : Bool → Value
    num : ℤ → Value
    str : String → Value
    arr : Elements → Value
    obj : Fields → Value

-- The entry of a dict, if the key is there.
unfoldable pub lookup : String → Fields → Option Value
lookup k end = none
lookup k (field j v m) = if str_eq j k then some v else lookup k m

-- `d[k]`, which raises KeyError on a missing key.
unfoldable pub get : String → Fields → Result Value
unfolding lookup
get k m = or_raise key_error (lookup k m)

-- `d.update(e)` for two dicts without a common key: the keys of `e` come last.
unfoldable pub update : Fields → Fields → Fields
update end e = e
update (field k v m) e = field k v (update m e)

-- None or a value.
abbrev pub or_null {ℓ} : {A : Type ℓ} → (A → Value) → Option A → Value
or_null f none = null
or_null f (some a) = f a

abbrev pub nat : ℕ → Value
nat n = num (pos n)
