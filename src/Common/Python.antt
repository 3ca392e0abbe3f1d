-- ===== src/Common/Python.antt =====
-- Python's exceptions, and a computation that returns or raises.
use Prim.Native.Nat.{ℕ}
use mathlib.Core.List.{List}
use mathlib.Core.Option.{Option, none, some}
use cs525_project.Common.Lists.{get_elem?}

-- The last is no error of Python: the code goes on with a value of a type that the model has no place for.
pub data Error : Type 0 where
  index_error value_error key_error type_error attribute_error name_error not_modelled : Error

pub data Result {ℓ} (A : Type ℓ) : Type ℓ where
  ok : A → Result A
  err : Error → Result A

abbrev pub or_raise {ℓ} : {A : Type ℓ} → Error → Option A → Result A
or_raise e none = err e
or_raise e (some a) = ok a

-- `xs[i]` for an index that is not negative
abbrev pub item {ℓ} : {A : Type ℓ} → List A → ℕ → Result A
item xs i = or_raise index_error (get_elem? xs i)

infixl 5 ◌>>=◌
abbrev pub ◌>>=◌ {ℓ κ} : {A : Type ℓ} {B : Type κ} → Result A → (A → Result B) → Result B
ok a >>= f = f a
err e >>= f = err e
