-- ===== src/Protocol/Parsing.antt =====
-- What src/raft/protocol.py makes of any dict: `parse_json_message` on the keys and values of another
-- node.
use cs525_project.Common.{
  ℕ, String, ◌≡◌, ◌≢◌, Option, none, some, key_error, not_modelled, Result, ok, err, ◌>>=◌, ◌⊎◌,
}
use cs525_project.Json.{Value, Fields, get}
use cs525_project.Protocol.{Results, votes, appends, BaseMessage, Message, base_of}
use cs525_project.Protocol.MessageType
use cs525_project.Protocol.RoundTrip.{IsWellTyped}
use cs525_project.Protocol.Wire.{as_nat}

-- A reading gives a value of the property, or raises KeyError, or meets a value of a type that the model
-- has no place for.
abbrev pub Outcome : {A : Type 0} → (A → Type 0) → Result A → Type 0
Outcome P (ok a) = P a
Outcome P (err e) = (e ≡ key_error) ⊎ (e ≡ not_modelled)

record Reads {A : Type 0} (P : A → Type 0) (r : Result A) : Type 0 where
  outcome : Outcome P r

abbrev Any : {A : Type 0} → A → Type 0
Any a = Unit

-- The value of a key, read in some way.
abbrev pub read_key : {A : Type 0} → (Value → Result A) → String → Fields → Result A
read_key f k d = get k d >>= f

-- The class of the results.
abbrev AreVotes : Results → Type 0
AreVotes x = (r : _) × (x ≡ votes r)

abbrev AreAppends : Results → Type 0
AreAppends x = (r : _) × (x ≡ appends r)

-- The class that goes with a type.
abbrev Suits : ℕ → Results → Type 0
Suits type_ x =
    (type_ ≡ MessageType.request_votes → AreVotes x)
    × (type_ ≢ MessageType.request_votes → AreAppends x)

-- The type is that of the dict, and the class of the results goes with it.
record IsBase (d : Fields) (b : BaseMessage) : Type 0 where
  type_read : read_key as_nat "type" d ≡ ok b.type_
  of_votes : b.type_ ≡ MessageType.request_votes → AreVotes b.results
  of_appends : b.type_ ≢ MessageType.request_votes → AreAppends b.results

-- What holds of a message that was read from the dict.
abbrev pub IsOf : Fields → Message → Type 0
IsOf d m = IsWellTyped m × (read_key as_nat "type" d ≡ ok (base_of m).type_)

-- What parsing gives for a dict: a message, never None.
abbrev pub IsParsed : Fields → Option Message → Type 0
IsParsed d none = ⊥
IsParsed d (some m) = IsOf d m
