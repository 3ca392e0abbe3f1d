-- ===== src/Raft/Config.antt =====
-- src/raft/raft.py: `__init__` with an address book.
use Prim.Native.String.{◌++◌}
use cs525_project.Common.{
  ℕ, String, List, [], ◌∷◌, Result, ok, or_raise, key_error, str_eq, if◌then◌else◌, ◌>>=◌,
}
use cs525_project.Common.Dict.{Dict, lookup}
use cs525_project.Raft.State.{RaftNode, Role, init}

-- The dict of a node in the address book.
pub record Contact : Type 0 where
  pub ip : String
  pub port : String

-- `address_book[a]['ip'] + ':' + address_book[a]['port']`
abbrev pub address : Contact → String
address c = c.ip ++ String.◌∷◌ ":" c.port

-- `all_ids`
unfoldable pub addresses : Dict Contact → List String
addresses [] = []
addresses ((a, c) ∷ book) =
    let rest = addresses book in if str_eq a "leader" then rest else address c ∷ rest

-- `__init__`, with the address book as a dict; `timeout` is the random election timeout.
unfoldable pub from_config : Dict Contact → String → ℕ → Role → (ℕ → ℕ) → Result RaftNode
from_config book name timeout role stamps = do
  own ← or_raise key_error (lookup name book)
  ok (init name (addresses book) (address own) timeout role stamps)
