-- ===== src/Membership.antt =====
-- src/node.py and src/edge.py: the tables of the nodes that were heard from lately. A table is a
-- dict of an address and a time for each id.
pub mod Sweep
pub mod Advertise
pub mod Fresh
pub mod Node
pub mod Edge
pub mod Keeping
pub mod Spacing
pub mod EdgeKeeping
pub mod Neighbours
mod Tests
use cs525_project.Common.Dict.{Dict, lookup, insert, delete, keys}
use cs525_project.Common.Parts.{parts, with_comma}
use cs525_project.Common.{
  ℕ, ◌-◌, String, Bool, Option, none, some, List, [], ◌∷◌, Error, Result, ok, err, index_error,
  value_error, key_error, leb, ltb, str_eq, if◌then◌else◌, ◌>>=◌,
}

-- The value of a node: its address, and the time of its last message.
abbrev pub Seen : Type 0
Seen = String × ℕ

abbrev pub Table : Type 0
Table = Dict Seen

-- `f"{address},{NODE_INDEX}"`, what `bluetooth_sender` and `edge_responder` of node.py send.
abbrev pub advertisement : String → String → String
advertisement address id = with_comma address id

-- Exactly an address and an id.
abbrev pub on_two_parts : List String → ℕ → Table → Result Table
on_two_parts (unicast_address ∷ node_id ∷ []) now local_group =
    ok (insert node_id (unicast_address, now) local_group)
on_two_parts _ now local_group = err value_error

-- `bluetooth_process_advertisement` of node.py
unfoldable pub bluetooth_process_advertisement : String → ℕ → Table → Result Table
bluetooth_process_advertisement message now local_group =
    on_two_parts (parts message) now local_group

-- An address, an id, and anything.
abbrev pub on_parts : List String → ℕ → Table → Result Table
on_parts (address ∷ id ∷ _) now known_nodes = ok (insert id (address, now) known_nodes)
on_parts _ now known_nodes = err index_error

-- One message in the loop of `maintain_existing_connection` of edge.py.
unfoldable pub maintain_existing_connection : String → ℕ → Table → Result Table
maintain_existing_connection message now known_nodes = on_parts (parts message) now known_nodes

-- What a table is after an advertisement, handled in a future that nobody reads, so that an exception
-- is lost.
abbrev pub kept : Result Table → Table → Table
kept (ok after) before = after
kept (err e) before = before

-- The body of the loop over the keys, for a key that was looked up.
abbrev pub forget_if_silent : ℕ → ℕ → String → Option Seen → Table → Result Table
forget_if_silent timer systime key none table = err key_error
forget_if_silent timer systime key (some (address, time)) table =
    if leb timer (systime - time) then ok (delete key table) else ok table

-- The loop over the keys in `main` of node.py and of edge.py, which forgets the nodes that have been
-- silent for the time `timer`.
unfoldable pub forget_silent : ℕ → ℕ → List String → Table → Result Table
forget_silent timer systime [] table = ok table
forget_silent timer systime (key ∷ rest) table =
    forget_if_silent timer systime key (lookup key table) table >>= forget_silent timer systime rest

-- The address of the edge server and the time of its last broadcast, in `main` of node.py.
unfoldable pub forget_edge : ℕ → ℕ → Option Seen → Option Seen
forget_edge timer systime none = none
forget_edge timer systime (some (address, time)) =
    if leb timer (systime - time) then none else some (address, time)

-- `edge_process_advertisement` of node.py
unfoldable pub edge_process_advertisement : String → ℕ → Option Seen → Option Seen
edge_process_advertisement message now edge_server_address_time = some (message, now)
