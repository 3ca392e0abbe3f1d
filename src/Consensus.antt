-- ===== src/Consensus.antt =====
-- src/node.py: `local_consensus`, which builds a RaftNode from the table of the neighbours, asks it for a
-- value, and stops it.
pub mod Book
pub mod Group
pub mod Outcome
mod Tests
use cs525_project.Common.{
  ℕ, String, Bool, true, false, ◌||◌, Option, none, some, List, [], ◌∷◌, negsuc, Result, ok,
  or_raise, key_error, str_eq, if◌then◌else◌, ◌>>=◌,
}
use cs525_project.Common.Dict.{Dict, lookup, insert, keys}
use cs525_project.Json.{Value, obj, field, end, nat}
use cs525_project.Membership.{Seen, Table}
use cs525_project.Raft.State.{RaftNode, follower}
use cs525_project.Raft.Config.{Contact, from_config}
use cs525_project.Raft.Client.{check_committed_entry}
use cs525_project.Raft.Thread.{Thread, Event, deciding, call_request, call_stop, step, run}

-- The contact of an address at HIGH_POWER_TX_PORT.
abbrev pub high_power : String → Contact
high_power ip = record { ip = ip; port = "60021" }

-- The loop over the keys of the table.
unfoldable pub add_neighbours : List String → Table → Dict Contact → Result (Dict Contact)
add_neighbours [] local_group comm_dict = ok comm_dict
add_neighbours (key ∷ rest) local_group comm_dict = do
  seen ← or_raise key_error (lookup key local_group)
  add_neighbours rest local_group (insert key (high_power seen.0) comm_dict)

-- The address book: the neighbours, and then this node, whose address is `ip`.
unfoldable pub address_book : String → String → Table → Result (Dict Contact)
address_book index ip local_group = do
  comm_dict ← add_neighbours (keys local_group) local_group []
  ok (insert index (high_power ip) comm_dict)

-- The node that takes part in the consensus.
unfoldable pub raft_node : String → String → Table → ℕ → (ℕ → ℕ) → Result RaftNode
raft_node index ip local_group timeout stamps = do
  comm_dict ← address_book index ip local_group
  from_config comm_dict index timeout follower stamps

-- The thread of a node, before its first step.
abbrev pub thread : RaftNode → Thread
thread s = record {
  node = s;
  phase = deciding;
  listener = record { address_list = s.all_ids; my_id = s.my_id; messages = [] };
}

-- The value that this node asks for.
abbrev pub wish : String → Value
wish index = obj (field "val" (nat (if str_eq index "2" || str_eq index "3" then 2 else 3)) end)

-- The check, and the end.
unfoldable pub finish : Thread → Result (Value × Thread)
finish t = do value ← check_committed_entry none t.node; ok (value, step call_stop t)

-- The thread at the check: `before` is what happens up to the request, and `after` from there on.
abbrev pub at_check : String → List Event → List Event → RaftNode → Thread
at_check index before after s =
    run after (step (call_request (wish index) (negsuc 0)) (run before (thread s)))

-- The value that the check reads, and the thread that is told to stop.
unfoldable pub local_consensus :
    String → String → Table → ℕ → (ℕ → ℕ) → List Event → List Event → Result (Value × Thread)
local_consensus index ip local_group timeout stamps before after = do
  s ← raft_node index ip local_group timeout stamps
  finish (at_check index before after s)
