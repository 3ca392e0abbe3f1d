-- ===== src/Raft/Client.antt =====
-- src/raft/raft.py: the public methods, which other threads call, and the queue of client requests.
use cs525_project.Common.{
  List, Option, none, some, [], ◌∷◌, ◌++◌, ℤ, Result, ok, err, index_error, get_elem?, true,
}
use cs525_project.Json.{Value, null}
use cs525_project.Protocol.{Entry}
use cs525_project.Protocol.Wire.{entry_dict}
use cs525_project.Raft.State.{RaftNode, Role, follower, paused}
use cs525_project.Raft.Log.{hash_get, set_current_role}

-- `client_request`
unfoldable pub client_request : Value → ℤ → RaftNode → RaftNode
client_request value id_num s = record s {
  client_queue =
      s.client_queue ++ (record { term = s.current_term; entry = value; id = id_num }) ∷ [];
}

-- `_get_client_request`: the oldest request, if there is one
abbrev pub pop_request : List Entry → RaftNode → Option Entry × RaftNode
pop_request [] s = (none, s)
pop_request (e ∷ rest) s = (some e, record s { client_queue = rest })

unfoldable pub get_client_request : RaftNode → Option Entry × RaftNode
get_client_request s = pop_request s.client_queue s

-- The value of an entry of the log.
abbrev pub entry_value : Option Entry → Result Value
entry_value none = err index_error
entry_value (some e) = ok e.entry

-- `self.log_hash.get(id_num, None)`
abbrev pub entry_or_null : Option Entry → Result Value
entry_or_null none = ok null
entry_or_null (some e) = ok (entry_dict e)

-- `check_committed_entry`: the value at the commit index, or the entry that was last stored under
-- an id
unfoldable pub check_committed_entry : Option ℤ → RaftNode → Result Value
unfolding hash_get
check_committed_entry none s = entry_value (get_elem? s.log s.commit_index)
check_committed_entry (some id_num) s = entry_or_null (hash_get id_num s.log_hash)

-- `check_role`
abbrev pub check_role : RaftNode → Role
check_role s = s.current_role

-- `pause`
unfoldable pub pause : RaftNode → RaftNode
unfolding set_current_role
pause s = set_current_role paused s

-- `un_pause`, which does nothing to a node that is not paused
abbrev pub wake : Role → RaftNode → RaftNode
wake paused s = set_current_role follower s
wake _ s = s

unfoldable pub un_pause : RaftNode → RaftNode
un_pause s = wake (check_role s) s

-- `stop`; the talker and the listener are processes of their own.
unfoldable pub stop : RaftNode → RaftNode
stop s = record s { terminate = true }
