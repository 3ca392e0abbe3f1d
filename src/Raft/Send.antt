-- ===== src/Raft/Send.antt =====
-- src/raft/raft.py: the `_send_…` methods. Each builds a message and hands it to the talker.
use cs525_project.Common.{ℕ, String, Bool, Option, none, some, [], ◌∷◌, ◌++◌, length}
use cs525_project.Protocol.{
  Entry, Results, votes, appends, BaseMessage, Message, request_votes_message,
  append_entries_message, default_votes, default_appends,
}
use cs525_project.Protocol.MessageType
use cs525_project.Protocol.MessageDirection
use cs525_project.Raft.State.{RaftNode}

-- The arguments that every message of a node shares, and the timestamp that the constructor adds.
abbrev pub base_message : ℕ → Option String → ℕ → Results → RaftNode → BaseMessage
base_message type_ receiver direction results s = record {
  timestamp = s.stamps (length s.outbox);
  type_ = type_;
  term = s.current_term;
  sender = s.my_id;
  receiver = receiver;
  direction = direction;
  results = results;
}

-- `_send_message`
unfoldable pub send_message : Message → RaftNode → RaftNode
send_message m s = record s { outbox = s.outbox ++ m ∷ [] }

-- `_send_request_vote`
unfoldable pub send_request_vote : Option String → RaftNode → RaftNode
send_request_vote receiver s =
    send_message
      (request_votes_message (record {
        base =
            base_message MessageType.request_votes receiver MessageDirection.request default_votes
              s;
        candidate_id = s.my_id;
        last_log_index = s.last_applied_index;
        last_log_term = s.last_applied_term;
      }))
      s

-- The message of `_send_vote`.
abbrev pub vote_message : String → Bool → RaftNode → Message
vote_message candidate granted s = request_votes_message (record {
  base =
      base_message MessageType.request_votes (some candidate) MessageDirection.response
        (votes (record { term = some s.current_term; vote_granted = some granted })) s;
  candidate_id = candidate;
  last_log_index = s.last_applied_index;
  last_log_term = s.last_applied_term;
})

-- `_send_vote`, which records the candidate whether or not the vote is granted
unfoldable pub send_vote : String → Bool → RaftNode → RaftNode
send_vote candidate granted s = record (send_message (vote_message candidate granted s) s) {
  voted_for = some candidate;
}

-- `_send_heartbeat`
unfoldable pub send_heartbeat : RaftNode → RaftNode
send_heartbeat s =
    send_message
      (append_entries_message (record {
        base = base_message MessageType.heartbeat none MessageDirection.request default_appends s;
        leader_id = some s.my_id;
        prev_log_index = none;
        prev_log_term = none;
        entries = none;
        leader_commit = s.commit_index;
      }))
      s

-- `_send_append_entries`
unfoldable pub send_append_entries : ℕ → ℕ → Entry → Option String → RaftNode → RaftNode
send_append_entries index term entries receiver s =
    send_message
      (append_entries_message (record {
        base =
            base_message MessageType.append_entries receiver MessageDirection.request
              default_appends s;
        leader_id = some s.my_id;
        prev_log_index = some index;
        prev_log_term = some term;
        entries = some entries;
        leader_commit = s.commit_index;
      }))
      s

-- The message of `_send_committal`, which does not use the index that it is given.
abbrev pub committal_message : String → RaftNode → Message
committal_message receiver s = append_entries_message (record {
  base =
      base_message MessageType.committal (some receiver) MessageDirection.request default_appends s;
  leader_id = some s.my_id;
  prev_log_index = some s.last_applied_index;
  prev_log_term = some s.last_applied_term;
  entries = none;
  leader_commit = s.commit_index;
})

-- `_send_committal`
unfoldable pub send_committal : ℕ → String → RaftNode → RaftNode
send_committal index receiver s = send_message (committal_message receiver s) s

-- The message of `_send_acknowledge`.
abbrev pub acknowledge_message : Option String → Bool → RaftNode → Message
acknowledge_message receiver success s = append_entries_message (record {
  base =
      base_message MessageType.acknowledge receiver MessageDirection.response
        (appends (record { term = some s.current_term; success = some success })) s;
  leader_id = s.leader_id;
  prev_log_index = some s.last_applied_index;
  prev_log_term = some s.last_applied_term;
  entries = none;
  leader_commit = s.commit_index;
})

-- `_send_acknowledge`
unfoldable pub send_acknowledge : Option String → Bool → RaftNode → RaftNode
send_acknowledge receiver success s = send_message (acknowledge_message receiver success s) s

-- `_send_client_request`
unfoldable pub send_client_request : Option String → Entry → RaftNode → RaftNode
send_client_request receiver entry s =
    send_message
      (append_entries_message (record {
        base =
            base_message MessageType.client_request receiver MessageDirection.response
              default_appends s;
        leader_id = s.leader_id;
        prev_log_index = some s.last_applied_index;
        prev_log_term = some s.last_applied_term;
        entries = some entry;
        leader_commit = s.commit_index;
      }))
      s
