-- ===== src/Protocol.antt =====
-- src/raft/protocol.py: the messages between the nodes. The fields keep the types that the node
-- gives them: counters are numbers, what may be None is an option. `type` and `direction` are the
-- integers of the classes MessageType and MessageDirection.
pub mod MessageType
pub mod MessageDirection
pub mod Wire
pub mod RoundTrip
pub mod Parsing
use cs525_project.Common.{ℕ, String, Bool, Option, none, some, ℤ}
use cs525_project.Json.{Value}

-- An entry of the log, a dict of three fields in raft.py. An `id` is an integer here.
pub record Entry : Type 0 where
  pub term : ℕ
  pub entry : Value
  pub id : ℤ

pub record RequestVotesResults : Type 0 where
  pub term : Option ℕ
  pub vote_granted : Option Bool

pub record AppendEntriesResults : Type 0 where
  pub term : Option ℕ
  pub success : Option Bool

-- `BaseMessage._results` holds an object of either class.
pub data Results : Type 0 where
  votes : RequestVotesResults → Results
  appends : AppendEntriesResults → Results

pub record BaseMessage : Type 0 where
  pub timestamp : ℕ
  pub type_ : ℕ
  pub term : ℕ
  pub sender : String
  pub receiver : Option String
  pub direction : ℕ
  pub results : Results

pub record RequestVotesMessage : Type 0 where
  pub base : BaseMessage
  pub open base use *
  pub candidate_id : String
  pub last_log_index : ℕ
  pub last_log_term : ℕ

pub record AppendEntriesMessage : Type 0 where
  pub base : BaseMessage
  pub open base use *
  pub leader_id : Option String
  pub prev_log_index : Option ℕ
  pub prev_log_term : Option ℕ
  pub entries : Option Entry
  pub leader_commit : ℕ

-- The two classes of messages.
pub data Message : Type 0 where
  request_votes_message : RequestVotesMessage → Message
  append_entries_message : AppendEntriesMessage → Message

abbrev pub base_of : Message → BaseMessage
base_of (request_votes_message m) = m.base
base_of (append_entries_message m) = m.base

-- The objects that the constructors make up when no results are given.
abbrev pub default_votes : Results
default_votes = votes (record { term = none; vote_granted = none })

abbrev pub default_appends : Results
default_appends = appends (record { term = none; success = none })
