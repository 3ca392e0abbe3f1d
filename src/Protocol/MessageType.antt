-- ===== src/Protocol/MessageType.antt =====
-- src/raft/protocol.py, class MessageType.
use cs525_project.Common.{ℕ}

abbrev pub request_votes : ℕ
request_votes = 0

abbrev pub request_vote_response : ℕ
request_vote_response = 1

abbrev pub heartbeat : ℕ
heartbeat = 2

abbrev pub acknowledge : ℕ
acknowledge = 3

abbrev pub append_entries : ℕ
append_entries = 4

abbrev pub committal : ℕ
committal = 5

abbrev pub client_request : ℕ
client_request = 6
