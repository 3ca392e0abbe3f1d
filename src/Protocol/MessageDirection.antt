-- ===== src/Protocol/MessageDirection.antt =====
-- src/raft/protocol.py, class MessageDirection.
use cs525_project.Common.{ℕ}

abbrev pub request : ℕ
request = 0

abbrev pub response : ℕ
response = 1
