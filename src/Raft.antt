-- ===== src/Raft.antt =====
-- src/raft/raft.py: class RaftNode.
pub mod State
pub mod Config
pub mod Send
pub mod Log
pub mod Client
pub mod Follower
pub mod Candidate
pub mod Committable
pub mod Leader
pub mod Thread
pub mod Relates
pub mod Granted
pub mod Frame
pub mod Voting
pub mod Ballot
pub mod Grows
pub mod Rounds
pub mod Elections
pub mod Hash
pub mod Roles
pub mod AppendOnly
pub mod Returns
pub mod Leadership
pub mod Replication
pub mod Sane
pub mod Cluster
mod Tests
