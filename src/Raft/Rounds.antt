-- ===== src/Raft/Rounds.antt =====
-- Each round of each role makes the term and the votes grow, but for the one exception that
-- Rounds/Candidate names.
pub mod Follower
pub mod Candidate
pub mod Leader
