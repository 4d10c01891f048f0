-- ===== src/Consensusstate.antt =====
-- consensusstate/: the state and commands of the consensus algorithm, voting, leaders, requests, the clock
-- that proposals are checked against, and the window of vote delays.
pub mod Timestamp
pub mod VoteDelay
pub mod State
pub mod Leaders
pub mod Voting
pub mod Requests
