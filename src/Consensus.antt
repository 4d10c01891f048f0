-- ===== src/Consensus.antt =====
-- consensus/: the safety rules, the vote and no-endorsement states and the pacemaker.
pub mod Safety
pub mod Pacemaker
pub mod Tally
pub mod VoteState
pub mod NeState
