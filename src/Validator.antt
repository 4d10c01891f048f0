-- ===== src/Validator.antt =====
-- validator/: stake-weighted validator sets, the epoch manager and the leader's place in the stake.
pub mod ValidatorSet
pub mod EpochManager
pub mod Mapping
pub mod EpochMapping
