-- ===== src/Cstypes.antt =====
-- cstypes/: votes, certificates, tips, timeouts, headers and blocks, and the rank of what a timeout
-- extends.
pub mod Certs
pub mod Rank
pub mod Codec
pub mod NewTimeout
