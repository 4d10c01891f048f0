-- ===== src/Types.antt =====
-- types/types.go: rounds, epochs, sequence numbers, identifiers and their arithmetic.
-- A fixed byte array (BlockId, NodeId, Hash, a compressed signature) is the big-endian number that
-- its bytes spell: on arrays of one length, equality and bytes.Compare are those of the numbers.
pub mod Ids
pub mod Arith
pub use Ids.*
pub mod U128
