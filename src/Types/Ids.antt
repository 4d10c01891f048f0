-- ===== src/Types/Ids.antt =====
-- types/types.go: the integer and identifier types and the genesis constants.
use monadbft_go.Base.{ℕ}

-- Round, Epoch and SeqNum are uint64.
abbrev pub Round : Type 0
Round = ℕ

abbrev pub Epoch : Type 0
Epoch = ℕ

abbrev pub SeqNum : Type 0
SeqNum = ℕ

-- [32]byte, as the number below 2 ^ 256 that it spells.
abbrev pub Hash : Type 0
Hash = ℕ

abbrev pub BlockId : Type 0
BlockId = Hash

-- The 33 bytes of a compressed public key.
abbrev pub NodeId : Type 0
NodeId = ℕ

-- A [32]byte big-endian U256, by its value.
abbrev pub Stake : Type 0
Stake = ℕ

-- The 96 bytes of a compressed BLS signature.
abbrev pub Signature : Type 0
Signature = ℕ

abbrev pub genesis_seq_num : SeqNum
genesis_seq_num = 0

abbrev pub genesis_round : Round
genesis_round = 0

abbrev pub genesis_epoch : Epoch
genesis_epoch = 1

abbrev pub genesis_block_id : BlockId
genesis_block_id = 0
