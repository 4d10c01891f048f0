-- ===== src/Types/Arith.antt =====
-- types/types.go: arithmetic on rounds and sequence numbers, and the epoch of a sequence number.
pub mod Epochs
mod Examples
use monadbft_go.Base.{ℕ, ◌+◌, ◌-◌, ◌/◌, ◌%◌, ◌^◌, Bool, false, not, ◌&&◌, Option, none, some}
use monadbft_go.Base.{ltb, ◌==◌, if◌then◌else◌, add64, sub64, mul64}
use monadbft_go.Types.Ids.{Round, Epoch, SeqNum}

pub saturating_add : SeqNum → SeqNum → SeqNum
saturating_add s o = let r = add64 s o in if ltb r s then 2 ^ 64 - 1 else r

pub saturating_sub : SeqNum → SeqNum → SeqNum
saturating_sub s o = if ltb s o then 0 else sub64 s o

pub immediately_follows : Round → Round → Bool
immediately_follows r prev = not (prev == 2 ^ 64 - 1) && r == add64 prev 1

-- Go panics on a division by zero: `none`.
pub is_boundary_block : SeqNum → SeqNum → Option Bool
is_boundary_block s epoch_length =
    if epoch_length == 0 then none else some (s % epoch_length == sub64 epoch_length 1)

pub to_epoch : SeqNum → SeqNum → Option Epoch
to_epoch s epoch_length = if epoch_length == 0 then none else some (add64 (s / epoch_length) 1)

pub get_epoch : SeqNum → SeqNum → ℕ → Option Epoch
unfolding to_epoch
get_epoch s epoch_length n = elim (to_epoch s epoch_length) [
  | none ↦ none
  | some epoch ↦ some (sub64 (add64 epoch n) 1)
]

-- Panics also on a block that is not a boundary block.
pub get_locked_epoch : SeqNum → SeqNum → Option Epoch
get_locked_epoch s epoch_length = elim (is_boundary_block s epoch_length) [
  | none ↦ none
  | some boundary ↦
      if boundary
      then elim (to_epoch s epoch_length) [ none ↦ none | some epoch ↦ some (add64 epoch 1) ]
      else none
]
