-- ===== src/Types/Arith/Epochs.antt =====
-- types/types.go: how sequence numbers fall into epochs, and saturating arithmetic.
use monadbft_go.Base.{
  ℕ, ◌+◌, ◌-◌, ◌/◌, ◌%◌, ◌^◌, ◌<◌, ◌≡◌, ◌≢◌, ◌⊎◌, inl, inr, true, false, some, none, arith, ◌==◌,
  IsU64, Bool-cases,
}
use native.Mathlib.Nat.{div-add-mod, mod-lt, div-eq_of_lt-le, div-le_self}
use Prim.Native.Nat.{min}
use monadbft_go.Types.Ids.{SeqNum}
use monadbft_go.Types.Arith.{
  saturating_add, saturating_sub, is_boundary_block, to_epoch, get_locked_epoch,
}

-- On 64-bit values the saturating operations are the exact ones, cut off at the ends of the range.
pub saturating_lem :
    (s o : SeqNum)
    → IsU64 s
    → IsU64 o
    → (saturating_add s o ≡ min (s + o) (2 ^ 64 - 1)) × (saturating_sub s o ≡ s - o)
unfolding saturating_add saturating_sub
saturating_lem s o hs ho = ground arith

next_quotient : (s l : ℕ) → 0 < l → s % l ≡ l - 1 → (s + 1) / l ≡ s / l + 1
next_quotient s l h e =
    div-eq_of_lt-le l (grind (arith, div-add-mod s l)) (grind (arith, div-add-mod s l))

same_quotient : (s l : ℕ) → 0 < l → s % l ≢ l - 1 → (s + 1) / l ≡ s / l
same_quotient s l h e =
    div-eq_of_lt-le l (grind (arith, div-add-mod s l)) (grind (arith, div-add-mod s l, mod-lt s h))

-- The epoch changes exactly behind a boundary block, and then by one; `get_locked_epoch` accepts
-- boundary blocks only and gives the epoch of the block that follows.
pub epoch_of_next :
    (s l : SeqNum)
    → 0 < l
    → IsU64 l
    → IsU64 (s + 2)
    → ((is_boundary_block s l ≡ some true)
        × (to_epoch (s + 1) l ≡ some (s / l + 2))
        × (get_locked_epoch s l ≡ to_epoch (s + 1) l))
      ⊎ ((is_boundary_block s l ≡ some false)
          × (to_epoch (s + 1) l ≡ to_epoch s l)
          × (get_locked_epoch s l ≡ none))
unfolding is_boundary_block to_epoch get_locked_epoch
epoch_of_next s l h hl hs = elim (Bool-cases (s % l == l - 1)) [
  | inl b ↦ inl (ground (arith, next_quotient s l h, div-le_self s l))
  | inr b ↦ inr (ground (arith, same_quotient s l h, div-le_self s l))
]
