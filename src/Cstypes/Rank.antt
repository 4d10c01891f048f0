-- ===== src/Cstypes/Rank.antt =====
-- cstypes/timeout.go: HighExtendRank and its order.
use monadbft_go.Base.{
  ℕ, suc, ◌+◌, ◌*◌, ◌≤◌, ◌<◌, ◌≡◌, ◌⊎◌, ◌↔◌, inl, inr, refl, Bool, true, false, arith, ltb, ◌==◌,
  if◌then◌else◌,
}
use monadbft_go.Types.{Round, genesis_round}
use monadbft_go.Cstypes.Certs.{HighExtend, TimeoutInfo, HighTipRoundSigColTuple}
pub mod Order
mod Examples

pub data HighExtendRank : Type 0 where
  qc_rank : Round → HighExtendRank
  tip_rank : Round → Round → HighExtendRank

-- Go's -1, 0 and 1.
pub data Sign : Type 0 where
  less same more : Sign

abbrev cmp_r : Round → Round → Sign
cmp_r x y = if ltb x y then less else if ltb y x then more else same

unfoldable pub cmp : HighExtendRank → HighExtendRank → Sign
cmp (qc_rank a) (qc_rank b) = cmp_r a b
cmp (tip_rank t q) (tip_rank t' q') = if t == t' then cmp_r q q' else cmp_r t t'
cmp (qc_rank a) (tip_rank t q) = if a == t then more else cmp_r a t
cmp (tip_rank t q) (qc_rank b) = if t == b then less else cmp_r t b

unfoldable pub rank : HighExtend → HighExtendRank
rank (HighExtend.tip t) = tip_rank t.block_header.block_round t.block_header.qc.info.round
rank (HighExtend.qc q) = qc_rank q.info.round

-- TimeoutInfo.Rank and HighTipRoundSigColTuple.Rank have the same body.
unfoldable pub info_rank : TimeoutInfo → HighExtendRank
info_rank t =
    if t.high_tip_round == genesis_round
    then qc_rank t.high_qc_round
    else tip_rank t.high_tip_round t.high_qc_round

pub tuple_rank : HighTipRoundSigColTuple → HighExtendRank
tuple_rank t =
    if t.high_tip_round == genesis_round
    then qc_rank t.high_qc_round
    else tip_rank t.high_tip_round t.high_qc_round
