-- ===== src/Cstypes/Rank/Order.antt =====
-- The order on ranks (cstypes/timeout.go) is a total order.
use monadbft_go.Base.{◌≤◌, ◌<◌, ◌≡◌, ◌⊎◌, ◌↔◌, arith}
use monadbft_go.Cstypes.Rank.{HighExtendRank, qc_rank, tip_rank, less, same, more, cmp}

-- An independent reading: compare the rounds; at one round a certificate stands above every tip, and
-- tips go by the round of their own certificate.
abbrev pub Below : HighExtendRank → HighExtendRank → Type 0
Below (qc_rank a) (qc_rank b) = a < b
Below (qc_rank a) (tip_rank t q) = a < t
Below (tip_rank t q) (qc_rank b) = t ≤ b
Below (tip_rank t q) (tip_rank t' q') = (t < t') ⊎ ((t ≡ t') × (q < q'))

-- Each answer of `cmp` on two ranks says exactly how its arguments stand.
pub cmp-Below :
    (a b : HighExtendRank)
    → ((cmp a b ≡ less) ↔ Below a b) × ((cmp a b ≡ more) ↔ Below b a) × ((cmp a b ≡ same) ↔ (a ≡ b))
unfolding cmp
cmp-Below (qc_rank a) (qc_rank b) = ground arith
cmp-Below (qc_rank a) (tip_rank t q) = ground arith
cmp-Below (tip_rank t q) (qc_rank b) = ground arith
cmp-Below (tip_rank t q) (tip_rank t' q') = ground arith

-- The order that `cmp` decides on ranks is transitive.
pub cmp_trans : (a b c : HighExtendRank) → cmp a b ≡ less → cmp b c ≡ less → cmp a c ≡ less
unfolding cmp
cmp_trans (qc_rank a) (qc_rank b) (qc_rank c) p q = ground arith
cmp_trans a b c p q = ground arith
