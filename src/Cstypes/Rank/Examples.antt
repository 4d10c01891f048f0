-- ===== src/Cstypes/Rank/Examples.antt =====
-- cstypes/timeout.go: ranks at concrete rounds.
use monadbft_go.Base.{◌≡◌, ◌↔◌, refl}
use monadbft_go.Cstypes.Rank.{qc_rank, tip_rank, less, same, more, cmp}
use monadbft_go.Cstypes.Rank.Order.{Below, cmp-Below}

-- At one round a certificate stands above a tip.
certificate_wins : cmp (tip_rank 5 3) (qc_rank 5) ≡ less
unfolding cmp
certificate_wins = refl

tip_wins : cmp (qc_rank 5) (tip_rank 6 4) ≡ less
unfolding cmp
tip_wins = refl

cmp-Below_example :
    ((cmp (tip_rank 5 3) (tip_rank 5 4) ≡ less) ↔ Below (tip_rank 5 3) (tip_rank 5 4))
    × ((cmp (tip_rank 5 3) (tip_rank 5 4) ≡ more) ↔ Below (tip_rank 5 4) (tip_rank 5 3))
    × ((cmp (tip_rank 5 3) (tip_rank 5 4) ≡ same) ↔ (tip_rank 5 3 ≡ tip_rank 5 4))
cmp-Below_example = cmp-Below (tip_rank 5 3) (tip_rank 5 4)
