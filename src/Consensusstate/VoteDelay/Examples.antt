-- ===== src/Consensusstate/VoteDelay/Examples.antt =====
-- consensusstate/vote_delay.go: three samples, the first of which is too old.
use monadbft_go.Base.{◌+◌, ◌≡◌, List, [], ◌∷◌, keep, ltb, leb, length, arith}
use monadbft_go.Consensusstate.VoteDelay.{TimedVoteDelaySample, prune}
use monadbft_go.Consensusstate.VoteDelay.Window.{prune-keep}

abbrev three_samples : List TimedVoteDelaySample
three_samples =
    record { recorded_at_ms = 1000; ready_after_timer_start_ms = 7 }
    ∷ record { recorded_at_ms = 200000; ready_after_timer_start_ms = 9 }
    ∷ record { recorded_at_ms = 310000; ready_after_timer_start_ms = 2 }
    ∷ []

prune-keep_example :
    ((prune 400000 three_samples).1
      ≡ keep (λ s. leb 400000 (s.recorded_at_ms + 300000)) three_samples)
    × ((prune 400000 three_samples).0
        ≡ ltb (length (prune 400000 three_samples).1) (length three_samples))
prune-keep_example =
    prune-keep 400000 three_samples
      ((omega arith, (omega arith, tt)), ((omega arith, tt), (tt, tt)))
