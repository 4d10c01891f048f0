-- ===== src/Consensusstate/VoteDelay.antt =====
-- consensusstate/vote_delay.go: a sliding window of how long votes were ready before their timer.
pub mod Window
mod Examples
use monadbft_go.Base.{
  ℕ, zero, suc, ◌-◌, ◌/◌, ◌^◌, ◌*◌, Bool, true, false, Option, none, some, List, [], ◌∷◌, ◌++◌, map,
  ltb, if◌then◌else◌, length, get_elem?, add64, mul64,
}
use monadbft_go.Base.Sort.{sort}
use monadbft_go.Types.{Round}
use monadbft_go.Types.U128.{U128}

abbrev pub vote_delay_window_ms : ℕ
vote_delay_window_ms = 5 * 60 * 1000

unfoldable pub ns_to_ms : U128 → ℕ
ns_to_ms t = if ltb 0 t.hi then 2 ^ 64 - 1 else t.lo / 1000000

pub record VoteDelayTimerStart : Type 0 where
  pub round : Round
  pub started_at_ms : ℕ

pub record TimedVoteDelaySample : Type 0 where
  pub recorded_at_ms : ℕ
  pub ready_after_timer_start_ms : ℕ

abbrev pub min_u64 : ℕ → ℕ → ℕ
min_u64 a b = if ltb a b then a else b

abbrev pub cutoff : ℕ → ℕ
cutoff now = now - min_u64 now vote_delay_window_ms

-- Old samples leave at the front; the flag says whether any did.
unfoldable pub prune_from : ℕ → List TimedVoteDelaySample → Bool → Bool × List TimedVoteDelaySample
prune_from limit [] pruned = (pruned, [])
prune_from limit (s ∷ samples) pruned =
    let rest = prune_from limit samples true in
    if ltb s.recorded_at_ms limit then rest else (pruned, s ∷ samples)

unfoldable pub prune : ℕ → List TimedVoteDelaySample → Bool × List TimedVoteDelaySample
unfolding prune_from
prune now samples = prune_from (cutoff now) samples false

unfoldable pub record_ready_after_timer_start :
    ℕ → ℕ → List TimedVoteDelaySample → List TimedVoteDelaySample
record_ready_after_timer_start now ready samples =
    (prune now samples).1
    ++ (record { recorded_at_ms = now; ready_after_timer_start_ms = ready } ∷ [])

-- The rank counts from 1; an index out of range panics.
pub percentile : List ℕ → ℕ → Option ℕ
percentile sorted p =
    let rank = add64 (mul64 (length sorted) p) 99 / 100 in
    get_elem? sorted ((if ltb rank 1 then 1 else rank) - 1)

-- The gauges of 50, 90 and 99 percent; `none` is a panic.
pub record Gauges : Type 0 where
  pub p50 : ℕ
  pub p90 : ℕ
  pub p99 : ℕ

pub gauges_of : Option ℕ → Option ℕ → Option ℕ → Option Gauges
gauges_of (some a) (some b) (some c) = some (record { p50 = a; p90 = b; p99 = c })
gauges_of _ _ _ = none

pub update_metrics : List TimedVoteDelaySample → Option Gauges
unfolding percentile gauges_of
update_metrics [] = some (record { p50 = 0; p90 = 0; p99 = 0 })
update_metrics (s ∷ samples) =
    let values = sort (map (λ x. x.ready_after_timer_start_ms) (s ∷ samples)) in
    gauges_of (percentile values 50) (percentile values 90) (percentile values 99)

-- The samples that are left, and the gauges, which change only where a sample left.
pub refresh : ℕ → List TimedVoteDelaySample → Gauges → List TimedVoteDelaySample × Option Gauges
unfolding update_metrics
refresh now samples gauges =
    let left = prune now samples in (left.1, if left.0 then update_metrics left.1 else some gauges)
