-- ===== src/Consensusstate/Timestamp/Examples.antt =====
-- consensusstate/timestamp.go: a clock at 1000 with a tolerance of 100.
use monadbft_go.Base.{ℕ, ◌+◌, ◌^◌, ◌<◌, ◌≤◌, ◌≡◌, ◌⊎◌, refl, true, false, some, arith}
use monadbft_go.Types.U128.{U128, is_below, checked_sub, u128_saturating_sub, abs_diff, u128_add}
use monadbft_go.Types.U128.Values.{value, IsU128}
use monadbft_go.Consensusstate.Timestamp.{
  BlockTimestamp, TimestampAdjustment, backward, valid_bounds, valid_block_timestamp,
}
use monadbft_go.Consensusstate.Timestamp.Accepts.{accepted_is_later}

abbrev ns : ℕ → U128
ns n = record { hi = 0; lo = n }

abbrev clock : BlockTimestamp
clock = record { local_time_ns = ns 1000; max_delta_ns = ns 100; latency_estimate_ns = ns 10 }

small-IsU128 : (n : ℕ) → n < 2 ^ 64 → IsU128 (ns n)
small-IsU128 n h = record { high = omega arith; low = h }

abbrev adjusted : TimestampAdjustment
adjusted = record { delta = ns 20; direction = backward }

accepted_970 : valid_block_timestamp clock (ns 900) (ns 970) (ns 5) false ≡ some adjusted
unfolding valid_block_timestamp valid_bounds is_below checked_sub u128_saturating_sub abs_diff
    u128_add
accepted_970 = refl

accepted_is_later_example :
    (value (ns 900) < value (ns 970))
    × (value (ns 1000) ≤ value (ns 970) + (value (ns 100) + value (ns 5)) ⊎ (false ≡ true))
    × (value (ns 970) ≤ value (ns 1000) + (value (ns 100) + value (ns 5)))
accepted_is_later_example =
    accepted_is_later clock (ns 900) (ns 970) (ns 5) false adjusted
      (small-IsU128 1000 (omega arith)) (small-IsU128 100 (omega arith))
      (small-IsU128 900 (omega arith)) (small-IsU128 970 (omega arith))
      (small-IsU128 5 (omega arith)) (omega arith) accepted_970
