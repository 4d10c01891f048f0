-- ===== src/Consensusstate/Timestamp/Accepts.antt =====
-- consensusstate/timestamp.go: proposals move time forward, within the clock's tolerance.
use monadbft_go.Base.{
  ◌+◌, ◌^◌, ◌<◌, ◌≤◌, ◌≡◌, ◌⊎◌, inl, inr, Bool, true, false, some, arith, Option-cases,
}
use monadbft_go.Types.U128.{U128, is_below, checked_sub, u128_saturating_sub, u128_add}
use monadbft_go.Types.U128.Values.{value, IsU128, u128_sums, u128_differences}
use monadbft_go.Consensusstate.Timestamp.{
  is_zero, BlockTimestamp, TimestampAdjustment, get_valid_block_timestamp, valid_bounds,
  valid_block_timestamp,
}

-- Where the parent's timestamp can be counted up, the timestamp of a proposal is later than its parent's, and no earlier than the local clock.
pub proposal_is_later :
    (b : BlockTimestamp) (prev : U128)
    → IsU128 b.local_time_ns
    → IsU128 prev
    → value prev + 1 < 2 ^ 128
    → (value prev < value (get_valid_block_timestamp b prev))
      × (value b.local_time_ns ≤ value (get_valid_block_timestamp b prev))
unfolding get_valid_block_timestamp
proposal_is_later b prev hl hp h = ground (arith, u128_sums prev b.local_time_ns hp hl)

add-IsU128 : (u o : U128) → IsU128 u → IsU128 o → IsU128 (u128_add u o)
unfolding u128_add
add-IsU128 u o a b = record {
  high = ground (arith, a.high, b.high);
  low = ground (arith, a.low, b.low);
}

sub-IsU128 : (u o : U128) → IsU128 u → IsU128 o → IsU128 (u128_saturating_sub u o)
unfolding u128_saturating_sub checked_sub
sub-IsU128 u o a b = record {
  high = ground (arith, a.high, b.high);
  low = ground (arith, a.low, b.low);
}

valid_bounds_lem :
    (b : BlockTimestamp) (curr delay : U128)
    → IsU128 b.local_time_ns
    → IsU128 b.max_delta_ns
    → IsU128 curr
    → IsU128 delay
    → value b.local_time_ns + value b.max_delta_ns + value delay < 2 ^ 128
    → valid_bounds b curr delay ≡ true
    → (value b.local_time_ns ≤ value curr + (value b.max_delta_ns + value delay))
      × (value curr ≤ value b.local_time_ns + (value b.max_delta_ns + value delay))
unfolding valid_bounds
valid_bounds_lem b curr delay hl hm hc hd h v =
    let m = u128_add b.max_delta_ns delay in
    let hmd = add-IsU128 b.max_delta_ns delay hm hd in
    let s1 = u128_sums b.max_delta_ns delay hm hd in
    let s2 = u128_sums b.local_time_ns m hl hmd in
    let s3 = (u128_differences b.local_time_ns m hl hmd).1 in
    let s4 =
      (u128_sums curr (u128_saturating_sub b.local_time_ns m) hc
        (sub-IsU128 b.local_time_ns m hl hmd)).0 in
    let s5 =
      (u128_sums (u128_add b.local_time_ns m) curr (add-IsU128 b.local_time_ns m hl hmd) hc).0 in
    ground (arith, v, s1.1, s2.1, s3, s4, s5)

positive_difference :
    (u o d : U128)
    → IsU128 u
    → IsU128 o
    → checked_sub u o ≡ some d
    → is_zero d ≡ false
    → value o < value u
unfolding checked_sub is_below
positive_difference u o d a b e z = ground (arith, a.high, a.low, b.high, b.low)

-- Where the clock plus the tolerance does not overflow, a proposal whose timestamp is accepted is later than its parent and at most the tolerance ahead of
-- the local clock; one that is not a reproposal is at most the tolerance behind it.
pub accepted_is_later :
    (b : BlockTimestamp) (prev curr delay : U128) (again : Bool) (a : TimestampAdjustment)
    → IsU128 b.local_time_ns
    → IsU128 b.max_delta_ns
    → IsU128 prev
    → IsU128 curr
    → IsU128 delay
    → value b.local_time_ns + value b.max_delta_ns + value delay < 2 ^ 128
    → valid_block_timestamp b prev curr delay again ≡ some a
    → (value prev < value curr)
      × (value b.local_time_ns ≤ value curr + (value b.max_delta_ns + value delay) ⊎ (again ≡ true))
      × (value curr ≤ value b.local_time_ns + (value b.max_delta_ns + value delay))
unfolding valid_block_timestamp
accepted_is_later b prev curr delay true a hl hm hp hc hd h e =
    ground (arith, e, (u128_sums prev curr hp hc).0, (u128_sums curr b.local_time_ns hc hl).0)
accepted_is_later b prev curr delay false a hl hm hp hc hd h e =
    elim (Option-cases (checked_sub curr prev)) [
      | inl n ↦ absurd (ground (arith, e, n))
      | inr (d, n) ↦
          let (z, v) : (is_zero d ≡ false) × (valid_bounds b curr delay ≡ true) =
            ground (arith, e, n) in
          let (low, high) = valid_bounds_lem b curr delay hl hm hc hd h v in
          (positive_difference curr prev d hc hp n z, inl low, high)
    ]
