-- ===== src/Consensusstate/Timestamp.antt =====
-- consensusstate/timestamp.go: the local clock, and which proposal timestamps it accepts.
pub mod Accepts
mod Examples
use monadbft_go.Base.{
  ℕ, Bool, true, false, not, ◌&&◌, ◌||◌, Option, none, some, ◌==◌, if◌then◌else◌,
}
use monadbft_go.Types.U128.{
  U128, is_below, inc, checked_sub, u128_saturating_sub, abs_diff, u128_add,
}

pub data TimestampAdjustmentDirection : Type 0 where
  forward backward : TimestampAdjustmentDirection

pub record TimestampAdjustment : Type 0 where
  pub delta : U128
  pub direction : TimestampAdjustmentDirection

pub record BlockTimestamp : Type 0 where
  pub local_time_ns : U128
  pub max_delta_ns : U128
  pub latency_estimate_ns : U128

abbrev zero_u128 : U128
zero_u128 = record { hi = 0; lo = 0 }

abbrev pub is_zero : U128 → Bool
is_zero u = (u.hi == 0) && (u.lo == 0)

-- Go panics on a latency of zero: `none`.
pub new_block_timestamp : U128 → U128 → Option BlockTimestamp
new_block_timestamp max_delta latency =
    if is_zero latency
    then none
    else some (record {
      local_time_ns = zero_u128;
      max_delta_ns = max_delta;
      latency_estimate_ns = latency;
    })

pub update_time : BlockTimestamp → U128 → BlockTimestamp
update_time b t = record b { local_time_ns = t }

pub get_valid_block_timestamp : BlockTimestamp → U128 → U128
get_valid_block_timestamp b prev =
    if not (is_below prev b.local_time_ns) then inc prev else b.local_time_ns

unfoldable pub valid_bounds : BlockTimestamp → U128 → U128 → Bool
valid_bounds b timestamp vote_delay =
    let max_delta = u128_add b.max_delta_ns vote_delay in
    not (is_below timestamp (u128_saturating_sub b.local_time_ns max_delta))
    && not (is_below (u128_add b.local_time_ns max_delta) timestamp)

-- The arguments are the timestamps of the parent and of the block, the vote delay, and whether the
-- block is a reproposal.
unfoldable pub valid_block_timestamp :
    BlockTimestamp → U128 → U128 → U128 → Bool → Option TimestampAdjustment
valid_block_timestamp b prev curr vote_delay true =
    if is_below prev curr && is_below curr b.local_time_ns
    then some (record { delta = zero_u128; direction = forward })
    else none
valid_block_timestamp b prev curr vote_delay false = elim (checked_sub curr prev) [
  | none ↦ none
  | some d ↦
      if is_zero d || not (valid_bounds b curr vote_delay)
      then none
      else some (record {
        delta = u128_saturating_sub (abs_diff b.local_time_ns curr) b.latency_estimate_ns;
        direction = if is_below b.local_time_ns curr then forward else backward;
      })
]
