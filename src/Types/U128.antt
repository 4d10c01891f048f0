-- ===== src/Types/U128.antt =====
-- types/u128.go: 128-bit integers as two 64-bit halves.
pub mod Values
mod Examples
use monadbft_go.Base.{
  ℕ, ◌+◌, ◌-◌, ◌^◌, ◌≡◌, Bool, true, false, not, ◌&&◌, ◌||◌, Option, none, some, ltb, ◌==◌,
  if◌then◌else◌, add64, sub64,
}

-- The sixteen bytes, big-endian: Hi and Lo read their halves.
pub record U128 : Type 0 where
  pub hi : ℕ
  pub lo : ℕ

pub from_uint64 : ℕ → U128
from_uint64 v = record { hi = 0; lo = v }

abbrev pub from_hi_lo : ℕ → ℕ → U128
from_hi_lo hi lo = record { hi = hi; lo = lo }

-- Cmp is below 0: bytes.Compare goes by the high half first.
unfoldable pub is_below : U128 → U128 → Bool
is_below u o = ltb u.hi o.hi || ((u.hi == o.hi) && ltb u.lo o.lo)

unfoldable pub inc : U128 → U128
inc u = let lo = add64 u.lo 1 in from_hi_lo (if lo == 0 then add64 u.hi 1 else u.hi) lo

abbrev pub borrow : ℕ → ℕ → ℕ
borrow a b = if ltb a b then 1 else 0

-- Go's false is `none`.
unfoldable pub checked_sub : U128 → U128 → Option U128
unfolding is_below
checked_sub u o =
    if is_below u o
    then none
    else some (from_hi_lo (sub64 (sub64 u.hi o.hi) (borrow u.lo o.lo)) (sub64 u.lo o.lo))

abbrev or_zero : Option U128 → U128
or_zero none = from_hi_lo 0 0
or_zero (some d) = d

unfoldable pub u128_saturating_sub : U128 → U128 → U128
unfolding checked_sub
u128_saturating_sub u o = or_zero (checked_sub u o)

unfoldable pub abs_diff : U128 → U128 → U128
unfolding checked_sub is_below
abs_diff u o = if not (is_below u o) then or_zero (checked_sub u o) else or_zero (checked_sub o u)

unfoldable pub u128_add : U128 → U128 → U128
u128_add u o =
    let lo = add64 u.lo o.lo in
    let hi = add64 u.hi o.hi in from_hi_lo (if ltb lo u.lo then add64 hi 1 else hi) lo
