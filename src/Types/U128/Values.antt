-- ===== src/Types/U128/Values.antt =====
-- types/u128.go: the halves compute what 128-bit integers do.
use monadbft_go.Base.{ℕ, ◌+◌, ◌-◌, ◌*◌, ◌%◌, ◌^◌, ◌<◌, ◌≡◌, ◌↔◌, none, ltb, IsU64, arith}
use monadbft_go.Types.U128.{
  U128, is_below, inc, checked_sub, u128_saturating_sub, abs_diff, u128_add,
}

abbrev pub value : U128 → ℕ
value u = u.hi * 2 ^ 64 + u.lo

-- Both halves are 64-bit numbers.
pub record IsU128 (u : U128) : Type 0 where
  pub high : IsU64 u.hi
  pub low : IsU64 u.lo

-- Where the halves are 64-bit numbers, comparison is that of the numbers, addition and the increment wrap at 2 ^ 128.
pub u128_sums :
    (u o : U128)
    → IsU128 u
    → IsU128 o
    → (is_below u o ≡ ltb (value u) (value o))
      × (value (u128_add u o) ≡ (value u + value o) % 2 ^ 128)
      × (value (inc u) ≡ (value u + 1) % 2 ^ 128)
unfolding is_below u128_add inc
u128_sums u o a b = (
  ground (arith, a.high, a.low, b.high, b.low),
  ground (arith, a.high, a.low, b.high, b.low),
  ground (arith, a.high, a.low),
)

-- Where the halves are 64-bit numbers, subtraction answers the difference where there is one, and saturates at 0; the absolute difference
-- is the distance of the numbers.
pub u128_differences :
    (u o : U128)
    → IsU128 u
    → IsU128 o
    → ((checked_sub u o ≡ none) ↔ (value u < value o))
      × (value (u128_saturating_sub u o) ≡ value u - value o)
      × (value (abs_diff u o) ≡ (value u - value o) + (value o - value u))
unfolding u128_saturating_sub abs_diff checked_sub is_below
u128_differences u o a b = (
  ground (arith, a.high, a.low, b.high, b.low),
  ground (arith, a.high, a.low, b.high, b.low),
  ground (arith, a.high, a.low, b.high, b.low),
)
