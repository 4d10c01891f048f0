-- ===== src/Types/U128/Examples.antt =====
-- types/u128.go: sums and differences across the halves.
use monadbft_go.Base.{◌-◌, ◌^◌, arith}
use monadbft_go.Types.U128.{U128}
use monadbft_go.Types.U128.Values.{IsU128}

abbrev full : U128
full = record { hi = 3; lo = 2 ^ 64 - 1 }

abbrev small : U128
small = record { hi = 1; lo = 5 }

full-IsU128 : IsU128 full
full-IsU128 = record { high = omega arith; low = omega arith }

small-IsU128 : IsU128 small
small-IsU128 = record { high = omega arith; low = omega arith }
