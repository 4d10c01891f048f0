-- ===== src/Types/Arith/Examples.antt =====
-- types/types.go: the arithmetic at concrete numbers.
use monadbft_go.Base.{◌≡◌, refl, some}
use monadbft_go.Types.Arith.{to_epoch, get_epoch}

third_epoch : get_epoch 105 50 0 ≡ some 2
unfolding get_epoch to_epoch
third_epoch = refl
