-- ===== src/Validator/EpochManager/Examples.antt =====
-- validator/epoch.go: two epochs, the second from round 100.
use monadbft_go.Base.{◌≡◌, ◌≤◌, ◌<◌, ◌⊎◌, refl, true, none, some, [], ◌∷◌, arith, All}
use monadbft_go.Base.Table.{lookup, has, nat_eq, insert}
use monadbft_go.Base.Sets.{contains}
use monadbft_go.Base.Sort.{insert_sorted}
use monadbft_go.Types.{Epoch}
use monadbft_go.Validator.EpochManager.{EpochManager, new_epoch_manager, epoch_at, start_of}
use monadbft_go.Validator.EpochManager.Starts.{IsIndexed, Rest, epoch_at_lem}

abbrev two : EpochManager
two = record {
  epoch_length = 50;
  epoch_start_delay = 10;
  epoch_starts = (1, 0) ∷ (2, 100) ∷ [];
  sorted = 1 ∷ 2 ∷ [];
}

two_created : new_epoch_manager 50 10 ((1, 0) ∷ (2, 100) ∷ []) ≡ some two
unfolding new_epoch_manager lookup insert insert_sorted
two_created = refl

two-IsIndexed : IsIndexed two
unfolding has lookup
two-IsIndexed = record { same = λ e. ground arith; increasing = ground arith }

epoch_at_lem_example :
    ((epoch_at two 120 ≡ none) × All (λ x. 120 < start_of two.epoch_starts x) two.sorted)
    ⊎ ((e : Epoch) × (epoch_at two 120 ≡ some e)
        × (contains e two.sorted ≡ true)
        × (start_of two.epoch_starts e ≤ 120)
        × Rest two.epoch_starts 120 e two.sorted)
unfolding lookup
epoch_at_lem_example = epoch_at_lem two 120 two-IsIndexed ((omega arith, tt), (tt, tt))

-- With starts that fall, the loop stops before a later epoch that has started.
abbrev falling : EpochManager
falling = record two { epoch_starts = (1, 0) ∷ (2, 100) ∷ (3, 50) ∷ []; sorted = 1 ∷ 2 ∷ 3 ∷ [] }

stops_early : epoch_at falling 60 ≡ some 1
unfolding epoch_at lookup
stops_early = refl
