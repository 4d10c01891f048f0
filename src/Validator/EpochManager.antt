-- ===== src/Validator/EpochManager.antt =====
-- validator/epoch.go: the start rounds of epochs. A panic is `none`.
pub mod Starts
mod Examples
use monadbft_go.Base.{
  ℕ, ◌+◌, ◌≡◌, Bool, true, false, Option, none, some, List, [], ◌∷◌, ◌++◌, leb, ◌==◌, if◌then◌else◌,
  add64,
}
use monadbft_go.Base.Table.{lookup, insert, nat_eq}
use monadbft_go.Base.Sort.{insert_sorted}
use monadbft_go.Types.{Round, Epoch, SeqNum}
use monadbft_go.Types.Arith.{is_boundary_block, to_epoch}

pub record EpochManager : Type 0 where
  pub epoch_length : SeqNum
  pub epoch_start_delay : Round
  pub epoch_starts : List (Epoch × Round)
  pub sorted : List Epoch

-- The epochs stay sorted, so that sorting after an append puts the new one at its place.
pub insert_epoch_start : EpochManager → Epoch → Round → Option EpochManager
insert_epoch_start em epoch round = elim (lookup epoch em.epoch_starts) [
  | some existing ↦ if existing == round then some em else none
  | none ↦ some (record em {
    epoch_starts = insert epoch round em.epoch_starts;
    sorted = insert_sorted epoch em.sorted;
  })
]

-- `for e, r := range knownEpochs`, in the order of the list.
pub insert_all : EpochManager → List (Epoch × Round) → Option EpochManager
unfolding insert_epoch_start
insert_all em [] = some em
insert_all em ((e, r) ∷ known) = elim (insert_epoch_start em e r) [
  | none ↦ none
  | some em' ↦ insert_all em' known
]

pub new_epoch_manager : SeqNum → Round → List (Epoch × Round) → Option EpochManager
unfolding insert_all
new_epoch_manager len delay known =
    insert_all
      (record { epoch_length = len; epoch_start_delay = delay; epoch_starts = []; sorted = [] })
      known

pub schedule_epoch_start : EpochManager → SeqNum → Round → Option EpochManager
schedule_epoch_start em block_num block_round = elim (is_boundary_block block_num em.epoch_length) [
  | none ↦ none
  | some boundary ↦
      if boundary
      then elim (to_epoch block_num em.epoch_length) [
        | none ↦ none
        | some e ↦ insert_epoch_start em (add64 e 1) (add64 block_round em.epoch_start_delay)
      ]
      else some em
]

pub get_epoch_start : EpochManager → Epoch → Option Round
get_epoch_start em epoch = lookup epoch em.epoch_starts

-- The map's value, or Go's zero value.
abbrev pub start_of : List (Epoch × Round) → Epoch → Round
start_of starts e = elim (lookup e starts) [ none ↦ 0 | some r ↦ r ]

-- The loop of GetEpoch with what it has found so far.
pub epoch_loop : List (Epoch × Round) → Option Epoch → List Epoch → Round → Option Epoch
epoch_loop starts found [] round = found
epoch_loop starts found (e ∷ es) round =
    let rest = epoch_loop starts (some e) es round in
    if leb (start_of starts e) round then rest else found

-- EpochManager.GetEpoch.
unfoldable pub epoch_at : EpochManager → Round → Option Epoch
unfolding epoch_loop
epoch_at em round = epoch_loop em.epoch_starts none em.sorted round
