-- ===== src/Consensusstate/Leaders.antt =====
-- consensusstate/state.go: the leaders of a round and of the rounds to come.
pub mod Upcoming
mod Examples
use monadbft_go.Base.{
  ℕ, zero, suc, Bool, not, Option, none, some, List, [], ◌∷◌, ◌++◌, ◌==◌, if◌then◌else◌, add64,
}
use monadbft_go.Base.Table.{nat_eq}
use monadbft_go.Base.Sets.{contains}
use monadbft_go.Types.{Round, NodeId}
use monadbft_go.Consensus.Pacemaker.{get_current_round}
use monadbft_go.Validator.ValidatorSet.{ValidatorSet}
use monadbft_go.Validator.EpochManager.{epoch_at}
use monadbft_go.Validator.EpochMapping.{get_val_set}
use monadbft_go.Consensusstate.State.{State}

abbrev pub num_leaders_forward_txs : ℕ
num_leaders_forward_txs = 3

abbrev pub num_leaders_self_upcoming : ℕ
num_leaders_self_upcoming = 3

-- The election is a parameter.
module _ (get_leader : Round → ValidatorSet → NodeId) where
  unfoldable pub lookup_leader : State → Round → Option NodeId
  lookup_leader s round = elim (epoch_at s.epoch_manager round) [
    | none ↦ none
    | some epoch ↦ elim (get_val_set s.val_epoch_map epoch) [
      | none ↦ none
      | some vs ↦ some (get_leader round vs)
    ]
  ]

  -- `num_rounds` rounds from `round` on. An unknown epoch or validator set panics.
  unfoldable pub leader_pairs : State → ℕ → Round → Option (List (NodeId × Round))
  leader_pairs s zero round = some []
  leader_pairs s (suc n) round =
      let rest = leader_pairs s n (add64 round 1) in
      elim (lookup_leader s round) [
        | none ↦ none
        | some leader ↦ elim rest [ none ↦ none | some pairs ↦ some ((leader, round) ∷ pairs) ]
      ]

  unfoldable pub upcoming_leader_round_pairs : State → Bool → ℕ → Option (List (NodeId × Round))
  unfolding leader_pairs
  upcoming_leader_round_pairs s include_current n =
      let start = get_current_round s.consensus.pacemaker in
      leader_pairs s n (if include_current then start else add64 start 1)

  unfoldable pub rounds_of : NodeId → List (NodeId × Round) → List Round
  rounds_of id [] = []
  rounds_of id ((leader, round) ∷ pairs) =
      if leader == id then round ∷ rounds_of id pairs else rounds_of id pairs

  unfoldable pub iter_upcoming_self_leader_rounds : State → Option (List Round)
  unfolding rounds_of
  iter_upcoming_self_leader_rounds s =
      elim (upcoming_leader_round_pairs s Bool.true num_leaders_self_upcoming) [
        | none ↦ none
        | some pairs ↦ some (rounds_of s.node_id pairs)
      ]

  -- Others, each once, in the order of their first rounds.
  unfoldable pub others : NodeId → List (NodeId × Round) → List NodeId → List NodeId
  others id [] out = out
  others id ((leader, round) ∷ pairs) out =
      let rest = others id pairs out in
      let more = others id pairs (out ++ (leader ∷ [])) in
      if leader == id then rest else if contains leader out then rest else more

  unfoldable pub iter_future_other_leaders : State → Option (List NodeId)
  unfolding others
  iter_future_other_leaders s =
      elim (upcoming_leader_round_pairs s Bool.false num_leaders_forward_txs) [
        | none ↦ none
        | some pairs ↦ some (others s.node_id pairs [])
      ]
