-- ===== src/Validator/ValidatorSet/Examples.antt =====
-- validator/validator.go: four validators of equal stake.
use monadbft_go.Base.{◌+◌, ◌≡◌, refl, true, false, [], ◌∷◌, arith}
use monadbft_go.Base.Table.{lookup, nat_eq, has, insert}
use monadbft_go.Base.Sets.{both}
use monadbft_go.Base.Sort.{sort}
use monadbft_go.Types.{NodeId}
use monadbft_go.Validator.ValidatorSet.{
  ValidatorSet, ValidatorData, ok, new_validator_set, calculate_current_stake,
  has_super_majority_votes, has_honest_vote,
}
use monadbft_go.Validator.ValidatorSet.Quorum.{
  weight, total, IsValid, Answers, calculate_current_stake_lem, has_votes_iff, quorum_intersection,
}
use monadbft_go.Validator.ValidatorSet.Create.{Stands, new_validator_set-Stands}

abbrev four : ValidatorSet
four = record {
  members = 1 ∷ 2 ∷ 3 ∷ 4 ∷ [];
  stakes = (3, 1) ∷ (1, 1) ∷ (4, 1) ∷ (2, 1) ∷ [];
  total_stake = 4;
}

four-IsValid : IsValid four
unfolding total
four-IsValid = record { sums = refl; fits = omega arith }

three_agree : has_super_majority_votes four (1 ∷ 2 ∷ 3 ∷ []) ≡ ok true
unfolding has_super_majority_votes calculate_current_stake lookup
three_agree = refl

others_agree : has_super_majority_votes four (4 ∷ 2 ∷ 3 ∷ []) ≡ ok true
unfolding has_super_majority_votes calculate_current_stake lookup
others_agree = refl

two_do_not : has_super_majority_votes four (1 ∷ 2 ∷ []) ≡ ok false
unfolding has_super_majority_votes calculate_current_stake lookup
two_do_not = refl

quorum_intersection_example :
    has_honest_vote four (both (1 ∷ 2 ∷ 3 ∷ []) (4 ∷ 2 ∷ 3 ∷ [])) ≡ ok true
quorum_intersection_example =
    quorum_intersection four (1 ∷ 2 ∷ 3 ∷ []) (4 ∷ 2 ∷ 3 ∷ []) four-IsValid three_agree others_agree

has_votes_iff_example :
    Answers four (2 ∷ 4 ∷ []) (has_super_majority_votes four (2 ∷ 4 ∷ [])) 2
    × Answers four (2 ∷ 4 ∷ []) (has_honest_vote four (2 ∷ 4 ∷ [])) 1
has_votes_iff_example = has_votes_iff four (2 ∷ 4 ∷ []) four-IsValid

calculate_current_stake_lem_example :
    calculate_current_stake four (2 ∷ 9 ∷ 4 ∷ []) ≡ ok (weight four.stakes (2 ∷ 9 ∷ 4 ∷ []))
calculate_current_stake_lem_example =
    calculate_current_stake_lem four (2 ∷ 9 ∷ 4 ∷ []) four-IsValid (refl, (refl, (refl, tt)))

abbrev validator : NodeId → ValidatorData
validator n = record { node_id = n; stake = n + 1; cert_pub_key = 0 }

abbrev created : ValidatorSet
created = record { members = 2 ∷ 5 ∷ []; stakes = (5, 6) ∷ (2, 3) ∷ []; total_stake = 9 }

two_created : new_validator_set (validator 5 ∷ validator 2 ∷ []) ≡ ok created
unfolding new_validator_set insert lookup has sort
two_created = refl

new_validator_set-Stands_example : Stands (validator 5 ∷ validator 2 ∷ []) created
new_validator_set-Stands_example =
    new_validator_set-Stands (validator 5 ∷ validator 2 ∷ []) created (omega arith) two_created
