-- ===== src/Validator/EpochMapping/Examples.antt =====
-- validator/epochmap.go: inserting the validators of an epoch again.
use monadbft_go.Base.{◌≡◌, refl, some, [], ◌∷◌}
use monadbft_go.Base.Table.{lookup, insert, has, nat_eq}
use monadbft_go.Base.Sort.{insert_sorted, sort}
use monadbft_go.Types.{NodeId, Stake}
use monadbft_go.Validator.ValidatorSet.{ValidatorSet, ValidatorData, new_validator_set}
use monadbft_go.Validator.Mapping.{ValidatorMapping, new_validator_mapping}
use monadbft_go.Validator.EpochMapping.{
  ValidatorsEpochMapping, insert_epoch, get_val_set, epoch_is_fixed,
}

abbrev validator : NodeId → Stake → ValidatorData
validator n s = record { node_id = n; stake = s; cert_pub_key = 0 }

abbrev keys : ValidatorMapping
keys = record { node_ids = 2 ∷ 5 ∷ []; pubs = (5, 50) ∷ (2, 20) ∷ [] }

two_keys : new_validator_mapping ((2, 20) ∷ (5, 50) ∷ []) ≡ keys
unfolding new_validator_mapping insert_sorted has lookup insert
two_keys = refl

abbrev created : ValidatorSet
created = record { members = 2 ∷ 5 ∷ []; stakes = (5, 6) ∷ (2, 3) ∷ []; total_stake = 9 }

abbrev known : ValidatorsEpochMapping
known = record { validator_map = (1, record { val_set = created; cert_pubkeys = keys }) ∷ [] }

known_set : get_val_set known 1 ≡ some created
unfolding get_val_set lookup
known_set = refl

-- Other stakes for the same members are accepted, and dropped.
other_stakes : insert_epoch known 1 (validator 5 60 ∷ validator 2 30 ∷ []) keys ≡ some known
unfolding insert_epoch new_validator_set lookup has insert sort
other_stakes = refl

epoch_is_fixed_example : get_val_set known 1 ≡ some created
epoch_is_fixed_example =
    epoch_is_fixed known known 1 1 (validator 5 60 ∷ validator 2 30 ∷ []) keys created other_stakes
      known_set
