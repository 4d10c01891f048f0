-- ===== src/Validator/EpochMapping.antt =====
-- validator/epochmap.go: the validator set and the keys of each epoch. A panic is `none`.
mod Examples
use monadbft_go.Base.{
  ℕ, zero, suc, ◌≡◌, Bool, true, false, not, ◌&&◌, Option, none, some, List, [], ◌∷◌, ◌==◌,
  if◌then◌else◌, arith, Option-cases, Bool-cases, inl, inr,
}
use monadbft_go.Base.Table.{lookup, insert, has, nat_eq, lookup-insert}
use monadbft_go.Base.Sort.{insert_sorted}
use monadbft_go.Types.{NodeId, Epoch}
use monadbft_go.Validator.Mapping.{ValidatorMapping}
use monadbft_go.Validator.ValidatorSet.{
  ValidatorSet, ValidatorData, Result, ok, err, panic, new_validator_set,
}

pub record EpochEntry : Type 0 where
  pub val_set : ValidatorSet
  pub cert_pubkeys : ValidatorMapping

pub record ValidatorsEpochMapping : Type 0 where
  pub validator_map : List (Epoch × EpochEntry)

pub new_validators_epoch_mapping : ValidatorsEpochMapping
new_validators_epoch_mapping = record { validator_map = [] }

unfoldable pub get_val_set : ValidatorsEpochMapping → Epoch → Option ValidatorSet
get_val_set m epoch = elim (lookup epoch m.validator_map) [ none ↦ none | some e ↦ some e.val_set ]

pub get_cert_pubkeys : ValidatorsEpochMapping → Epoch → Option ValidatorMapping
get_cert_pubkeys m epoch = elim (lookup epoch m.validator_map) [
  | none ↦ none
  | some e ↦ some e.cert_pubkeys
]

pub equal_members : List NodeId → List NodeId → Bool
equal_members [] [] = true
equal_members [] (y ∷ ys) = false
equal_members (x ∷ xs) [] = false
equal_members (x ∷ xs) (y ∷ ys) = (x == y) && equal_members xs ys

pub equal_mappings : ValidatorMapping → ValidatorMapping → Bool
unfolding equal_members
equal_mappings a b = equal_members a.node_ids b.node_ids

-- What Insert does with the set that it created.
pub insert_set :
    ValidatorsEpochMapping → Epoch → ValidatorSet → ValidatorMapping → Option ValidatorsEpochMapping
unfolding equal_mappings
insert_set m epoch vs keys = elim (lookup epoch m.validator_map) [
  | none ↦ some (record {
    validator_map = insert epoch (record { val_set = vs; cert_pubkeys = keys }) m.validator_map;
  })
  | some e ↦
      if equal_members e.val_set.members vs.members && equal_mappings e.cert_pubkeys keys
      then some m
      else none
]

-- ValidatorsEpochMapping.Insert.
pub insert_epoch :
    ValidatorsEpochMapping
    → Epoch
    → List ValidatorData
    → ValidatorMapping
    → Option ValidatorsEpochMapping
unfolding insert_set
insert_epoch m epoch vals keys = elim (new_validator_set vals) [
  | ok vs ↦ insert_set m epoch vs keys
  | err _ ↦ none
  | panic ↦ none
]

insert_set-lookup :
    (m u : ValidatorsEpochMapping) (epoch k : Epoch) (vs : ValidatorSet) (keys : ValidatorMapping)
    (e : EpochEntry)
    → insert_set m epoch vs keys ≡ some u
    → lookup k m.validator_map ≡ some e
    → lookup k u.validator_map ≡ some e
unfolding insert_set
insert_set-lookup m u epoch k vs keys e h l = elim (Option-cases (lookup epoch m.validator_map)) [
  | inl n ↦ ground (
    arith,
    h,
    n,
    l,
    lookup-insert k epoch (record { val_set = vs; cert_pubkeys = keys }) m.validator_map,
  )
  | inr (x, n) ↦ ground (arith, h, n, l)
]

created_cases :
    (m u : ValidatorsEpochMapping) (epoch : Epoch) (vals : List ValidatorData)
    (keys : ValidatorMapping)
    → insert_epoch m epoch vals keys ≡ some u
    → (vs : ValidatorSet) × (insert_set m epoch vs keys ≡ some u)
unfolding insert_epoch
created_cases m u epoch vals keys h = by_result (new_validator_set vals) h
  where
    by_result :
        (r : Result ValidatorSet)
        → (elim r [ ok vs ↦ insert_set m epoch vs keys | err _ ↦ none | panic ↦ none ]) ≡ some u
        → (vs : ValidatorSet) × (insert_set m epoch vs keys ≡ some u)
    by_result (ok vs) q = (vs, q)
    by_result (err x) q = absurd cc
    by_result panic q = absurd cc

-- The validators of an epoch never change once they are recorded, whatever is inserted later.
pub epoch_is_fixed :
    (m u : ValidatorsEpochMapping) (epoch k : Epoch) (vals : List ValidatorData)
    (keys : ValidatorMapping) (v : ValidatorSet)
    → insert_epoch m epoch vals keys ≡ some u
    → get_val_set m k ≡ some v
    → get_val_set u k ≡ some v
unfolding insert_epoch get_val_set
epoch_is_fixed m u epoch k vals keys v h g = elim (Option-cases (lookup k m.validator_map)) [
  | inl n ↦ absurd (ground (arith, g, n))
  | inr (e, n) ↦
      let (vs, q) = created_cases m u epoch vals keys h in
      ground (arith, insert_set-lookup m u epoch k vs keys e q n, n, g)
]
