-- ===== src/Validator/Mapping.antt =====
-- validator/validator.go: the mapping from node ids to certificate keys.
use monadbft_go.Base.{ℕ, ◌≡◌, Bool, Option, none, some, List, [], ◌∷◌, if◌then◌else◌}
use monadbft_go.Base.Table.{lookup, insert, has, nat_eq}
use monadbft_go.Base.Sets.{contains}
use monadbft_go.Base.Sort.{insert_sorted, IsIncreasing}
use monadbft_go.Types.{NodeId}
use monadbft_go.Validator.ValidatorSet.{index_in}

pub record ValidatorMapping : Type 0 where
  pub node_ids : List NodeId
  pub pubs : List (NodeId × ℕ)

-- The keys are collected into the map, the ids sorted.
unfoldable pub new_validator_mapping : List (NodeId × ℕ) → ValidatorMapping
new_validator_mapping [] = record { node_ids = []; pubs = [] }
new_validator_mapping ((id, key) ∷ entries) =
    let m = new_validator_mapping entries in
    record {
      node_ids = insert_sorted id m.node_ids;
      pubs = if has id m.pubs then m.pubs else insert id key m.pubs;
    }

-- The map's value, or Go's zero value.
unfoldable pub pub_key : ValidatorMapping → NodeId → ℕ
pub_key m id = elim (lookup id m.pubs) [ none ↦ 0 | some key ↦ key ]

unfoldable pub mapping_has : ValidatorMapping → NodeId → Bool
mapping_has m id = has id m.pubs

unfoldable pub mapping_index : ValidatorMapping → NodeId → Option ℕ
mapping_index m id = index_in m.node_ids id

-- The mapping was built from distinct entries.
pub record IsMapping (m : ValidatorMapping) : Type 0 where
  pub increasing : IsIncreasing m.node_ids
  pub same : (id : NodeId) → contains id m.node_ids ≡ mapping_has m id
