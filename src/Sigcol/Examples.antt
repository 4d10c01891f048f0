-- ===== src/Sigcol/Examples.antt =====
-- sigcol/sigcol.go: two of three validators sign, and a third whose signature is invalid.
use monadbft_go.Base.{◌≡◌, ◌⊎◌, refl, arith, true, false, not, List, [], ◌∷◌, keep}
use monadbft_go.Base.Outcome.{ok, err}
use monadbft_go.Base.Table.{nat_eq, lookup, has}
use monadbft_go.Base.Sets.{contains}
use monadbft_go.Types.{NodeId}
use monadbft_go.Cstypes.Certs.{SignatureCollection}
use monadbft_go.Validator.ValidatorSet.{index_in, search}
use monadbft_go.Validator.Mapping.{ValidatorMapping, IsMapping, pub_key, mapping_has, mapping_index}
use monadbft_go.Sigcol.{
  NodeSig, invalid_signatures_create, new_collection, verify_collection, see, mark_signers, set_bit,
  new_signer_map, seal, bad_signers, localize,
}
use monadbft_go.Sigcol.New.{good}
use monadbft_go.Sigcol.Blame.{IsFair, new_collection_lem}
use monadbft_go.Sigcol.Verify.{verify-new_collection}
use monadbft_go.Sigcol.Pairing.{sum_keys, sum_sigs}
use monadbft_go.Sigcol.Pairing.Toy.{toy, toy-IsBls}

abbrev three_keys : ValidatorMapping
three_keys = record { node_ids = 1 ∷ 2 ∷ 4 ∷ []; pubs = (1, 10) ∷ (2, 20) ∷ (4, 40) ∷ [] }

three_keys-IsMapping : IsMapping three_keys
unfolding mapping_has has lookup
three_keys-IsMapping = record { increasing = ground arith; same = λ id. ground arith }

abbrev two_signed : SignatureCollection
two_signed = record { signers = false ∷ true ∷ true ∷ []; raw_sig = 60 }

two_aggregate : new_collection toy [] ((4, 40) ∷ (2, 20) ∷ []) three_keys [] ≡ ok two_signed
unfolding new_collection see mark_signers set_bit new_signer_map seal bad_signers localize sum_keys
    sum_sigs lookup has index_in search pub_key mapping_has mapping_index
two_aggregate = refl

two_known : (mapping_has three_keys 4 ≡ true) × (mapping_has three_keys 2 ≡ true)
unfolding mapping_has has lookup
two_known = (refl, refl)

verify-new_collection_example :
    (signers : List NodeId) × (verify_collection toy two_signed [] three_keys [] ≡ ok signers)
    × ((j : NodeId) → contains j signers ≡ contains j (4 ∷ 2 ∷ []))
verify-new_collection_example =
    verify-new_collection toy [] three_keys [] (4, 40) ((2, 20) ∷ []) two_signed toy-IsBls
      three_keys-IsMapping (omega arith) (two_known.0, (two_known.1, tt)) (refl, (refl, tt))
      two_aggregate

two-IsFair : IsFair toy three_keys ((4, 41) ∷ (2, 20) ∷ [])
unfolding sum_keys pub_key lookup
two-IsFair = record {
  known = (two_known.0, (two_known.1, tt));
  distinct = (refl, (refl, tt));
  no_cancel = omega arith;
}

new_collection_lem_example :
    ((c : SignatureCollection) × (new_collection toy [] ((4, 41) ∷ (2, 20) ∷ []) three_keys []
        ≡ ok c))
    ⊎ ((x : NodeSig) × (bad : List NodeSig) × (keep
            (λ s. not (good toy [] three_keys [] s))
            ((4, 41) ∷ (2, 20) ∷ [])
          ≡ x ∷ bad)
        × (new_collection toy [] ((4, 41) ∷ (2, 20) ∷ []) three_keys []
            ≡ err (
                invalid_signatures_create
                  (keep (λ s. not (good toy [] three_keys [] s)) ((4, 41) ∷ (2, 20) ∷ [])))))
new_collection_lem_example =
    new_collection_lem toy [] three_keys [] ((4, 41) ∷ (2, 20) ∷ []) toy-IsBls three_keys-IsMapping
      two-IsFair
