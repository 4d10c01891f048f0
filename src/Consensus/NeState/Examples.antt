-- ===== src/Consensus/NeState/Examples.antt =====
-- consensus/ne_state.go: three validators, one of whose signatures is invalid.
use monadbft_go.Base.{◌<◌, ◌≡◌, ◌≢◌, refl, arith, true, false, none, some, [], ◌∷◌}
use monadbft_go.Base.Run.{stuck, done}
use monadbft_go.Base.Table.{nat_eq, lookup, insert, has, delete}
use monadbft_go.Types.{Round}
use monadbft_go.Cstypes.Certs.{NoEndorsement, NoEndorsementCertificate}
use monadbft_go.Validator.ValidatorSet.{
  ValidatorSet, has_super_majority_votes, current_stake_loop, calculate_current_stake,
  stake_from_big, threshold, has_threshold_votes, index_in, search,
}
use monadbft_go.Validator.Mapping.{ValidatorMapping, pub_key, mapping_has, mapping_index}
use monadbft_go.Sigcol.{
  new_collection, see, mark_signers, set_bit, new_signer_map, seal, bad_signers, localize,
}
use monadbft_go.Sigcol.Pairing.{sum_keys, sum_sigs}
use monadbft_go.Sigcol.Pairing.Toy.{toy}
use monadbft_go.Consensus.Tally.{form_certificate, form, drop_bad, mark_invalid}
use monadbft_go.Consensus.NeState.{
  NoEndorsementState, RoundNeState, noted, note_ne, ballot, record_nes, process_no_endorsement,
  start_new_round, get_nec,
}
use monadbft_go.Consensus.NeState.Certificates.{
  Declines, here, started, process_no_endorsement_ends, process_no_endorsement-Declines,
  declined_once,
}
use monadbft_go.Consensus.NeState.Kept.{Keeps, get_nec_lem}

abbrev three : ValidatorSet
three = record { members = 1 ∷ 2 ∷ 4 ∷ []; stakes = (1, 1) ∷ (2, 2) ∷ (4, 3) ∷ []; total_stake = 6 }

abbrev three_keys : ValidatorMapping
three_keys = record { node_ids = 1 ∷ 2 ∷ 4 ∷ []; pubs = (1, 10) ∷ (2, 20) ∷ (4, 40) ∷ [] }

abbrev ne_at : Round → NoEndorsement
ne_at round = record { epoch = 1; round = round; tip_qc_round = 3 }

abbrev at_six : RoundNeState
at_six = record {
  qc_round_nes = (3, (2, 20) ∷ []) ∷ [];
  node_nes = [];
  invalid_senders = [];
  certificate = none;
}

abbrev waiting : NoEndorsementState
waiting = record {
  earliest_round = 5;
  pending =
      (
        5,
        record {
          qc_round_nes = (3, (1, 11) ∷ (2, 20) ∷ []) ∷ [];
          node_nes = [];
          invalid_senders = [];
          certificate = none;
        },
      )
      ∷ (6, at_six)
      ∷ [];
}

abbrev formed : Round → NoEndorsementCertificate
formed round = record {
  msg = ne_at round;
  signatures = record { signers = false ∷ true ∷ true ∷ []; raw_sig = 60 };
}

abbrev after_five : NoEndorsementState
after_five = record {
  earliest_round = 6;
  pending =
      (
        5,
        record {
          qc_round_nes = (3, (2, 20) ∷ (4, 40) ∷ []) ∷ [];
          node_nes = (4, 40 ∷ []) ∷ [];
          invalid_senders = 1 ∷ [];
          certificate = some (formed 5);
        },
      )
      ∷ (6, at_six)
      ∷ [];
}

abbrev after_six : NoEndorsementState
after_six = record {
  earliest_round = 7;
  pending =
      (
        6,
        record {
          qc_round_nes = (3, (2, 20) ∷ (4, 40) ∷ []) ∷ [];
          node_nes = (4, 40 ∷ []) ∷ [];
          invalid_senders = [];
          certificate = some (formed 6);
        },
      )
      ∷ [];
}

-- The certificate forms without the invalid signature.
five_forms :
    process_no_endorsement toy waiting 4 (ne_at 5) 40 three three_keys
    ≡ done (some (formed 5), after_five)
unfolding process_no_endorsement noted note_ne ballot record_nes form_certificate form drop_bad
    mark_invalid has_super_majority_votes current_stake_loop calculate_current_stake stake_from_big
    threshold has_threshold_votes index_in search pub_key mapping_has mapping_index new_collection
    see mark_signers set_bit new_signer_map seal bad_signers localize sum_keys sum_sigs lookup
    insert has delete
five_forms = refl

six_forms :
    process_no_endorsement toy (start_new_round after_five 6) 4 (ne_at 6) 40 three three_keys
    ≡ done (some (formed 6), after_six)
unfolding process_no_endorsement noted note_ne ballot record_nes form_certificate form drop_bad
    mark_invalid has_super_majority_votes current_stake_loop calculate_current_stake stake_from_big
    threshold has_threshold_votes index_in search pub_key mapping_has mapping_index new_collection
    see mark_signers set_bit new_signer_map seal bad_signers localize sum_keys sum_sigs lookup
    insert has delete start_new_round
six_forms = refl

process_no_endorsement_ends_example :
    process_no_endorsement toy waiting 4 (ne_at 5) 40 three three_keys ≢ stuck
process_no_endorsement_ends_example =
    process_no_endorsement_ends toy waiting 4 (ne_at 5) 40 three three_keys

process_no_endorsement-Declines_example :
    Declines toy three three_keys waiting after_five (ne_at 5) (formed 5)
process_no_endorsement-Declines_example =
    process_no_endorsement-Declines toy waiting after_five 4 (ne_at 5) 40 three three_keys
      (formed 5) five_forms

declined_once_example : 5 < 6
declined_once_example =
    declined_once toy waiting after_five (start_new_round after_five 6) after_six 4 4 (ne_at 5)
      (ne_at 6) 40 40 three three three_keys three_keys (formed 5) (formed 6) (omega arith)
      five_forms (started 6 here) six_forms

get_nec_lem_example :
    (get_nec after_five 5 ≡ some (formed 5)) × Keeps (start_new_round after_five 6) 5 (formed 5)
get_nec_lem_example =
    get_nec_lem toy waiting after_five (start_new_round after_five 6) 4 (ne_at 5) 40 three
      three_keys (formed 5) (omega arith) five_forms (started 6 here)
