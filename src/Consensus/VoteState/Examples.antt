-- ===== src/Consensus/VoteState/Examples.antt =====
-- consensus/vote_state.go: three validators, one of whose signatures is invalid.
use monadbft_go.Base.{◌<◌, ◌≡◌, ◌≢◌, refl, ap, arith, true, false, some, [], ◌∷◌, keep}
use monadbft_go.Base.Outcome.{ok}
use monadbft_go.Base.Run.{stuck, done}
use monadbft_go.Base.Table.{keys, nat_eq, lookup, insert, has, delete}
use monadbft_go.Base.Sets.{contains}
use monadbft_go.Types.{Round}
use monadbft_go.Cstypes.Certs.{Vote, QuorumCertificate, SignatureCollection}
use monadbft_go.Cstypes.Codec.{encode_vote}
use monadbft_go.Validator.ValidatorSet.{
  ValidatorSet, has_super_majority_votes, current_stake_loop, calculate_current_stake,
  stake_from_big, threshold, has_threshold_votes, index_in, search,
}
use monadbft_go.Validator.ValidatorSet.Quorum.{IsValid, total}
use monadbft_go.Validator.Mapping.{ValidatorMapping, IsMapping, pub_key, mapping_has, mapping_index}
use monadbft_go.Sigcol.{
  new_collection, see, mark_signers, set_bit, new_signer_map, seal, bad_signers, localize,
}
use monadbft_go.Sigcol.New.{good}
use monadbft_go.Sigcol.Pairing.{sum_keys, sum_sigs}
use monadbft_go.Sigcol.Pairing.Toy.{toy, toy-IsBls}
use monadbft_go.Consensus.Tally.{form_certificate, form, drop_bad, mark_invalid}
use monadbft_go.Sigcol.Blame.{IsFair}
use monadbft_go.Consensus.VoteState.{
  vote_domain, VoteState, RoundVoteState, noted, note_vote, ballot, record_votes, process_vote,
  start_new_round,
}
use monadbft_go.Consensus.VoteState.Certificates.{
  Certifies, here, started, process_vote_ends, process_vote-Certifies, certified_once,
  process_vote_live,
}

abbrev three : ValidatorSet
three = record { members = 1 ∷ 2 ∷ 4 ∷ []; stakes = (1, 1) ∷ (2, 2) ∷ (4, 3) ∷ []; total_stake = 6 }

abbrev three_keys : ValidatorMapping
three_keys = record { node_ids = 1 ∷ 2 ∷ 4 ∷ []; pubs = (1, 10) ∷ (2, 20) ∷ (4, 40) ∷ [] }

three-IsValid : IsValid three
unfolding total
three-IsValid = record { sums = refl; fits = omega arith }

three_keys-IsMapping : IsMapping three_keys
unfolding mapping_has has lookup
three_keys-IsMapping = record { increasing = ground arith; same = λ id. ground arith }

abbrev vote_at : Round → Vote
vote_at round = record { id = 7; round = round; epoch = 1 }

-- The signature of validator 1 is invalid.
abbrev at_six : RoundVoteState
at_six = record {
  pending_votes = (vote_at 6, (2, 20) ∷ []) ∷ [];
  node_votes = [];
  invalid_voters = [];
}

abbrev waiting : VoteState
waiting = record {
  earliest_round = 5;
  rounds =
      (
        5,
        record {
          pending_votes = (vote_at 5, (1, 11) ∷ (2, 20) ∷ []) ∷ [];
          node_votes = [];
          invalid_voters = [];
        },
      )
      ∷ (6, at_six)
      ∷ [];
}

abbrev after_five : VoteState
after_five = record {
  earliest_round = 6;
  rounds =
      (
        5,
        record {
          pending_votes = (vote_at 5, (2, 20) ∷ (4, 40) ∷ []) ∷ [];
          node_votes = (4, 40 ∷ []) ∷ [];
          invalid_voters = 1 ∷ [];
        },
      )
      ∷ (6, at_six)
      ∷ [];
}

abbrev after_six : VoteState
after_six = record {
  earliest_round = 7;
  rounds =
      (
        6,
        record {
          pending_votes = (vote_at 6, (2, 20) ∷ (4, 40) ∷ []) ∷ [];
          node_votes = (4, 40 ∷ []) ∷ [];
          invalid_voters = [];
        },
      )
      ∷ [];
}

abbrev formed : Round → QuorumCertificate
formed round = record {
  info = vote_at round;
  signatures = record { signers = false ∷ true ∷ true ∷ []; raw_sig = 60 };
}

-- The certificate forms without the invalid signature.
five_forms :
    process_vote toy waiting 4 (vote_at 5) 40 three three_keys ≡ done (some (formed 5), after_five)
unfolding process_vote noted note_vote ballot record_votes form_certificate form drop_bad
    mark_invalid has_super_majority_votes current_stake_loop calculate_current_stake stake_from_big
    threshold has_threshold_votes index_in search pub_key mapping_has mapping_index new_collection
    see mark_signers set_bit new_signer_map seal bad_signers localize sum_keys sum_sigs lookup
    insert has delete
five_forms = refl

six_forms :
    process_vote toy (start_new_round after_five 6) 4 (vote_at 6) 40 three three_keys
    ≡ done (some (formed 6), after_six)
unfolding process_vote noted note_vote ballot record_votes form_certificate form drop_bad
    mark_invalid has_super_majority_votes current_stake_loop calculate_current_stake stake_from_big
    threshold has_threshold_votes index_in search pub_key mapping_has mapping_index new_collection
    see mark_signers set_bit new_signer_map seal bad_signers localize sum_keys sum_sigs lookup
    insert has delete start_new_round
six_forms = refl

process_vote_ends_example : process_vote toy waiting 4 (vote_at 5) 40 three three_keys ≢ stuck
process_vote_ends_example = process_vote_ends toy waiting 4 (vote_at 5) 40 three three_keys

process_vote-Certifies_example :
    Certifies toy three three_keys waiting after_five (vote_at 5) (formed 5)
process_vote-Certifies_example =
    process_vote-Certifies toy waiting after_five 4 (vote_at 5) 40 three three_keys (formed 5)
      five_forms

certified_once_example : 5 < 6
certified_once_example =
    certified_once toy waiting after_five (start_new_round after_five 6) after_six 4 4 (vote_at 5)
      (vote_at 6) 40 40 three three three_keys three_keys (formed 5) (formed 6) (omega arith)
      five_forms (started 6 here (omega arith)) six_forms

waiting-IsFair :
    IsFair toy three_keys (ballot (noted waiting 4 (vote_at 5) 40) 4 (vote_at 5) 40).bucket
unfolding noted note_vote ballot mapping_has has lookup insert sum_keys pub_key
waiting-IsFair = record {
  known = (refl, (refl, (refl, tt)));
  distinct = (refl, (refl, (refl, tt)));
  no_cancel = omega arith;
}

good-IsFair : IsFair toy three_keys (
    keep
      (good toy vote_domain three_keys (encode_vote [] (vote_at 5)))
      (ballot (noted waiting 4 (vote_at 5) 40) 4 (vote_at 5) 40).bucket)
unfolding noted note_vote ballot mapping_has has lookup insert sum_keys pub_key
good-IsFair = record {
  known = (refl, (refl, tt));
  distinct = (refl, (refl, tt));
  no_cancel = omega arith;
}

not_invalid : (noted waiting 4 (vote_at 5) 40).invalid_voters ≡ []
unfolding noted note_vote lookup
not_invalid = refl

good-majority :
    has_super_majority_votes three (
      keys (
        keep
          (good toy vote_domain three_keys (encode_vote [] (vote_at 5)))
          (ballot (noted waiting 4 (vote_at 5) 40) 4 (vote_at 5) 40).bucket))
    ≡ ok true
unfolding noted note_vote ballot lookup insert pub_key has_super_majority_votes current_stake_loop
    calculate_current_stake stake_from_big threshold has_threshold_votes
good-majority = refl

process_vote_live_example :
    (c : SignatureCollection) × (w : VoteState) × (process_vote toy waiting 4
        (vote_at 5)
        40
        three
        three_keys
      ≡ done (some (record { info = vote_at 5; signatures = c }), w))
process_vote_live_example =
    process_vote_live toy waiting 4 (vote_at 5) 40 three three_keys toy-IsBls three_keys-IsMapping
      three-IsValid (omega arith) (ap (λ ids. contains 4 ids) not_invalid) waiting-IsFair
      good-IsFair good-majority
