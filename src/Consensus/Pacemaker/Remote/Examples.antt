-- ===== src/Consensus/Pacemaker/Remote/Examples.antt =====
-- consensus/pacemaker.go: three validators time out, one with an invalid signature.
use monadbft_go.Base.{◌≡◌, ◌≢◌, ◌⊎◌, refl, none, [], ◌∷◌, add64, true, false}
use monadbft_go.Base.Run.{stuck, done}
use monadbft_go.Base.Table.{lookup, insert, delete, has, nat_eq}
use monadbft_go.Types.{Signature}
use monadbft_go.Cstypes.Certs.{
  from_qc, from_tc, QuorumCertificate, TimeoutCertificate, Timeout, HighExtend, qc_vote, genesis_qc,
}
use monadbft_go.Cstypes.Rank.{rank, cmp}
use monadbft_go.Cstypes.NewTimeout.{new_timeout_certificate, group, highest_extend, collect_groups}
use monadbft_go.Validator.EpochManager.{EpochManager, epoch_at}
use monadbft_go.Validator.ValidatorSet.{
  ValidatorSet, has_super_majority_votes, current_stake_loop, calculate_current_stake,
  stake_from_big, threshold, has_threshold_votes, index_in, search,
}
use monadbft_go.Validator.Mapping.{ValidatorMapping, pub_key, mapping_has, mapping_index}
use monadbft_go.Sigcol.{
  new_collection, see, mark_signers, set_bit, new_signer_map, seal, bad_signers, localize,
}
use monadbft_go.Sigcol.Pairing.{sum_keys, sum_sigs}
use monadbft_go.Sigcol.Pairing.Toy.{toy}
use monadbft_go.Consensus.Tally.{drop_bad, mark_invalid}
use monadbft_go.Consensus.Safety.{Safety}
use monadbft_go.Consensus.Safety as SafetyRules
use monadbft_go.Consensus.Pacemaker.{
  Pacemaker, phase_zero, phase_one, enter_round, schedule, advance, entered, get_current_round,
  get_round_timer,
}
use monadbft_go.Consensus.Pacemaker.Remote.{
  process_remote_timeout, join_timeout, settle, drop_senders, leave_round,
}
use monadbft_go.Consensus.Pacemaker.Remote.Loop.{process_remote_timeout_ends}
use monadbft_go.Consensus.Pacemaker.Remote.Certificates.{TimesOut, process_remote_timeout-TimesOut}

abbrev epochs : EpochManager
epochs = record {
  epoch_length = 50;
  epoch_start_delay = 10;
  epoch_starts = (1, 0) ∷ [];
  sorted = 1 ∷ [];
}

abbrev three : ValidatorSet
three = record { members = 1 ∷ 2 ∷ 4 ∷ []; stakes = (1, 1) ∷ (2, 2) ∷ (4, 3) ∷ []; total_stake = 6 }

abbrev three_keys : ValidatorMapping
three_keys = record { node_ids = 1 ∷ 2 ∷ 4 ∷ []; pubs = (1, 10) ∷ (2, 20) ∷ (4, 40) ∷ [] }

abbrev qc_4 : QuorumCertificate
qc_4 = record genesis_qc { info = record { id = 4; round = 4; epoch = 1 } }

abbrev timeout_5 : Signature → Timeout
timeout_5 sig = record {
  tm_info = record { epoch = 1; round = 5; high_qc_round = 4; high_tip_round = 0 };
  timeout_signature = sig;
  high_extend = qc_vote qc_4;
  last_round_certificate = none;
}

abbrev fresh : Safety
fresh = record {
  maybe_high_tip = none;
  high_certificate_qc_round = 4;
  highest_vote = 5;
  highest_no_endorse = record { round = 0; tip = 0 };
  highest_propose = 0;
  highest_recovery_request = 0;
  handled_proposals = [];
  handled_proposals_order = [];
}

abbrev at_5 : Pacemaker
at_5 = record {
  delta = 100;
  vote_pace = λ r. 50;
  local_processing = 7;
  current_epoch = 1;
  high_certificate = from_qc qc_4;
  pending_timeouts = (1, timeout_5 11) ∷ (2, timeout_5 20) ∷ [];
  invalid_timeout_senders = [];
  phase = phase_one;
}

abbrev tc_5 : TimeoutCertificate
tc_5 = record {
  epoch = 1;
  round = 5;
  tip_rounds =
      record {
        high_qc_round = 4;
        high_tip_round = 0;
        sigs = record { signers = false ∷ true ∷ true ∷ []; raw_sig = 60 };
      }
      ∷ [];
  high_extend = HighExtend.qc qc_4;
}

abbrev at_6 : Pacemaker
at_6 = record at_5 { high_certificate = from_tc tc_5; pending_timeouts = []; phase = phase_zero }

-- The round ends without the invalid signature.
enters_6 :
    process_remote_timeout toy epochs three three_keys at_5 fresh 4 (timeout_5 40)
    ≡ done (
      enter_round 1 6 (from_tc tc_5) ∷ schedule 6 357 ∷ [],
      at_6,
      SafetyRules.process_certificate fresh (from_tc tc_5),
    )
unfolding process_remote_timeout join_timeout settle drop_senders leave_round advance entered
    get_current_round get_round_timer epoch_at new_timeout_certificate group highest_extend
    collect_groups rank cmp drop_bad mark_invalid has_super_majority_votes current_stake_loop
    calculate_current_stake stake_from_big threshold has_threshold_votes index_in search pub_key
    mapping_has mapping_index new_collection see mark_signers set_bit new_signer_map seal
    bad_signers localize sum_keys sum_sigs lookup insert has delete
enters_6 = refl

process_remote_timeout_ends_example :
    process_remote_timeout toy epochs three three_keys at_5 fresh 4 (timeout_5 40) ≢ stuck
process_remote_timeout_ends_example =
    process_remote_timeout_ends toy epochs three three_keys at_5 fresh 4 (timeout_5 40)

process_remote_timeout-TimesOut_example :
    (from_tc tc_5 ≡ from_qc qc_4)
    ⊎ ((5 ≡ get_current_round at_5)
        × (get_current_round at_6 ≡ add64 (get_current_round at_5) 1)
        × TimesOut toy epochs three three_keys 5 at_6)
process_remote_timeout-TimesOut_example =
    process_remote_timeout-TimesOut toy epochs three three_keys at_5 at_6 fresh
      (SafetyRules.process_certificate fresh (from_tc tc_5)) 4 (timeout_5 40)
      (enter_round 1 6 (from_tc tc_5) ∷ schedule 6 357 ∷ []) enters_6
