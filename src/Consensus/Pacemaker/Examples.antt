-- ===== src/Consensus/Pacemaker/Examples.antt =====
-- consensus/pacemaker.go: the first rounds behind the genesis certificate.
use monadbft_go.Base.{arith, ◌≤◌, ◌<◌, ◌≡◌, ◌⊎◌, refl, none, some, List, [], ◌∷◌}
use monadbft_go.Base.Table.{lookup, nat_eq}
use monadbft_go.Cstypes.Certs.{from_qc, QuorumCertificate, genesis_qc}
use monadbft_go.Validator.EpochManager.{EpochManager, epoch_at}
use monadbft_go.Consensus.Safety.{Safety}
use monadbft_go.Consensus.Safety as SafetyRules
use monadbft_go.Consensus.Pacemaker.{
  Pacemaker, PacemakerCommand, phase_zero, phase_one, enter_round, schedule, advance,
  process_local_timeout, local_timeout_round, get_current_round, get_round_timer,
}
use monadbft_go.Consensus.Pacemaker.Rounds.{Fresh, SameMarks, advance_lem}

abbrev epochs : EpochManager
epochs = record {
  epoch_length = 50;
  epoch_start_delay = 10;
  epoch_starts = (1, 0) ∷ [];
  sorted = 1 ∷ [];
}

abbrev start : Pacemaker
start = record {
  delta = 100;
  vote_pace = λ r. 50;
  local_processing = 7;
  current_epoch = 1;
  high_certificate = from_qc genesis_qc;
  pending_timeouts = [];
  invalid_timeout_senders = [];
  phase = phase_zero;
}

abbrev fresh : Safety
fresh = record {
  maybe_high_tip = none;
  high_certificate_qc_round = 0;
  highest_vote = 0;
  highest_no_endorse = record { round = 0; tip = 0 };
  highest_propose = 0;
  highest_recovery_request = 0;
  handled_proposals = [];
  handled_proposals_order = [];
}

abbrev qc_4 : QuorumCertificate
qc_4 = record genesis_qc { info = record { id = 4; round = 4; epoch = 1 } }

abbrev at_5 : Pacemaker
at_5 = record start { high_certificate = from_qc qc_4 }

abbrev certified_4 : Safety
certified_4 = record fresh { high_certificate_qc_round = 4 }

enters_5 :
    advance epochs start fresh (from_qc qc_4)
    ≡ some (enter_round 1 5 (from_qc qc_4) ∷ schedule 5 357 ∷ [], at_5, certified_4)
unfolding advance epoch_at lookup SafetyRules.process_certificate get_round_timer
enters_5 = refl

start-Fresh : Fresh start fresh
start-Fresh = record { seen = omega arith; ahead = λ tip e. absurd cc }

advance_lem_example :
    Fresh at_5 certified_4
    × (4 ≤ 4)
    × (((4 ≤ 0)
          × (at_5 ≡ start)
          × (certified_4 ≡ fresh)
          × (enter_round 1 5 (from_qc qc_4) ∷ schedule 5 357 ∷ [] ≡ []))
        ⊎ ((0 < 4)
            × (at_5.high_certificate ≡ from_qc qc_4)
            × (epoch_at epochs (get_current_round at_5) ≡ some 1)
            × (at_5.pending_timeouts ≡ [])
            × (at_5.invalid_timeout_senders ≡ [])
            × SameMarks fresh certified_4))
advance_lem_example =
    advance_lem epochs start at_5 fresh certified_4 (from_qc qc_4)
      (enter_round 1 5 (from_qc qc_4) ∷ schedule 5 357 ∷ []) start-Fresh enters_5

abbrev timed_out : Safety
timed_out = record fresh { highest_vote = 5 }

abbrev waiting : Pacemaker
waiting = record at_5 { phase = phase_one }

times_out_5 :
    (cmds : List PacemakerCommand) × (process_local_timeout at_5 fresh
      ≡ some (cmds, waiting, timed_out))
unfolding process_local_timeout local_timeout_round SafetyRules.timeout
times_out_5 = (_, refl)

at_round_5 : get_current_round at_5 ≡ 5
unfolding get_current_round
at_round_5 = refl
