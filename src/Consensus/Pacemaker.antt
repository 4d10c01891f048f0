-- ===== src/Consensus/Pacemaker.antt =====
-- consensus/pacemaker.go: rounds advance on certificates, and a local timeout signs off the round.
-- A panic is `none`. The chain configuration's pace of votes is a function in the state.
pub mod Rounds
pub mod Remote
mod Examples
use monadbft_go.Base.{
  ℕ, ◌+◌, ◌*◌, ◌≡◌, Bool, true, false, not, Option, none, some, List, [], ◌∷◌, leb, ◌==◌,
  if◌then◌else◌, add64, mul64, map,
}
use monadbft_go.Types.{Round, Epoch, NodeId, genesis_round}
use monadbft_go.Cstypes.Certs.{
  RoundCertificate, ConsensusTip, HighExtend, Timeout, TimeoutInfo, cert_round, cert_qc,
}
use monadbft_go.Validator.EpochManager.{EpochManager, epoch_at}
use monadbft_go.Consensus.Safety.{Safety}
use monadbft_go.Consensus.Safety as SafetyRules

pub data PhaseHonest : Type 0 where
  phase_zero phase_one : PhaseHonest

pub data PacemakerCommand : Type 0 where
  enter_round : Epoch → Round → RoundCertificate → PacemakerCommand
  prepare_timeout : TimeoutInfo → HighExtend → Bool → Option RoundCertificate → PacemakerCommand
  schedule : Round → ℕ → PacemakerCommand
  schedule_reset : PacemakerCommand

pub record Pacemaker : Type 0 where
  pub delta : ℕ
  pub vote_pace : Round → ℕ
  pub local_processing : ℕ
  pub current_epoch : Epoch
  pub high_certificate : RoundCertificate
  pub pending_timeouts : List (NodeId × Timeout)
  pub invalid_timeout_senders : List NodeId
  pub phase : PhaseHonest

pub new_pacemaker : ℕ → (Round → ℕ) → ℕ → EpochManager → RoundCertificate → Option Pacemaker
new_pacemaker delta pace processing em cert = elim (epoch_at em (add64 (cert_round cert) 1)) [
  | none ↦ none
  | some epoch ↦ some (record {
    delta = delta;
    vote_pace = pace;
    local_processing = processing;
    current_epoch = epoch;
    high_certificate = cert;
    pending_timeouts = [];
    invalid_timeout_senders = [];
    phase = phase_zero;
  })
]

unfoldable pub get_current_round : Pacemaker → Round
get_current_round p = add64 (cert_round p.high_certificate) 1

pub get_round_timer : Pacemaker → Round → ℕ
get_round_timer p round = add64 (add64 (mul64 p.delta 3) (p.vote_pace round)) p.local_processing

-- The state behind a certificate that is newer, in an epoch that is known.
pub entered : Pacemaker → Epoch → RoundCertificate → Pacemaker
entered p epoch cert = record p {
  high_certificate = cert;
  current_epoch = epoch;
  phase = phase_zero;
  pending_timeouts = [];
  invalid_timeout_senders = [];
}

-- Pacemaker.ProcessCertificate, with the safety state that it updates.
pub advance :
    EpochManager
    → Pacemaker
    → Safety
    → RoundCertificate
    → Option (List PacemakerCommand × Pacemaker × Safety)
unfolding get_current_round entered
advance em p s cert =
    if leb (cert_round cert) (cert_round p.high_certificate)
    then some ([], p, s)
    else elim (epoch_at em (add64 (cert_round cert) 1)) [
      | none ↦ none
      | some epoch ↦
          let q = entered p epoch cert in
          some (
            enter_round epoch (get_current_round q) cert
                ∷ schedule (get_current_round q) (get_round_timer q (get_current_round q))
                ∷ [],
            q,
            SafetyRules.process_certificate s cert,
          )
    ]

-- The tip that the node holds, or else the certificate of its round.
pub extend : Pacemaker → Safety → HighExtend
extend p s = elim s.maybe_high_tip [
  | some tip ↦ HighExtend.tip tip
  | none ↦ HighExtend.qc (cert_qc p.high_certificate)
]

abbrev pub tip_round : HighExtend → Round
tip_round (HighExtend.tip t) = t.block_header.block_round
tip_round (HighExtend.qc q) = genesis_round

abbrev pub extend_qc_round : HighExtend → Round
extend_qc_round (HighExtend.tip t) = t.block_header.qc.info.round
extend_qc_round (HighExtend.qc q) = q.info.round

pub timeout_info : Pacemaker → Safety → TimeoutInfo
unfolding extend get_current_round
timeout_info p s = record {
  epoch = p.current_epoch;
  round = get_current_round p;
  high_qc_round = extend_qc_round (extend p s);
  high_tip_round = tip_round (extend p s);
}

-- The certificate of the last round goes along unless the high certificate is of that round.
pub last_round_certificate : Pacemaker → HighExtend → Option RoundCertificate
unfolding get_current_round
last_round_certificate p e =
    if add64 (extend_qc_round e) 1 == get_current_round p then none else some p.high_certificate

-- Timeout first marks the round; the high tip is read behind it, and Timeout leaves it alone.
unfoldable pub local_timeout_round : Pacemaker → Safety → Option (List PacemakerCommand × Safety)
unfolding timeout_info last_round_certificate extend
local_timeout_round p s = elim (SafetyRules.timeout s (get_current_round p)) [
  | none ↦ none
  | some (t, safe) ↦ some (
    schedule_reset
        ∷ prepare_timeout (timeout_info p t) (extend p t) safe
            (last_round_certificate p (extend p t))
        ∷ schedule (get_current_round p) (get_round_timer p (get_current_round p))
        ∷ [],
    t,
  )
]

unfoldable pub process_local_timeout :
    Pacemaker → Safety → Option (List PacemakerCommand × Pacemaker × Safety)
process_local_timeout p s = elim (local_timeout_round p s) [
  | none ↦ none
  | some (cmds, t) ↦ some (cmds, record p { phase = phase_one }, t)
]
