-- ===== src/Consensus/Pacemaker/Remote.antt =====
-- consensus/pacemaker.go: timeouts of other nodes. Enough of them make the node join in, and a
-- super-majority forms the certificate that ends the round. The loop drops a sender at least in each
-- round but the last, so it takes fuel one more than the senders.
pub mod Loop
pub mod Certificates
mod Examples
use monadbft_go.Base.{
  ℕ, zero, suc, Bool, true, false, not, Option, none, some, List, [], ◌∷◌, ◌++◌, ltb, ◌==◌,
  if◌then◌else◌, length,
}
use monadbft_go.Base.Outcome.{Outcome, ok, err, panic}
use monadbft_go.Base.Run.{Run, stuck, done}
use monadbft_go.Base.Run as Runs
use monadbft_go.Base.Table.{keys, insert, nat_eq}
use monadbft_go.Base.Sets.{contains}
use monadbft_go.Types.{Round, Epoch, NodeId}
use monadbft_go.Cstypes.Certs.{Timeout, RoundCertificate, from_tc}
use monadbft_go.Cstypes.NewTimeout.{new_timeout_certificate}
use monadbft_go.Validator.EpochManager.{EpochManager}
use monadbft_go.Validator.ValidatorSet.{ValidatorSet, has_honest_vote, has_super_majority_votes}
use monadbft_go.Validator.Mapping.{ValidatorMapping}
use monadbft_go.Sigcol.{NodeSig, invalid_signatures_create}
use monadbft_go.Sigcol.Pairing.{Bls}
use monadbft_go.Consensus.Safety.{Safety}
use monadbft_go.Consensus.Tally.{drop_bad, mark_invalid}
use monadbft_go.Consensus.Pacemaker.{
  Pacemaker, PacemakerCommand, PhaseHonest, phase_zero, phase_one, get_current_round,
  local_timeout_round, advance,
}

abbrev pub Answer : Type 0
Answer = List PacemakerCommand × Pacemaker × Safety

-- The senders whose signatures are bad lose their timeouts, and are not heard again in this round.
unfoldable pub drop_senders : List NodeSig → Pacemaker → Pacemaker
drop_senders bad p = record p {
  pending_timeouts = drop_bad bad p.pending_timeouts;
  invalid_timeout_senders = mark_invalid bad p.invalid_timeout_senders;
}

-- More than a third of the stake makes the node time out itself. A panic is `none`.
unfoldable pub join_timeout : ValidatorSet → Pacemaker → Safety → Option Answer
join_timeout validators p s = elim p.phase [
  | phase_one ↦ some ([], p, s)
  | phase_zero ↦ elim (has_honest_vote validators (keys p.pending_timeouts)) [
    | err _ ↦ none
    | panic ↦ none
    | ok false ↦ some ([], p, s)
    | ok true ↦ elim (local_timeout_round p s) [
      | none ↦ none
      | some (cmds, t) ↦ some (cmds, record p { phase = phase_one }, t)
    ]
  ]
]

-- The certificate is processed, and the phase must be reset behind it.
unfoldable pub leave_round :
    EpochManager → List PacemakerCommand → Pacemaker → Safety → RoundCertificate → Run Answer
leave_round em cmds p s cert = elim (advance em p s cert) [
  | none ↦ Runs.panic
  | some (more, q, t) ↦ elim q.phase [
    | phase_zero ↦ done (cmds ++ more, q, t)
    | phase_one ↦ Runs.panic
  ]
]

module _ (bls : Bls) (em : EpochManager) (validators : ValidatorSet)
    (mapping : ValidatorMapping) where
  -- The loop, over the epoch and the round of the timeout.
  unfoldable pub settle :
      Epoch → Round → ℕ → List PacemakerCommand → Pacemaker → Safety → Run Answer
  unfolding drop_senders leave_round
  settle epoch round zero cmds p s = stuck
  settle epoch round (suc fuel) cmds p s = elim p.phase [
    | phase_zero ↦ done (cmds, p, s)
    | phase_one ↦ elim (has_super_majority_votes validators (keys p.pending_timeouts)) [
      | err _ ↦ Runs.panic
      | panic ↦ Runs.panic
      | ok false ↦ done (cmds, p, s)
      | ok true ↦ elim (new_timeout_certificate bls epoch round p.pending_timeouts mapping) [
        | ok tc ↦ leave_round em cmds p s (from_tc tc)
        | err (invalid_signatures_create bad) ↦ settle epoch round fuel cmds (drop_senders bad p) s
        | err _ ↦ Runs.panic
        | panic ↦ Runs.panic
      ]
    ]
  ]

  unfoldable pub process_remote_timeout : Pacemaker → Safety → NodeId → Timeout → Run Answer
  unfolding join_timeout settle
  process_remote_timeout p s author t =
      if ltb t.tm_info.round (get_current_round p)
      then done ([], p, s)
      else if not (t.tm_info.round == get_current_round p)
      then Runs.panic
      else if contains author p.invalid_timeout_senders
      then done ([], p, s)
      else elim (join_timeout validators
          (record p { pending_timeouts = insert author t p.pending_timeouts }) s) [
            | none ↦ Runs.panic
            | some (cmds, q, u) ↦
                settle t.tm_info.epoch t.tm_info.round (suc (length q.pending_timeouts)) cmds q u
          ]
