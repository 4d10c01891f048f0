-- ===== src/Consensus/Pacemaker/Remote/Loop.antt =====
-- consensus/pacemaker.go: the loop over remote timeouts ends.
use monadbft_go.Base.{
  ℕ, zero, suc, ◌<◌, ◌≡◌, ◌≢◌, ◌⊎◌, inl, inr, refl, sym, subst, arith, true, false, List, [], ◌∷◌,
  ◌++◌, ltb, ◌==◌, length, All, Bool-cases, Option-cases,
}
use mathlib.Core.List.{append_assoc}
use monadbft_go.Base.Outcome.{err, Outcome-cases}
use monadbft_go.Base.Run.{stuck}
use monadbft_go.Base.Table.{keys, insert, nat_eq, delete}
use monadbft_go.Base.Sets.{contains, beq_refl, delete-lt}
use monadbft_go.Types.{Round, Epoch, NodeId}
use monadbft_go.Cstypes.Certs.{Timeout, RoundCertificate, from_tc}
use monadbft_go.Cstypes.NewTimeout.{new_timeout_certificate, collect_groups, group}
use monadbft_go.Cstypes.NewTimeout.Groups.{All-group, collect_groups-blames}
use monadbft_go.Validator.EpochManager.{EpochManager}
use monadbft_go.Validator.ValidatorSet.{ValidatorSet, has_super_majority_votes}
use monadbft_go.Validator.Mapping.{ValidatorMapping}
use monadbft_go.Sigcol.{NodeSig, invalid_signatures_create}
use monadbft_go.Sigcol.Pairing.{Bls}
use monadbft_go.Consensus.Safety.{Safety}
use monadbft_go.Consensus.Tally.{drop_bad}
use monadbft_go.Consensus.Tally.Loop.{drop_bad-le}
use monadbft_go.Consensus.Pacemaker.{
  Pacemaker, PacemakerCommand, PhaseHonest, phase_zero, phase_one, get_current_round, advance,
}
use monadbft_go.Consensus.Pacemaker.Remote.{
  drop_senders, join_timeout, leave_round, settle, process_remote_timeout,
}

All-senders :
    (tms tail : List (NodeId × Timeout)) → All (λ s. contains s.0 (keys (tail ++ tms)) ≡ true) tms
All-senders [] tail = tt
All-senders ((id, s) ∷ b) tail = (
  here tail,
  subst (λ l. All (λ x. contains x.0 (keys l) ≡ true) b) (append_assoc tail ((id, s) ∷ []) b)
      (All-senders b (tail ++ ((id, s) ∷ []))),
)
  where
    here : (t : List (NodeId × Timeout)) → contains id (keys (t ++ ((id, s) ∷ b))) ≡ true
    here [] = ground (arith, beq_refl id)
    here ((j, r) ∷ t) = ground (arith, here t)

-- Dropping whom the new certificate blames leaves fewer timeouts.
drop_senders-lt :
    (bls : Bls) (mapping : ValidatorMapping) (epoch : Epoch) (round : Round) (p : Pacemaker)
    (bad : List NodeSig)
    → new_timeout_certificate bls epoch round p.pending_timeouts mapping
      ≡ err (invalid_signatures_create bad)
    → length (drop_senders bad p).pending_timeouts < length p.pending_timeouts
unfolding new_timeout_certificate drop_senders drop_bad
drop_senders-lt bls mapping epoch round p bad h =
    elim (Outcome-cases (collect_groups bls mapping (group p.pending_timeouts []))) [
      | inl (r, e) ↦ absurd (ground (arith, h, e))
      | inr (inr e) ↦ absurd (ground (arith, h, e))
      | inr (inl (x, e)) ↦
          let (b, rest, q, c) =
            collect_groups-blames bls mapping (λ s. contains s.0 (keys p.pending_timeouts) ≡ true)
              (group p.pending_timeouts []) bad (ground (arith, h, e))
              (All-group (λ s. contains s.0 (keys p.pending_timeouts) ≡ true) p.pending_timeouts []
                (All-senders p.pending_timeouts []) tt) in
          subst (λ l. length (drop_bad l p.pending_timeouts) < length p.pending_timeouts) (sym q)
            (omega (
              arith,
              drop_bad-le rest (delete b.0 p.pending_timeouts),
              delete-lt b.0 p.pending_timeouts c,
            ))
    ]

pub Phase-cases : (f : PhaseHonest) → (f ≡ phase_zero) ⊎ (f ≡ phase_one)
Phase-cases phase_zero = inl refl
Phase-cases phase_one = inr refl

module _ (bls : Bls) (em : EpochManager) (validators : ValidatorSet)
    (mapping : ValidatorMapping) where
  leave_round-ends :
      (cmds : List PacemakerCommand) (p : Pacemaker) (s : Safety) (c : RoundCertificate)
      → leave_round em cmds p s c ≢ stuck
  unfolding leave_round
  leave_round-ends cmds p s c e = elim (Option-cases (advance em p s c)) [
    | inl n ↦ ground (arith, e, n)
    | inr ((more, q, t), n) ↦ elim (Phase-cases q.phase) [
      | inl z ↦ ground (arith, e, n, z)
      | inr z ↦ ground (arith, e, n, z)
    ]
  ]

  settle_ends :
      (epoch : Epoch) (round : Round) (fuel : ℕ) (cmds : List PacemakerCommand) (p : Pacemaker)
      (s : Safety)
      → length p.pending_timeouts < fuel
      → settle bls em validators mapping epoch round fuel cmds p s ≢ stuck
  unfolding settle
  settle_ends epoch round zero cmds p s l e = absurd (omega arith)
  settle_ends epoch round (suc fuel) cmds p s l e = elim (Phase-cases p.phase) [
    | inl z ↦ ground (arith, e, z)
    | inr z ↦ elim (Outcome-cases (has_super_majority_votes validators (keys p.pending_timeouts))) [
      | inr (inl (x, q)) ↦ ground (arith, e, z, q)
      | inr (inr q) ↦ ground (arith, e, z, q)
      | inl (false, q) ↦ ground (arith, e, z, q)
      | inl (true, q) ↦
          elim (Outcome-cases
            (new_timeout_certificate bls epoch round p.pending_timeouts mapping)) [
              | inl (tc, n) ↦ leave_round-ends cmds p s (from_tc tc) (ground (arith, e, z, q, n))
              | inr (inl (invalid_signatures_create bad, n)) ↦
                  settle_ends epoch round fuel cmds (drop_senders bad p) s
                    (omega (arith, l, drop_senders-lt bls mapping epoch round p bad n))
                    (ground (arith, e, z, q, n))
              | inr (inl (x, n)) ↦ ground (arith, e, z, q, n)
              | inr (inr n) ↦ ground (arith, e, z, q, n)
            ]
    ]
  ]

  -- Processing a remote timeout ends: the loop never runs out of its fuel, which is one more than the
  -- senders of pending timeouts.
  pub process_remote_timeout_ends :
      (p : Pacemaker) (s : Safety) (author : NodeId) (t : Timeout)
      → process_remote_timeout bls em validators mapping p s author t ≢ stuck
  unfolding process_remote_timeout
  process_remote_timeout_ends p s author t e =
      let w : Pacemaker = record p { pending_timeouts = insert author t p.pending_timeouts } in
      elim (Bool-cases (ltb t.tm_info.round (get_current_round p))) [
        | inl a ↦ ground (arith, e, a)
        | inr a ↦ elim (Bool-cases (t.tm_info.round == get_current_round p)) [
          | inr b ↦ ground (arith, e, a, b)
          | inl b ↦ elim (Bool-cases (contains author p.invalid_timeout_senders)) [
            | inl c ↦ ground (arith, e, a, b, c)
            | inr c ↦ elim (Option-cases (join_timeout validators w s)) [
              | inl n ↦ ground (arith, e, a, b, c, n)
              | inr ((cmds, q, u), n) ↦
                  settle_ends t.tm_info.epoch t.tm_info.round (suc (length q.pending_timeouts)) cmds
                    q u (omega arith) (ground (arith, e, a, b, c, n))
            ]
          ]
        ]
      ]
