-- ===== src/Consensus/Pacemaker/Remote/Certificates.antt =====
-- consensus/pacemaker.go: the certificate that ends a round has a super-majority behind it.
use monadbft_go.Base.{
  ℕ, zero, suc, ◌≡◌, ◌⊎◌, inl, inr, ap, subst, ◌∙◌, arith, true, false, some, List, [], ltb, ◌==◌,
  length, leb, add64, ==_iff, Bool-cases, Option-cases,
}
use monadbft_go.Base.Outcome.{ok, Outcome-cases}
use monadbft_go.Base.Run.{done}
use monadbft_go.Base.Table.{keys, insert, nat_eq}
use monadbft_go.Base.Sets.{contains}
use monadbft_go.Types.{Round, Epoch, NodeId}
use monadbft_go.Cstypes.Certs.{cert_round, Timeout, from_tc, TimeoutCertificate}
use monadbft_go.Cstypes.NewTimeout.{new_timeout_certificate}
use monadbft_go.Cstypes.NewTimeout.Highest.{new_timeout_certificate_lem}
use monadbft_go.Validator.EpochManager.{EpochManager, epoch_at}
use monadbft_go.Validator.ValidatorSet.{ValidatorSet, has_honest_vote, has_super_majority_votes}
use monadbft_go.Validator.Mapping.{ValidatorMapping}
use monadbft_go.Sigcol.{invalid_signatures_create}
use monadbft_go.Sigcol.Pairing.{Bls}
use monadbft_go.Consensus.Safety.{Safety}
use monadbft_go.Consensus.Pacemaker.{
  Pacemaker, PacemakerCommand, phase_zero, phase_one, get_current_round, local_timeout_round,
  advance, entered,
}
use monadbft_go.Consensus.Pacemaker.Remote.{
  drop_senders, join_timeout, leave_round, settle, process_remote_timeout,
}
use monadbft_go.Consensus.Pacemaker.Remote.Loop.{Phase-cases}

module _ (bls : Bls) (em : EpochManager) (validators : ValidatorSet)
    (mapping : ValidatorMapping) where
  -- What stands behind a timeout certificate that is formed: timeouts whose senders `has_super_majority_votes`
  -- counts as enough.
  pub record TimesOut (round : Round) (q : Pacemaker) : Type 0 where
    pub epoch : Epoch
    pub timeouts : List (NodeId × Timeout)
    pub tc : TimeoutCertificate
    pub majority : has_super_majority_votes validators (keys timeouts) ≡ ok true
    pub formed : new_timeout_certificate bls epoch round timeouts mapping ≡ ok tc
    pub entered_by : q.high_certificate ≡ from_tc tc
    pub fresh :
        (q.pending_timeouts ≡ []) × (q.invalid_timeout_senders ≡ []) × (q.phase ≡ phase_zero)

  advance-entered :
      (p r : Pacemaker) (s u : Safety) (tc : TimeoutCertificate) (cs : List PacemakerCommand)
      → p.phase ≡ phase_one
      → r.phase ≡ phase_zero
      → advance em p s (from_tc tc) ≡ some (cs, r, u)
      → (r.high_certificate ≡ from_tc tc)
        × (r.pending_timeouts ≡ [])
        × (r.invalid_timeout_senders ≡ [])
        × (r.phase ≡ phase_zero)
  unfolding advance entered
  advance-entered p r s u tc cs one z h =
      elim (Bool-cases (leb (cert_round (from_tc tc)) (cert_round p.high_certificate))) [
        | inl e ↦ absurd (ground (arith, h, e, one, z))
        | inr e ↦ elim (Option-cases (epoch_at em (add64 (cert_round (from_tc tc)) 1))) [
          | inl n ↦ absurd (ground (arith, h, e, n))
          | inr (epoch, n) ↦ ground (arith, h, e, n)
        ]
      ]

  leave_round-TimesOut :
      (cmds more : List PacemakerCommand) (p q : Pacemaker) (s t : Safety) (epoch : Epoch)
      (round : Round) (tc : TimeoutCertificate)
      → p.phase ≡ phase_one
      → has_super_majority_votes validators (keys p.pending_timeouts) ≡ ok true
      → new_timeout_certificate bls epoch round p.pending_timeouts mapping ≡ ok tc
      → leave_round em cmds p s (from_tc tc) ≡ done (more, q, t)
      → TimesOut round q
  unfolding leave_round
  leave_round-TimesOut cmds more p q s t epoch round tc one m f e =
      elim (Option-cases (advance em p s (from_tc tc))) [
        | inl n ↦ absurd (ground (arith, e, n))
        | inr ((cs, r, u), n) ↦
            let z : r.phase ≡ phase_zero = elim (Phase-cases r.phase) [
              | inl z ↦ z
              | inr o ↦ absurd (ground (arith, e, n, o))
            ] in
            let eq : r ≡ q = ground (arith, e, n, z) in
            let (a, b, c, d) = advance-entered p r s u tc cs one z n in
            subst (TimesOut round) eq (record {
              epoch = epoch;
              timeouts = p.pending_timeouts;
              tc = tc;
              majority = m;
              formed = f;
              entered_by = a;
              fresh = (b, c, d);
            })
      ]

  settle-TimesOut :
      (epoch : Epoch) (round : Round) (fuel : ℕ) (cmds more : List PacemakerCommand)
      (p q : Pacemaker) (s t : Safety)
      → settle bls em validators mapping epoch round fuel cmds p s ≡ done (more, q, t)
      → (q.high_certificate ≡ p.high_certificate) ⊎ TimesOut round q
  unfolding settle drop_senders
  settle-TimesOut epoch round zero cmds more p q s t e = absurd cc
  settle-TimesOut epoch round (suc fuel) cmds more p q s t e = elim (Phase-cases p.phase) [
    | inl z ↦ inl (ground (arith, e, z))
    | inr z ↦ elim (Outcome-cases (has_super_majority_votes validators (keys p.pending_timeouts))) [
      | inr (inl (x, m)) ↦ absurd (ground (arith, e, z, m))
      | inr (inr m) ↦ absurd (ground (arith, e, z, m))
      | inl (false, m) ↦ inl (ground (arith, e, z, m))
      | inl (true, m) ↦
          elim (Outcome-cases
            (new_timeout_certificate bls epoch round p.pending_timeouts mapping)) [
              | inl (tc, n) ↦ inr (
                  leave_round-TimesOut cmds more p q s t epoch round tc z m n
                    (ground (arith, e, z, m, n)))
              | inr (inl (invalid_signatures_create bad, n)) ↦
                  settle-TimesOut epoch round fuel cmds more (drop_senders bad p) q s t
                    (ground (arith, e, z, m, n))
              | inr (inl (x, n)) ↦ absurd (ground (arith, e, z, m, n))
              | inr (inr n) ↦ absurd (ground (arith, e, z, m, n))
            ]
    ]
  ]

  join_timeout-keeps :
      (p q : Pacemaker) (s t : Safety) (cmds : List PacemakerCommand)
      → join_timeout validators p s ≡ some (cmds, q, t)
      → q.high_certificate ≡ p.high_certificate
  unfolding join_timeout
  join_timeout-keeps p q s t cmds e = elim (Phase-cases p.phase) [
    | inr z ↦ ground (arith, e, z)
    | inl z ↦ elim (Outcome-cases (has_honest_vote validators (keys p.pending_timeouts))) [
      | inr (inl (x, m)) ↦ absurd (ground (arith, e, z, m))
      | inr (inr m) ↦ absurd (ground (arith, e, z, m))
      | inl (false, m) ↦ ground (arith, e, z, m)
      | inl (true, m) ↦ elim (Option-cases (local_timeout_round p s)) [
        | inl n ↦ absurd (ground (arith, e, z, m, n))
        | inr ((cs, u), n) ↦ ground (arith, e, z, m, n)
      ]
    ]
  ]

  entered_next :
      (q : Pacemaker) (round : Round) → TimesOut round q → get_current_round q ≡ add64 round 1
  unfolding get_current_round
  entered_next q round k =
      let (_, r, _, _) =
        new_timeout_certificate_lem bls k.epoch round k.timeouts mapping k.tc k.formed in
      ground (arith, k.entered_by, r)

  -- Processing a remote timeout either leaves the high certificate alone, or the node enters the next
  -- round by a timeout certificate of the timeout's round, its current one. This certificate is made of
  -- timeouts whose senders `has_super_majority_votes` counts as enough, and the new round starts without
  -- timeouts, without invalid senders and in the first phase.
  pub process_remote_timeout-TimesOut :
      (p q : Pacemaker) (s u : Safety) (author : NodeId) (t : Timeout)
      (cmds : List PacemakerCommand)
      → process_remote_timeout bls em validators mapping p s author t ≡ done (cmds, q, u)
      → (q.high_certificate ≡ p.high_certificate)
        ⊎ ((t.tm_info.round ≡ get_current_round p)
            × (get_current_round q ≡ add64 (get_current_round p) 1)
            × TimesOut t.tm_info.round q)
  unfolding process_remote_timeout
  process_remote_timeout-TimesOut p q s u author t cmds e =
      let w : Pacemaker = record p { pending_timeouts = insert author t p.pending_timeouts } in
      elim (Bool-cases (ltb t.tm_info.round (get_current_round p))) [
        | inl a ↦ inl (ground (arith, e, a))
        | inr a ↦ elim (Bool-cases (t.tm_info.round == get_current_round p)) [
          | inr b ↦ absurd (ground (arith, e, a, b))
          | inl b ↦ elim (Bool-cases (contains author p.invalid_timeout_senders)) [
            | inl c ↦ inl (ground (arith, e, a, b, c))
            | inr c ↦ elim (Option-cases (join_timeout validators w s)) [
              | inl n ↦ absurd (ground (arith, e, a, b, c, n))
              | inr ((cs, v, x), n) ↦
                  elim (settle-TimesOut t.tm_info.epoch t.tm_info.round
                    (suc (length v.pending_timeouts)) cs cmds v q x u
                    (ground (arith, e, a, b, c, n))) [
                      | inl k ↦ inl (k ∙ join_timeout-keeps w v s x cs n)
                      | inr k ↦
                          let r : t.tm_info.round ≡ get_current_round p = (==_iff _ _).0 b in
                          inr (r, entered_next q t.tm_info.round k ∙ ap (λ n. add64 n 1) r, k)
                    ]
            ]
          ]
        ]
      ]
