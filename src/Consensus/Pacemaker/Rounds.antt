-- ===== src/Consensus/Pacemaker/Rounds.antt =====
-- consensus/pacemaker.go: rounds only advance, and a timeout closes and justifies its round.
use monadbft_go.Base.{
  ◌≤◌, ◌<◌, ◌≡◌, ◌≢◌, ◌⊎◌, inl, inr, refl, sym, subst, ap, Option, none, some, List, [], leb, ltb,
  if◌then◌else◌, ◌==◌, add64, arith, Bool-cases, Option-cases,
}
use monadbft_go.Types.{Round, genesis_round}
use monadbft_go.Cstypes.Certs.{RoundCertificate, ConsensusTip, cert_round, cert_qc}
use monadbft_go.Cstypes.Rank.{rank, info_rank}
use monadbft_go.Validator.EpochManager.{EpochManager, epoch_at}
use monadbft_go.Consensus.Safety.{Safety}
use monadbft_go.Consensus.Safety as SafetyRules
use monadbft_go.Consensus.Safety.History.{Reach, Refuses, timeout_closes_round}
use monadbft_go.Consensus.Pacemaker.{
  Pacemaker, PacemakerCommand, get_current_round, entered, advance, extend, extend_qc_round,
  timeout_info, last_round_certificate, local_timeout_round, process_local_timeout,
}

-- The safety state has seen the certificate that the pacemaker holds, and holds no tip that this or
-- another certificate it has seen has overtaken.
pub record Fresh (p : Pacemaker) (s : Safety) : Type 0 where
  pub seen : (cert_qc p.high_certificate).info.round ≤ s.high_certificate_qc_round
  pub ahead :
      (tip : ConsensusTip)
      → s.maybe_high_tip ≡ some tip
      → s.high_certificate_qc_round < tip.block_header.block_round

-- The marks of what the node has signed are as before, and its tip, if it still holds one.
abbrev pub SameMarks : Safety → Safety → Type 0
SameMarks s t =
    (t.highest_vote ≡ s.highest_vote)
    × (t.highest_no_endorse ≡ s.highest_no_endorse)
    × (t.highest_propose ≡ s.highest_propose)
    × (t.highest_recovery_request ≡ s.highest_recovery_request)
    × ((t.maybe_high_tip ≡ none) ⊎ (t.maybe_high_tip ≡ s.maybe_high_tip))

drop_stale_lem :
    (o : Option ConsensusTip) (r : Round)
    → ((tip : ConsensusTip)
        → SafetyRules.drop_stale o r ≡ some tip
        → r < tip.block_header.block_round)
      × ((SafetyRules.drop_stale o r ≡ none) ⊎ (SafetyRules.drop_stale o r ≡ o))
drop_stale_lem none r = (λ tip e. absurd cc, inl refl)
drop_stale_lem (some t) r = elim (Bool-cases (leb t.block_header.block_round r)) [
  | inl q ↦ (λ tip e. absurd (ground (arith, q, e)), inl (ground (arith, q)))
  | inr q ↦ (λ tip e. ground (arith, q, e), inr (ground (arith, q)))
]

process_certificate-Fresh :
    (p : Pacemaker) (s : Safety) (c : RoundCertificate)
    → p.high_certificate ≡ c
    → Fresh p (SafetyRules.process_certificate s c)
      × SameMarks s (SafetyRules.process_certificate s c)
unfolding SafetyRules.process_certificate
process_certificate-Fresh p s c e =
    let r = (cert_qc c).info.round in
    let high = if ltb s.high_certificate_qc_round r then r else s.high_certificate_qc_round in
    let (ahead, kept) = drop_stale_lem s.maybe_high_tip high in
    let same = ap (λ x. (cert_qc x).info.round) e in
    let le : r ≤ high = ground arith in
    (record { seen = omega (arith, same, le); ahead = ahead }, (refl, refl, refl, refl, kept))

-- Processing a certificate, where it returns, leaves the pacemaker holding one at least as new, and the
-- safety state in step with it: where the safety state had seen the certificate held before and its tip
-- was ahead of that, it has now seen the one held now, and a tip it still holds is ahead of every
-- certificate seen. A certificate that is not newer changes nothing. A newer one is held from now on,
-- in the epoch of the round that it opens, with the round's timeouts forgotten, and moves no mark of what
-- the node has signed.
pub advance_lem :
    (em : EpochManager) (p q : Pacemaker) (s t : Safety) (c : RoundCertificate)
    (cmds : List PacemakerCommand)
    → Fresh p s
    → advance em p s c ≡ some (cmds, q, t)
    → Fresh q t
      × (cert_round c ≤ cert_round q.high_certificate)
      × (((cert_round c ≤ cert_round p.high_certificate) × (q ≡ p) × (t ≡ s) × (cmds ≡ []))
          ⊎ ((cert_round p.high_certificate < cert_round c)
              × (q.high_certificate ≡ c)
              × (epoch_at em (get_current_round q) ≡ some q.current_epoch)
              × (q.pending_timeouts ≡ [])
              × (q.invalid_timeout_senders ≡ [])
              × SameMarks s t))
unfolding advance entered get_current_round
advance_lem em p q s t c cmds f h =
    elim (Bool-cases (leb (cert_round c) (cert_round p.high_certificate))) [
      | inl e ↦
          let eq : q ≡ p = ground (arith, h, e) in
          let et : t ≡ s = ground (arith, h, e) in
          (
            subst (λ x. Fresh x t) (sym eq) (subst (Fresh p) (sym et) f),
            ground (arith, e, ap (λ (x : Pacemaker). cert_round x.high_certificate) eq),
            inl (ground (arith, h, e)),
          )
      | inr e ↦ elim (Option-cases (epoch_at em (add64 (cert_round c) 1))) [
        | inl n ↦ absurd (ground (arith, h, e, n))
        | inr (epoch, n) ↦
            let (eq, et) : (q ≡ entered p epoch c) × (t ≡ SafetyRules.process_certificate s c) =
              ground (arith, h, e, n) in
            let high = ap (λ (x : Pacemaker). x.high_certificate) eq in
            let (g, m) = process_certificate-Fresh q s c high in
            (
              subst (Fresh q) (sym et) g,
              omega (arith, ap cert_round high),
              inr (
                ground (arith, e),
                high,
                ground (arith, eq, n),
                ap (λ (x : Pacemaker). x.pending_timeouts) eq,
                ap (λ (x : Pacemaker). x.invalid_timeout_senders) eq,
                subst (SameMarks s) (sym et) m,
              ),
            )
      ]
    ]

-- After a local timeout the node never again votes, declines or proposes in the round or below it.
pub local_timeout_closes_round :
    (p q : Pacemaker) (s t u : Safety) (cmds : List PacemakerCommand)
    → process_local_timeout p s ≡ some (cmds, q, t)
    → Reach t u
    → (r : Round) → r ≤ get_current_round p
    → Refuses u r
unfolding process_local_timeout local_timeout_round
local_timeout_closes_round p q s t u cmds h reach r le =
    elim (Option-cases (SafetyRules.timeout s (get_current_round p))) [
      | inl n ↦ absurd (ground (arith, h, n))
      | inr ((x, safe), n) ↦
          timeout_closes_round s t u (get_current_round p) safe (ground (arith, h, n)) reach r le
    ]

-- The timeout that is signed ranks as the tip or certificate that it carries, unless the tip were of
-- the genesis round.
pub info_rank-timeout_info :
    (p : Pacemaker) (s : Safety)
    → ((tip : ConsensusTip)
        → s.maybe_high_tip ≡ some tip
        → tip.block_header.block_round ≢ genesis_round)
    → info_rank (timeout_info p s) ≡ rank (extend p s)
unfolding info_rank timeout_info rank extend
info_rank-timeout_info p s h = elim (Option-cases s.maybe_high_tip) [
  | inl n ↦ ground (arith, n)
  | inr (tip, n) ↦ ground (arith, n, h tip n)
]

-- A timeout shows why its round was entered: a certificate of the round before goes along, either
-- inside what it extends or as the last round's certificate.
pub timeout_justifies_round :
    (p : Pacemaker) (s : Safety)
    → ((last_round_certificate p (extend p s) ≡ none)
        × (add64 (extend_qc_round (extend p s)) 1 ≡ (timeout_info p s).round))
      ⊎ ((c : RoundCertificate) × (last_round_certificate p (extend p s) ≡ some c)
          × (add64 (cert_round c) 1 ≡ (timeout_info p s).round))
unfolding last_round_certificate timeout_info get_current_round
timeout_justifies_round p s =
    elim (Bool-cases (add64 (extend_qc_round (extend p s)) 1 == get_current_round p)) [
      | inl e ↦ inl (ground (arith, e))
      | inr e ↦ inr (p.high_certificate, ground (arith, e), refl)
    ]
