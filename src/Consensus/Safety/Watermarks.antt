-- ===== src/Consensus/Safety/Watermarks.antt =====
-- consensus/safety.go: every operation moves the watermarks forward only.
use monadbft_go.Base.{
  ◌≤◌, ◌<◌, ◌≡◌, ◌⊎◌, inl, inr, Bool, Option, some, [], ◌∷◌, ◌++◌, arith, Option-cases,
}
use monadbft_go.Types.{Round, BlockId}
use monadbft_go.Cstypes.Certs.{ConsensusTip, RoundCertificate}
use monadbft_go.Consensus.Safety.{
  Safety, process_certificate, vote, no_endorse, timeout, propose, recovery_request,
  handle_proposal, evict, merge,
}

-- The state `t` may follow `s`. The no-endorsement mark is a pair: it stays, or its round grows.
pub record Advances (s t : Safety) : Type 0 where
  pub votes : s.highest_vote ≤ t.highest_vote
  pub proposes : s.highest_propose ≤ t.highest_propose
  pub recovers : s.highest_recovery_request ≤ t.highest_recovery_request
  pub certifies : s.high_certificate_qc_round ≤ t.high_certificate_qc_round
  pub endorses :
      (t.highest_no_endorse ≡ s.highest_no_endorse)
      ⊎ (s.highest_no_endorse.round < t.highest_no_endorse.round)

-- One call that returned.
pub data Step (s t : Safety) : Type 0 where
  certified : (c : RoundCertificate) → t ≡ process_certificate s c → Step s t
  voted :
      (r : Round) (tc : Option BlockId) (tip : ConsensusTip) → vote s r tc tip ≡ some t → Step s t
  declined : (r : Round) (b : BlockId) → no_endorse s r b ≡ some t → Step s t
  timed_out : (r : Round) (with_vote : Bool) → timeout s r ≡ some (t, with_vote) → Step s t
  proposed : (r : Round) → propose s r ≡ some t → Step s t
  recovered : (r : Round) → recovery_request s r ≡ some t → Step s t
  handled : (r : Round) → handle_proposal s r ≡ some t → Step s t
  merged : (o : Safety) → t ≡ merge s o → Step s t

pub Advances-refl : (s : Safety) → Advances s s
Advances-refl s = ground arith

pub Advances-trans : (s t u : Safety) → Advances s t → Advances t u → Advances s u
Advances-trans s t u a b = ground arith

handle_proposal-Advances : (s t : Safety) (r : Round) → handle_proposal s r ≡ some t → Advances s t
unfolding handle_proposal
handle_proposal-Advances s t r e =
    elim (Option-cases (evict (r ∷ s.handled_proposals) (s.handled_proposals_order ++ (r ∷ [])))) [
      | inl x ↦ ground arith
      | inr ((h, o), x) ↦ ground arith
    ]

merge-Advances : (s o : Safety) → Advances s (merge s o)
unfolding merge
merge-Advances s o = ground arith

-- No operation on the safety state, a merge included, moves a watermark back.
pub Step-Advances : {s t : Safety} → Step s t → Advances s t
unfolding process_certificate vote no_endorse timeout propose recovery_request
Step-Advances (certified c e) = ground arith
Step-Advances (voted r tc tip e) = ground arith
Step-Advances (declined r b e) = ground arith
Step-Advances (timed_out r w e) = ground arith
Step-Advances (proposed r e) = ground arith
Step-Advances (recovered r e) = ground arith
Step-Advances {s} {t} (handled r e) = handle_proposal-Advances s t r e
Step-Advances {s} {t} (merged o e) = ground (arith, merge-Advances s o)
