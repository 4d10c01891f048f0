-- ===== src/Consensus/Safety/Restart.antt =====
-- consensus/safety.go and monadstate/state.go: a restart folds the stored watermarks over fresh ones.
use monadbft_go.Base.{
  ◌≤◌, ◌<◌, ◌≡◌, ◌⊎◌, inl, inr, false, ◌&&◌, Option, none, some, arith, Option-cases,
}
use monadbft_go.Types.{Round, BlockId}
use monadbft_go.Cstypes.Certs.{ConsensusTip, RoundCertificate}
use monadbft_go.Consensus.Safety.{
  Safety, SafetySnapshot, new_safety, snapshot, safety_from_snapshot, merge, vote, no_endorse,
  is_safe_to_vote, is_safe_to_no_endorse, is_safe_to_propose, is_safe_to_recovery_request,
}
use monadbft_go.Consensus.Safety.History.{Reach, Reach-Advances, Refuses, refuses}

-- NewConsensusState starts from the high certificate with no high tip; a stored snapshot is merged in.
unfoldable pub restart : RoundCertificate → Option SafetySnapshot → Safety
unfolding new_safety merge safety_from_snapshot
restart c none = new_safety c none
restart c (some snap) = merge (new_safety c none) (safety_from_snapshot snap)

-- What the restarted state `t` keeps of the stored state `s`. Where the fresh state begins at the very
-- round that was declined, it forgets the declined tip, but votes only above that round.
pub record Keeps (s t : Safety) : Type 0 where
  pub votes : s.highest_vote ≤ t.highest_vote
  pub proposes : s.highest_propose ≤ t.highest_propose
  pub recovers : s.highest_recovery_request ≤ t.highest_recovery_request
  pub certifies : s.high_certificate_qc_round ≤ t.high_certificate_qc_round
  pub declines : s.highest_no_endorse.round ≤ t.highest_no_endorse.round
  pub endorses :
      (t.highest_no_endorse ≡ s.highest_no_endorse)
      ⊎ (s.highest_no_endorse.round < t.highest_no_endorse.round)
      ⊎ (s.highest_no_endorse.round ≤ t.highest_vote)

restart-Keeps : (s : Safety) (c : RoundCertificate) → Keeps s (restart c (some (snapshot s)))
unfolding restart snapshot
restart-Keeps s c = ground arith

-- A node that voted, went on, stored its marks, crashed and restarted still never votes, declines or
-- proposes again up to the round of that vote.
pub vote_once_across_restart :
    (s t u w : Safety) (q : Round) (tc : Option BlockId) (tip : ConsensusTip) (c : RoundCertificate)
    → vote s q tc tip ≡ some t
    → Reach t u
    → Reach (restart c (some (snapshot u))) w
    → (r : Round) → r ≤ q
    → Refuses w r
unfolding vote
vote_once_across_restart s t u w q tc tip c e before after r le =
    refuses w r (ground (arith, Reach-Advances before, restart-Keeps u c, Reach-Advances after))

-- A node that declined a tip, stored its marks and restarted votes at that round only on top of a
-- timeout certificate for this tip, as long as it declined at no later round.
pub no_endorse_binds_vote_across_restart :
    (s t u w x : Safety) (q : Round) (b : BlockId) (tc : Option BlockId) (tip : ConsensusTip)
    (c : RoundCertificate)
    → no_endorse s q b ≡ some t
    → Reach t u
    → Reach (restart c (some (snapshot u))) w
    → vote w q tc tip ≡ some x
    → (tc ≡ some b) ⊎ (q < w.highest_no_endorse.round)
unfolding vote no_endorse
no_endorse_binds_vote_across_restart s t u w x q b none tip c e before after v =
    ground (arith, Reach-Advances before, restart-Keeps u c, Reach-Advances after)
no_endorse_binds_vote_across_restart s t u w x q b (some d) tip c e before after v =
    ground (arith, Reach-Advances before, restart-Keeps u c, Reach-Advances after)

-- What the merged state allows is what both sides allow: for declining, proposing and asking for a
-- recovery exactly, and a vote lies above the vote marks of both.
pub merge_allows :
    (s o : Safety) (r : Round) (tc : Option BlockId)
    → (is_safe_to_no_endorse (merge s o) r
        ≡ (is_safe_to_no_endorse s r && is_safe_to_no_endorse o r))
      × (is_safe_to_propose (merge s o) r ≡ (is_safe_to_propose s r && is_safe_to_propose o r))
      × (is_safe_to_recovery_request (merge s o) r
          ≡ (is_safe_to_recovery_request s r && is_safe_to_recovery_request o r))
      × ((is_safe_to_vote (merge s o) r tc ≡ false) ⊎ ((s.highest_vote < r) × (o.highest_vote < r)))
unfolding merge is_safe_to_no_endorse is_safe_to_propose is_safe_to_recovery_request is_safe_to_vote
merge_allows s o r tc = (ground arith, ground arith, ground arith, ground arith)

-- A high tip that survives the restart is the stored one, and outranks the certificate round.
pub restart_tip_is_fresh :
    (c : RoundCertificate) (snap : SafetySnapshot) (tip : ConsensusTip)
    → (restart c (some snap)).maybe_high_tip ≡ some tip
    → (snap.maybe_high_tip ≡ some tip)
      × ((restart c (some snap)).high_certificate_qc_round < tip.block_header.block_round)
unfolding restart
restart_tip_is_fresh c snap tip h = elim (Option-cases snap.maybe_high_tip) [
  | inl n ↦ absurd (ground arith)
  | inr (t, e) ↦ ground arith
]
