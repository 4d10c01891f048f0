-- ===== src/Consensus/Safety.antt =====
-- consensus/safety.go: the watermarks that stop a node from signing twice. A panic is `none`.
pub mod Watermarks
pub mod History
pub mod Restart
pub mod Proposals
mod Examples
use monadbft_go.Base.{
  ℕ, zero, suc, ◌≡◌, Bool, true, false, not, ◌&&◌, ◌||◌, Option, none, some, List, [], ◌∷◌, ◌++◌,
  length, ltb, leb, ◌==◌, if◌then◌else◌, add64,
}
use monadbft_go.Base.Table.{nat_eq}
use monadbft_go.Base.Sets.{contains, erase}
use monadbft_go.Types.{Round, BlockId, genesis_round, genesis_block_id}
use monadbft_go.Cstypes.Certs.{ConsensusTip, RoundCertificate, cert_round, cert_qc}

abbrev pub handled_proposal_cache_size : ℕ
handled_proposal_cache_size = 100

pub record HighNoEndorse : Type 0 where
  pub round : Round
  pub tip : BlockId

-- `handled_proposals` is the key set of the source's map.
pub record Safety : Type 0 where
  pub maybe_high_tip : Option ConsensusTip
  pub high_certificate_qc_round : Round
  pub highest_vote : Round
  pub highest_no_endorse : HighNoEndorse
  pub highest_propose : Round
  pub highest_recovery_request : Round
  pub handled_proposals : List Round
  pub handled_proposals_order : List Round

pub new_safety : RoundCertificate → Option ConsensusTip → Safety
new_safety high_certificate maybe_high_tip =
    let current_round = add64 (cert_round high_certificate) 1 in
    record {
      maybe_high_tip = maybe_high_tip;
      high_certificate_qc_round = (cert_qc high_certificate).info.round;
      highest_vote = current_round;
      highest_no_endorse = record { round = current_round; tip = genesis_block_id };
      highest_propose = current_round;
      highest_recovery_request = current_round;
      handled_proposals = [];
      handled_proposals_order = [];
    }

pub default_safety : Safety
default_safety = record {
  maybe_high_tip = none;
  high_certificate_qc_round = genesis_round;
  highest_vote = genesis_round;
  highest_no_endorse = record { round = genesis_round; tip = genesis_block_id };
  highest_propose = genesis_round;
  highest_recovery_request = genesis_round;
  handled_proposals = [];
  handled_proposals_order = [];
}

-- A high tip that the certificate round has reached is dropped.
abbrev pub drop_stale : Option ConsensusTip → Round → Option ConsensusTip
drop_stale none r = none
drop_stale (some t) r = if leb t.block_header.block_round r then none else some t

unfoldable pub process_certificate : Safety → RoundCertificate → Safety
process_certificate s cert =
    let r = (cert_qc cert).info.round in
    let high = if ltb s.high_certificate_qc_round r then r else s.high_certificate_qc_round in
    record s { high_certificate_qc_round = high; maybe_high_tip = drop_stale s.maybe_high_tip high }

-- lastRoundTcTip is nil, or points to a block id.
abbrev differs : Option BlockId → BlockId → Bool
differs none b = true
differs (some a) b = not (a == b)

unfoldable pub is_safe_to_vote : Safety → Round → Option BlockId → Bool
is_safe_to_vote s round last_round_tc_tip =
    if round == s.highest_no_endorse.round && differs last_round_tc_tip s.highest_no_endorse.tip
    then false
    else ltb s.highest_vote round

unfoldable pub vote : Safety → Round → Option BlockId → ConsensusTip → Option Safety
unfolding is_safe_to_vote
vote s round last_round_tc_tip tip =
    if not (is_safe_to_vote s round last_round_tc_tip)
    then none
    else some (record s {
      highest_vote = round;
      maybe_high_tip =
          if ltb s.high_certificate_qc_round tip.block_header.block_round then some tip else none;
    })

abbrev max_round : Round → Round → Round
max_round m r = if ltb m r then r else m

pub is_safe_to_no_endorse : Safety → Round → Bool
is_safe_to_no_endorse s round = ltb (max_round s.highest_no_endorse.round s.highest_vote) round

pub no_endorse : Safety → Round → BlockId → Option Safety
unfolding is_safe_to_no_endorse
no_endorse s round tip =
    if not (is_safe_to_no_endorse s round)
    then none
    else some (record s { highest_no_endorse = record { round = round; tip = tip } })

abbrev high_tip_at : Option ConsensusTip → Round → Bool
high_tip_at none r = false
high_tip_at (some t) r = t.block_header.block_round == r

-- The flag says whether the timeout of the round may carry a vote for the high tip.
unfoldable pub timeout : Safety → Round → Option (Safety × Bool)
timeout s round =
    if ltb round s.highest_vote
    then none
    else some (
      record s { highest_vote = round },
      ltb s.highest_no_endorse.round round || high_tip_at s.maybe_high_tip round,
    )

pub is_safe_to_propose : Safety → Round → Bool
is_safe_to_propose s round = ltb (max_round s.highest_propose s.highest_vote) round

pub propose : Safety → Round → Option Safety
unfolding is_safe_to_propose
propose s round =
    if not (is_safe_to_propose s round) then none else some (record s { highest_propose = round })

pub is_safe_to_recovery_request : Safety → Round → Bool
is_safe_to_recovery_request s round = ltb s.highest_recovery_request round

pub recovery_request : Safety → Round → Option Safety
unfolding is_safe_to_recovery_request
recovery_request s round =
    if not (is_safe_to_recovery_request s round)
    then none
    else some (record s { highest_recovery_request = round })

pub is_safe_to_handle_proposal : Safety → Round → Bool
is_safe_to_handle_proposal s round = not (contains round s.handled_proposals)

-- `for len(handled) > cacheSize`: evict the oldest. An index into an empty order panics.
pub evict : List Round → List Round → Option (List Round × List Round)
evict handled [] =
    if ltb handled_proposal_cache_size (length handled) then none else some (handled, [])
evict handled (oldest ∷ order) =
    let rest = evict (erase oldest handled) order in
    if ltb handled_proposal_cache_size (length handled)
    then rest
    else some (handled, oldest ∷ order)

pub handle_proposal : Safety → Round → Option Safety
unfolding is_safe_to_handle_proposal
handle_proposal s round =
    if not (is_safe_to_handle_proposal s round)
    then none
    else elim (evict (round ∷ s.handled_proposals) (s.handled_proposals_order ++ (round ∷ []))) [
      | none ↦ none
      | some (handled, order) ↦
          some (record s { handled_proposals = handled; handled_proposals_order = order })
    ]

-- The durable copy of the watermarks.
pub record SafetySnapshot : Type 0 where
  pub maybe_high_tip : Option ConsensusTip
  pub high_certificate_qc_round : Round
  pub highest_vote : Round
  pub highest_no_endorse_round : Round
  pub highest_no_endorse_tip : BlockId
  pub highest_propose : Round
  pub highest_recovery_request : Round

pub snapshot : Safety → SafetySnapshot
snapshot s = record {
  maybe_high_tip = s.maybe_high_tip;
  high_certificate_qc_round = s.high_certificate_qc_round;
  highest_vote = s.highest_vote;
  highest_no_endorse_round = s.highest_no_endorse.round;
  highest_no_endorse_tip = s.highest_no_endorse.tip;
  highest_propose = s.highest_propose;
  highest_recovery_request = s.highest_recovery_request;
}

pub safety_from_snapshot : SafetySnapshot → Safety
safety_from_snapshot snap = record {
  maybe_high_tip = snap.maybe_high_tip;
  high_certificate_qc_round = snap.high_certificate_qc_round;
  highest_vote = snap.highest_vote;
  highest_no_endorse = record {
    round = snap.highest_no_endorse_round;
    tip = snap.highest_no_endorse_tip;
  };
  highest_propose = snap.highest_propose;
  highest_recovery_request = snap.highest_recovery_request;
  handled_proposals = [];
  handled_proposals_order = [];
}

-- The other side's tip wins only above the merged certificate round and above the own tip.
abbrev merge_tip : Option ConsensusTip → Option ConsensusTip → Round → Option ConsensusTip
merge_tip own none high = own
merge_tip none (some t) high = if ltb high t.block_header.block_round then some t else none
merge_tip (some u) (some t) high =
    if ltb high t.block_header.block_round
      && ltb u.block_header.block_round t.block_header.block_round
    then some t
    else some u

pub merge : Safety → Safety → Safety
merge s o =
    let high = max_round s.high_certificate_qc_round o.high_certificate_qc_round in
    record s {
      high_certificate_qc_round = high;
      highest_vote = max_round s.highest_vote o.highest_vote;
      highest_no_endorse =
          if ltb s.highest_no_endorse.round o.highest_no_endorse.round
          then o.highest_no_endorse
          else s.highest_no_endorse;
      highest_propose = max_round s.highest_propose o.highest_propose;
      highest_recovery_request = max_round s.highest_recovery_request o.highest_recovery_request;
      maybe_high_tip = merge_tip s.maybe_high_tip o.maybe_high_tip high;
    }
