-- ===== src/Consensus/Safety/Examples.antt =====
-- Concrete runs of the safety rules, and their theorems at these runs.
use monadbft_go.Base.{◌<◌, ◌≡◌, refl, ◌⊎◌, true, false, Option, none, some, [], ◌∷◌, arith}
use monadbft_go.Types.{Round, BlockId}
use monadbft_go.Cstypes.Certs.{ConsensusTip, ConsensusBlockHeader, from_qc, genesis_qc}
use monadbft_go.Consensus.Safety.{
  Safety, default_safety, vote, no_endorse, timeout, propose, recovery_request, handle_proposal,
  snapshot, is_safe_to_handle_proposal,
}
use monadbft_go.Consensus.Safety.Watermarks.{Advances, Step, Step-Advances, proposed}
use monadbft_go.Consensus.Safety.History.{
  here, next, Refuses, vote_once, timeout_closes_round, no_endorse_binds_vote,
}
use monadbft_go.Consensus.Safety.Restart.{
  restart, vote_once_across_restart, no_endorse_binds_vote_across_restart,
}
use monadbft_go.Consensus.Safety.Proposals.{IsCache, handle_proposal_lem}

-- A tip of a given round over the genesis certificate.
abbrev header_at : Round → ConsensusBlockHeader
header_at r = record {
  block_round = r;
  epoch = 1;
  qc = genesis_qc;
  author = 7;
  seq_num = 1;
  timestamp_ns = 10;
  round_signature = 0;
  delayed_execution_results = [];
  execution_inputs = [];
  block_body_id = 0;
  base_fee = 0;
  base_fee_trend = 0;
  base_fee_moment = 0;
}

abbrev tip_at : Round → ConsensusTip
tip_at r = record { block_header = header_at r; signature = 0; fresh_certificate = none }

abbrev start : Safety
start = record {
  maybe_high_tip = none;
  high_certificate_qc_round = 0;
  highest_vote = 0;
  highest_no_endorse = record { round = 0; tip = 0 };
  highest_propose = 0;
  highest_recovery_request = 0;
  handled_proposals = [];
  handled_proposals_order = [];
}

-- Voted at round 3, then proposed at round 5.
abbrev voted_at_3 : Safety
voted_at_3 = record start { highest_vote = 3; maybe_high_tip = some (tip_at 3) }

abbrev then_proposed : Safety
then_proposed = record voted_at_3 { highest_propose = 5 }

default_is_start : default_safety ≡ start
unfolding default_safety
default_is_start = refl

vote_3 : vote start 3 none (tip_at 3) ≡ some voted_at_3
unfolding vote
vote_3 = refl

propose_5 : Step voted_at_3 then_proposed
unfolding propose
propose_5 = proposed 5 refl

vote_once_example : Refuses then_proposed 2
vote_once_example =
    vote_once start voted_at_3 then_proposed 3 none (tip_at 3) vote_3 (next here propose_5) 2
      (omega arith)

abbrev timed_out_at_4 : Safety
timed_out_at_4 = record start { highest_vote = 4 }

timeout_4 : timeout start 4 ≡ some (timed_out_at_4, true)
unfolding timeout
timeout_4 = refl

timeout_closes_round_example : Refuses timed_out_at_4 4
timeout_closes_round_example =
    timeout_closes_round start timed_out_at_4 timed_out_at_4 4 true timeout_4 here 4 (omega arith)

abbrev declined_at_6 : Safety
declined_at_6 = record start { highest_no_endorse = record { round = 6; tip = 9 } }

no_endorse_6 : no_endorse start 6 9 ≡ some declined_at_6
unfolding no_endorse
no_endorse_6 = refl

abbrev voted_for_9 : Safety
voted_for_9 = record declined_at_6 { highest_vote = 6; maybe_high_tip = some (tip_at 6) }

vote_for_9 : vote declined_at_6 6 (some 9) (tip_at 6) ≡ some voted_for_9
unfolding vote
vote_for_9 = refl

-- Another tip, or none, is refused at that round.
vote_for_8 : vote declined_at_6 6 (some 8) (tip_at 6) ≡ none
unfolding vote
vote_for_8 = refl

no_endorse_binds_vote_example : ◌≡◌ {A = Option BlockId} (some 9) (some 9) ⊎ (6 < 6)
no_endorse_binds_vote_example =
    no_endorse_binds_vote start declined_at_6 declined_at_6 voted_for_9 6 9 (some 9) (tip_at 6)
      no_endorse_6 here vote_for_9

timeout_6 : timeout voted_for_9 6 ≡ some (voted_for_9, true)
unfolding timeout
timeout_6 = refl

abbrev proposed_at_5 : Safety
proposed_at_5 = record start { highest_propose = 5 }

five_proposed : propose start 5 ≡ some proposed_at_5
unfolding propose
five_proposed = refl

abbrev recovered_at_5 : Safety
recovered_at_5 = record start { highest_recovery_request = 5 }

five_recovered : recovery_request start 5 ≡ some recovered_at_5
unfolding recovery_request
five_recovered = refl

Step-Advances_example : Advances voted_at_3 then_proposed
Step-Advances_example = Step-Advances propose_5

vote_once_across_restart_example :
    Refuses (restart (from_qc genesis_qc) (some (snapshot then_proposed))) 3
vote_once_across_restart_example =
    vote_once_across_restart start voted_at_3 then_proposed
      (restart (from_qc genesis_qc) (some (snapshot then_proposed))) 3 none (tip_at 3)
      (from_qc genesis_qc) vote_3 (next here propose_5) here 3 (omega arith)

abbrev restarted : Safety
restarted = record start {
  highest_vote = 1;
  highest_no_endorse = record { round = 6; tip = 9 };
  highest_propose = 1;
  highest_recovery_request = 1;
}

restart_declined : restart (from_qc genesis_qc) (some (snapshot declined_at_6)) ≡ restarted
unfolding restart snapshot
restart_declined = refl

abbrev restarted_vote : Safety
restarted_vote = record restarted { highest_vote = 6; maybe_high_tip = some (tip_at 6) }

vote_restarted :
    vote (restart (from_qc genesis_qc) (some (snapshot declined_at_6))) 6 (some 9) (tip_at 6)
    ≡ some restarted_vote
unfolding vote restart snapshot
vote_restarted = refl

no_endorse_binds_vote_across_restart_example :
    ◌≡◌ {A = Option BlockId} (some 9) (some 9)
    ⊎ (6 < (restart (from_qc genesis_qc) (some (snapshot declined_at_6))).highest_no_endorse.round)
no_endorse_binds_vote_across_restart_example =
    no_endorse_binds_vote_across_restart start declined_at_6 declined_at_6
      (restart (from_qc genesis_qc) (some (snapshot declined_at_6))) restarted_vote 6 9 (some 9)
      (tip_at 6) (from_qc genesis_qc) no_endorse_6 here here vote_restarted

restarted_tip :
    (restart (from_qc genesis_qc) (some (snapshot voted_at_3))).maybe_high_tip ≡ some (tip_at 3)
unfolding restart snapshot
restarted_tip = refl

abbrev one_handled : Safety
one_handled = record start { handled_proposals = 4 ∷ []; handled_proposals_order = 4 ∷ [] }

one_handled-IsCache : IsCache (4 ∷ []) (4 ∷ [])
one_handled-IsCache = record {
  agrees = λ r. refl;
  sizes = refl;
  distinct = (refl, tt);
  ordered = (refl, tt);
  bounded = omega arith;
}

five_is_new : is_safe_to_handle_proposal one_handled 5 ≡ true
unfolding is_safe_to_handle_proposal
five_is_new = refl

handle_proposal_lem_example :
    (t : Safety) × (handle_proposal one_handled 5 ≡ some t)
    × IsCache t.handled_proposals t.handled_proposals_order
    × (is_safe_to_handle_proposal t 5 ≡ false)
    × (t.handled_proposals_order ≡ 4 ∷ 5 ∷ [])
handle_proposal_lem_example = handle_proposal_lem one_handled 5 one_handled-IsCache five_is_new
