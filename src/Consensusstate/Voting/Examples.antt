-- ===== src/Consensusstate/Voting/Examples.antt =====
-- consensusstate/state.go: a vote waits for its timer, and the next round's vote leaves at once.
use monadbft_go.Base.{ℕ, ◌*◌, ◌<◌, ◌≡◌, refl, arith, true, Option, none, some, List, [], ◌∷◌, All}
use monadbft_go.Base.Table.{lookup, nat_eq}
use monadbft_go.Types.{Round, NodeId, BlockId}
use monadbft_go.Types.U128.{is_below, checked_sub, u128_saturating_sub, abs_diff, u128_add}
use monadbft_go.Cstypes.Certs.{
  Vote, QuorumCertificate, ConsensusTip, ConsensusBlockHeader, from_qc, genesis_qc,
}
use monadbft_go.BlockTree.{BlockTree, coherent}
use monadbft_go.BlockTree.Queries.{get_timestamp_of_qc, get_block_round_of_qc}
use monadbft_go.Validator.ValidatorSet.{ValidatorSet}
use monadbft_go.Validator.EpochManager.{epoch_at}
use monadbft_go.Validator.EpochMapping.{get_val_set}
use monadbft_go.Consensus.Safety.{is_safe_to_vote}
use monadbft_go.Consensus.Safety as SafetyRules
use monadbft_go.Consensus.Pacemaker.{get_current_round, phase_zero}
use monadbft_go.Consensusstate.Timestamp.{valid_block_timestamp, valid_bounds}
use monadbft_go.Consensusstate.VoteDelay.{
  ns_to_ms, prune_from, prune, record_ready_after_timer_start,
}
use monadbft_go.Consensusstate.State.{
  State, Command, cmd_publish, cmd_schedule_vote, point_to_point, pm_vote, OutgoingVoteStatus,
  vote_timer_fired, vote_ready,
}
use monadbft_go.Consensusstate.Leaders.{lookup_leader}
use monadbft_go.Consensusstate.Voting.{
  maybe_record_vote_delay, last_round_tc_tip, send_vote_and_reset_timer, handle_vote_timer,
  dispatch_vote, approve_vote, try_vote,
}
use monadbft_go.Consensusstate.Voting.Once.{published_votes}
use monadbft_go.Consensusstate.Voting.Order.{timed, tried, here, next, votes_in_order}

abbrev id_of : ConsensusBlockHeader → BlockId
id_of h = h.block_round * 10

abbrev leader_1 : Round → ValidatorSet → NodeId
leader_1 r vs = 1

abbrev no_pace : Round → ℕ
no_pace r = 0

abbrev vote_at : Round → Vote
vote_at r = record { id = r * 10; round = r; epoch = 1 }

abbrev qc_at : Round → QuorumCertificate
qc_at r = record genesis_qc { info = vote_at r }

abbrev header_6 : ConsensusBlockHeader
header_6 = record {
  block_round = 6;
  epoch = 1;
  qc = qc_at 5;
  author = 1;
  seq_num = 6;
  timestamp_ns = 2000;
  round_signature = 0;
  delayed_execution_results = [];
  execution_inputs = [];
  block_body_id = 0;
  base_fee = 0;
  base_fee_trend = 0;
  base_fee_moment = 0;
}

abbrev tip_6 : ConsensusTip
tip_6 = record { block_header = header_6; signature = 0; fresh_certificate = none }

abbrev tree : BlockTree
tree = record {
  root = record { round = 5; seq_num = 5; epoch = 1; block_id = 50; timestamp_ns = 1000 };
  root_kids = 60 ∷ [];
  tree =
      (
        60,
        record {
          validated_block = record { header = header_6; body = [] };
          is_coherent = true;
          children_blocks = [];
        },
      )
      ∷ [];
  payloads = [];
}

-- Node 1 in round `round`, with a high vote of `high` and this vote waiting.
abbrev node : Round → Round → Option OutgoingVoteStatus → State
node round high waiting = record {
  consensus = record {
    pending_block_tree = tree;
    vote_state = record { rounds = []; earliest_round = round };
    no_endorsement_state = record { pending = []; earliest_round = round };
    scheduled_vote = waiting;
    safety = record {
      maybe_high_tip = none;
      high_certificate_qc_round = 4;
      highest_vote = high;
      highest_no_endorse = record { round = 0; tip = 0 };
      highest_propose = 0;
      highest_recovery_request = 0;
      handled_proposals = [];
      handled_proposals_order = [];
    };
    pacemaker = record {
      delta = 100;
      vote_pace = no_pace;
      local_processing = 7;
      current_epoch = 1;
      high_certificate = from_qc (qc_at 5);
      pending_timeouts = [];
      invalid_timeout_senders = [];
      phase = phase_zero;
    };
    block_sync_requests = [];
    canonical_proposed_tip = none;
    vote_delay_timer_start = none;
    vote_delay_samples = [];
  };
  epoch_manager = record {
    epoch_length = 50;
    epoch_start_delay = 10;
    epoch_starts = (1, 0) ∷ [];
    sorted = 1 ∷ [];
  };
  val_epoch_map = record {
    validator_map =
        (
          1,
          record {
            val_set = record { members = 1 ∷ []; stakes = (1, 1) ∷ []; total_stake = 1 };
            cert_pubkeys = record { node_ids = []; pubs = [] };
          },
        )
        ∷ [];
  };
  block_timestamp = record {
    local_time_ns = record { hi = 0; lo = 2000 };
    max_delta_ns = record { hi = 0; lo = 500 };
    latency_estimate_ns = record { hi = 0; lo = 1 };
  };
  node_id = 1;
}

abbrev with_timer : State → Round → State
with_timer s r = record s {
  consensus = record s.consensus {
    vote_delay_timer_start = some (record { round = r; started_at_ms = 0 });
  };
}

abbrev sends : Round → Round → List Command
sends r after =
    cmd_publish (point_to_point 1) (pm_vote (vote_at r)) ∷ cmd_schedule_vote 0 after ∷ []

-- Round 5's vote leaves by its timer.
five_leaves :
    handle_vote_timer id_of leader_1 no_pace (node 6 5 (some (vote_ready (vote_at 5))))
    ≡ some (sends 5 6, with_timer (node 6 5 none) 6)
unfolding handle_vote_timer send_vote_and_reset_timer lookup_leader epoch_at get_val_set lookup
    ns_to_ms
five_leaves = refl

-- The timer of round 6 fires before its proposal.
six_fires :
    handle_vote_timer id_of leader_1 no_pace (with_timer (node 6 5 none) 6)
    ≡ some ([], with_timer (node 6 5 (some vote_timer_fired)) 6)
unfolding handle_vote_timer
six_fires = refl

abbrev voted_6 : State
voted_6 =
    let s = with_timer (node 6 6 none) 7 in
    record s {
      consensus = record s.consensus {
        vote_delay_samples = record { recorded_at_ms = 0; ready_after_timer_start_ms = 0 } ∷ [];
        safety = record s.consensus.safety { maybe_high_tip = some tip_6 };
      };
    }

six_leaves :
    try_vote id_of leader_1 no_pace (with_timer (node 6 5 (some vote_timer_fired)) 6) none tip_6
    ≡ some (sends 6 7, voted_6)
unfolding try_vote approve_vote dispatch_vote send_vote_and_reset_timer maybe_record_vote_delay
    last_round_tc_tip lookup_leader epoch_at get_val_set lookup ns_to_ms prune prune_from
    record_ready_after_timer_start coherent get_timestamp_of_qc get_block_round_of_qc
    valid_block_timestamp valid_bounds is_below checked_sub u128_saturating_sub abs_diff u128_add
    is_safe_to_vote SafetyRules.vote get_current_round
six_leaves = refl

votes_in_order_example :
    All
      (λ a. All (λ b. a.round < b.round) (published_votes (sends 6 7)))
      (published_votes (sends 5 6))
votes_in_order_example =
    votes_in_order id_of leader_1 no_pace
      (record { recorded = omega arith; waiting = (omega arith, omega arith) }) (timed five_leaves)
      (next [] here (timed six_fires)) (tried none tip_6 six_leaves)
