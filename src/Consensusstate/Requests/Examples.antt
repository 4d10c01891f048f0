-- ===== src/Consensusstate/Requests/Examples.antt =====
-- consensusstate/state.go: a node whose tree lacks what its high certificate names.
use monadbft_go.Base.{◌*◌, ◌≡◌, refl, arith, none, some, List, [], ◌∷◌}
use monadbft_go.Base.Run.{done}
use monadbft_go.Base.Table.{nat_eq}
use monadbft_go.Types.{Round, BlockId}
use monadbft_go.Cstypes.Certs.{Vote, QuorumCertificate, ConsensusBlockHeader, from_qc, genesis_qc}
use monadbft_go.BlockTree.{new}
use monadbft_go.BlockTree.Invariant.{new-Inv}
use monadbft_go.Consensus.Safety.{Safety}
use monadbft_go.Consensus.Safety as SafetyRules
use monadbft_go.Consensus.Safety.History.{here, Refuses}
use monadbft_go.Consensus.Pacemaker.{
  get_current_round, phase_zero, phase_one, process_local_timeout, local_timeout_round,
}
use monadbft_go.Consensusstate.State.{State, ConsensusState, Command}
use monadbft_go.Consensusstate.Requests.{request_blocks_if_missing_ancestor, handle_timeout_expiry}
use monadbft_go.Consensusstate.Requests.Answers.{
  Asked, request_blocks_if_missing_ancestor_lem, handle_timeout_expiry-Refuses,
}

abbrev id_of : ConsensusBlockHeader → BlockId
id_of h = h.block_round * 10

abbrev vote_at : Round → Vote
vote_at r = record { id = r * 10; round = r; epoch = 1 }

abbrev qc_at : Round → QuorumCertificate
qc_at r = record genesis_qc { info = vote_at r }

-- Node 1 in round 6, with only the root in its tree.
abbrev node : State
node = record {
  consensus = record {
    pending_block_tree =
        new (record { round = 1; seq_num = 1; epoch = 1; block_id = 10; timestamp_ns = 0 });
    vote_state = record { rounds = []; earliest_round = 6 };
    no_endorsement_state = record { pending = []; earliest_round = 6 };
    scheduled_vote = none;
    safety = record {
      maybe_high_tip = none;
      high_certificate_qc_round = 4;
      highest_vote = 5;
      highest_no_endorse = record { round = 0; tip = 0 };
      highest_propose = 0;
      highest_recovery_request = 0;
      handled_proposals = [];
      handled_proposals_order = [];
    };
    pacemaker = record {
      delta = 100;
      vote_pace = (λ r. 0);
      local_processing = 7;
      current_epoch = 1;
      high_certificate = from_qc (qc_at 5);
      pending_timeouts = [];
      invalid_timeout_senders = [];
      phase = phase_zero;
    };
    block_sync_requests = [];
    canonical_proposed_tip = none;
    vote_delay_timer_start = none;
    vote_delay_samples = [];
  };
  epoch_manager = record {
    epoch_length = 50;
    epoch_start_delay = 10;
    epoch_starts = (1, 0) ∷ [];
    sorted = 1 ∷ [];
  };
  val_epoch_map = record {
    validator_map =
        (
          1,
          record {
            val_set = record { members = 1 ∷ []; stakes = (1, 1) ∷ []; total_stake = 1 };
            cert_pubkeys = record { node_ids = []; pubs = [] };
          },
        )
        ∷ [];
  };
  block_timestamp = record {
    local_time_ns = record { hi = 0; lo = 2000 };
    max_delta_ns = record { hi = 0; lo = 500 };
    latency_estimate_ns = record { hi = 0; lo = 1 };
  };
  node_id = 1;
}

request_blocks_if_missing_ancestor_lem_example :
    (cmds : List Command) × (d : ConsensusState) × (request_blocks_if_missing_ancestor
        node.consensus
      ≡ done (cmds, d))
    × Asked node.consensus cmds d
request_blocks_if_missing_ancestor_lem_example =
    request_blocks_if_missing_ancestor_lem id_of node.consensus (new-Inv id_of _)

abbrev timed_out : Safety
timed_out = record node.consensus.safety { highest_vote = 6 }

abbrev after : State
after = record node {
  consensus = record node.consensus {
    pacemaker = record node.consensus.pacemaker { phase = phase_one };
    safety = timed_out;
  };
}

expires : (cmds : List Command) × (handle_timeout_expiry node 6 ≡ some (cmds, after))
unfolding handle_timeout_expiry process_local_timeout local_timeout_round SafetyRules.timeout
    get_current_round
expires = (_, refl)

current_round : get_current_round node.consensus.pacemaker ≡ 6
unfolding get_current_round
current_round = refl

handle_timeout_expiry-Refuses_example : Refuses timed_out 4
handle_timeout_expiry-Refuses_example =
    handle_timeout_expiry-Refuses node after 6 expires.0 timed_out (omega (arith, current_round))
      expires.1 here 4 (omega (arith, current_round))
