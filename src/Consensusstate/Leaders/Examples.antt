-- ===== src/Consensusstate/Leaders/Examples.antt =====
-- consensusstate/state.go: the leaders of three rounds to come.
use monadbft_go.Base.{
  ◌*◌, ◌+◌, ◌%◌, ◌^◌, ◌≡◌, ◌≢◌, ◌↔◌, refl, true, none, some, [], ◌∷◌, ◌==◌, if◌then◌else◌,
}
use monadbft_go.Base.Table.{lookup, nat_eq}
use monadbft_go.Base.Sets.{contains, IsDistinct}
use monadbft_go.Types.{Round, NodeId}
use monadbft_go.Cstypes.Certs.{Vote, QuorumCertificate, from_qc, genesis_qc}
use monadbft_go.BlockTree.{new}
use monadbft_go.Validator.ValidatorSet.{ValidatorSet}
use monadbft_go.Validator.EpochManager.{epoch_at}
use monadbft_go.Validator.EpochMapping.{get_val_set}
use monadbft_go.Consensus.Pacemaker.{get_current_round, phase_zero}
use monadbft_go.Consensusstate.State.{State}
use monadbft_go.Consensusstate.Leaders.{
  lookup_leader, leader_pairs, upcoming_leader_round_pairs, iter_future_other_leaders, others,
}
use monadbft_go.Consensusstate.Leaders.Upcoming.{Leads, iter_future_other_leaders_lem}

abbrev alternate : Round → ValidatorSet → NodeId
alternate r vs = if r == 8 then 1 else 2

abbrev vote_at : Round → Vote
vote_at r = record { id = r * 10; round = r; epoch = 1 }

abbrev qc_at : Round → QuorumCertificate
qc_at r = record genesis_qc { info = vote_at r }

-- Node 1 in round 6, with only the root in its tree.
abbrev node : State
node = record {
  consensus = record {
    pending_block_tree =
        new (record { round = 1; seq_num = 1; epoch = 1; block_id = 10; timestamp_ns = 0 });
    vote_state = record { rounds = []; earliest_round = 6 };
    no_endorsement_state = record { pending = []; earliest_round = 6 };
    scheduled_vote = none;
    safety = record {
      maybe_high_tip = none;
      high_certificate_qc_round = 4;
      highest_vote = 5;
      highest_no_endorse = record { round = 0; tip = 0 };
      highest_propose = 0;
      highest_recovery_request = 0;
      handled_proposals = [];
      handled_proposals_order = [];
    };
    pacemaker = record {
      delta = 100;
      vote_pace = (λ r. 0);
      local_processing = 7;
      current_epoch = 1;
      high_certificate = from_qc (qc_at 5);
      pending_timeouts = [];
      invalid_timeout_senders = [];
      phase = phase_zero;
    };
    block_sync_requests = [];
    canonical_proposed_tip = none;
    vote_delay_timer_start = none;
    vote_delay_samples = [];
  };
  epoch_manager = record {
    epoch_length = 50;
    epoch_start_delay = 10;
    epoch_starts = (1, 0) ∷ [];
    sorted = 1 ∷ [];
  };
  val_epoch_map = record {
    validator_map =
        (
          1,
          record {
            val_set = record { members = 1 ∷ []; stakes = (1, 1) ∷ []; total_stake = 1 };
            cert_pubkeys = record { node_ids = []; pubs = [] };
          },
        )
        ∷ [];
  };
  block_timestamp = record {
    local_time_ns = record { hi = 0; lo = 2000 };
    max_delta_ns = record { hi = 0; lo = 500 };
    latency_estimate_ns = record { hi = 0; lo = 1 };
  };
  node_id = 1;
}

one_other : iter_future_other_leaders alternate node ≡ some (2 ∷ [])
unfolding iter_future_other_leaders others upcoming_leader_round_pairs leader_pairs lookup_leader
    get_current_round epoch_at get_val_set lookup
one_other = refl

iter_future_other_leaders_lem_example :
    IsDistinct {K = NodeId} (2 ∷ [])
    × ((j : NodeId)
        → (contains j (2 ∷ []) ≡ true) ↔ (
            Leads alternate node 3 ((get_current_round node.consensus.pacemaker + 1) % 2 ^ 64) j
            × (j ≢ node.node_id)))
iter_future_other_leaders_lem_example =
    iter_future_other_leaders_lem alternate node (2 ∷ []) one_other
