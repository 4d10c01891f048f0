-- ===== src/Consensusstate/State.antt =====
-- consensusstate/state.go and consensusstate/command.go: the state of the consensus algorithm with what
-- the handlers read of its surroundings, and the commands that they return. A message that is published
-- is its content: the node's signatures on it are left out.
use monadbft_go.Base.{ℕ, Bool, Option, List, [], ◌∷◌, ◌++◌}
use monadbft_go.Types.{Round, Epoch, SeqNum, NodeId, BlockId, Signature}
use monadbft_go.Cstypes.Certs.{
  Vote, QuorumCertificate, TimeoutCertificate, TimeoutInfo, HighExtend, RoundCertificate,
  NoEndorsement, ConsensusTip, ConsensusBlockHeader, ConsensusFullBlock, BlockRange,
  FreshProposalCertificate, FinalizedHeader, cert_round,
}
use monadbft_go.BlockTree.{BlockTree}
use monadbft_go.Consensus.VoteState.{VoteState}
use monadbft_go.Consensus.NeState.{NoEndorsementState}
use monadbft_go.Consensus.Safety.{Safety}
use monadbft_go.Consensus.Pacemaker.{
  Pacemaker, PacemakerCommand, enter_round, prepare_timeout, schedule, schedule_reset,
}
use monadbft_go.Consensusstate.Timestamp.{BlockTimestamp, TimestampAdjustment}
use monadbft_go.Consensusstate.VoteDelay.{VoteDelayTimerStart, TimedVoteDelaySample}
use monadbft_go.Validator.EpochManager.{EpochManager}
use monadbft_go.Validator.EpochMapping.{ValidatorsEpochMapping}

pub data RouterTarget : Type 0 where
  broadcast : Epoch → RouterTarget
  raptorcast : Round → Epoch → RouterTarget
  point_to_point direct_point_to_point tcp_point_to_point : NodeId → RouterTarget

pub data FullnodeBroadcastMode : Type 0 where
  secondary_raptorcast fullnode_broadcast : FullnodeBroadcastMode

pub data ProtocolMessage : Type 0 where
  pm_proposal : Round → Epoch → ConsensusTip → List ℕ → Option TimeoutCertificate → ProtocolMessage
  pm_vote : Vote → ProtocolMessage
  pm_timeout : TimeoutInfo → HighExtend → Bool → Option RoundCertificate → ProtocolMessage
  pm_round_recovery : Round → Epoch → TimeoutCertificate → ProtocolMessage
  pm_no_endorsement : NoEndorsement → ProtocolMessage
  pm_advance_round : RoundCertificate → ProtocolMessage

pub data OptimisticPolicyCommit : Type 0 where
  commit_proposed : ConsensusFullBlock → Bool → OptimisticPolicyCommit
  commit_voted commit_finalized : ConsensusFullBlock → OptimisticPolicyCommit

pub record CreateProposal : Type 0 where
  pub node_id : NodeId
  pub epoch : Epoch
  pub round : Round
  pub seq_num : SeqNum
  pub high_qc : QuorumCertificate
  pub round_signature : Signature
  pub last_round_tc : Option TimeoutCertificate
  pub fresh_proposal_certificate : Option FreshProposalCertificate
  pub tx_limit : ℕ
  pub proposal_gas_limit : ℕ
  pub proposal_byte_limit : ℕ
  pub beneficiary : ℕ
  pub timestamp_ns : ℕ
  pub extending_blocks : List ConsensusFullBlock
  pub delayed_execution_results : List FinalizedHeader

pub data Command : Type 0 where
  cmd_enter_round : Epoch → Round → Command
  cmd_publish : RouterTarget → ProtocolMessage → Command
  cmd_publish_to_full_nodes : Epoch → Round → FullnodeBroadcastMode → ProtocolMessage → Command
  cmd_schedule : Round → ℕ → Command
  cmd_schedule_reset : Command
  cmd_create_proposal : CreateProposal → Command
  cmd_commit_blocks : OptimisticPolicyCommit → Command
  cmd_request_sync cmd_cancel_sync : BlockRange → Command
  cmd_request_state_sync : ConsensusBlockHeader → QuorumCertificate → Command
  cmd_timestamp_update : TimestampAdjustment → Command
  cmd_schedule_vote : ℕ → Round → Command

unfoldable pub from_pacemaker_command : PacemakerCommand → List Command
from_pacemaker_command (enter_round epoch round cert) =
    cmd_enter_round epoch round
    ∷ cmd_publish_to_full_nodes epoch (cert_round cert) fullnode_broadcast (pm_advance_round cert)
    ∷ []
from_pacemaker_command (prepare_timeout info extend safe_to_vote last_rc) =
    cmd_publish (broadcast info.epoch) (pm_timeout info extend safe_to_vote last_rc) ∷ []
from_pacemaker_command (schedule round duration) = cmd_schedule round duration ∷ []
from_pacemaker_command schedule_reset = cmd_schedule_reset ∷ []

unfoldable pub from_pacemaker_commands : List PacemakerCommand → List Command
unfolding from_pacemaker_command
from_pacemaker_commands [] = []
from_pacemaker_commands (c ∷ cs) = from_pacemaker_command c ++ from_pacemaker_commands cs

pub data OutgoingVoteStatus : Type 0 where
  vote_timer_fired : OutgoingVoteStatus
  vote_ready : Vote → OutgoingVoteStatus

pub record BlockSyncRequestStatus : Type 0 where
  pub block_range : BlockRange
  pub cancel_round : Round

pub record ConsensusState : Type 0 where
  pub pending_block_tree : BlockTree
  pub vote_state : VoteState
  pub no_endorsement_state : NoEndorsementState
  pub scheduled_vote : Option OutgoingVoteStatus
  pub safety : Safety
  pub pacemaker : Pacemaker
  pub block_sync_requests : List (BlockId × BlockSyncRequestStatus)
  pub canonical_proposed_tip : Option BlockId
  pub vote_delay_timer_start : Option VoteDelayTimerStart
  pub vote_delay_samples : List TimedVoteDelaySample

-- The consensus state with its epochs, validators, clock and identity. The leader election, the pace of
-- votes and the hash of a header are parameters of what reads them.
pub record State : Type 0 where
  pub consensus : ConsensusState
  pub epoch_manager : EpochManager
  pub val_epoch_map : ValidatorsEpochMapping
  pub block_timestamp : BlockTimestamp
  pub node_id : NodeId
