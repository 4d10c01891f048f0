-- ===== src/Consensusstate/Voting.antt =====
-- consensusstate/state.go: when the node votes, and when its vote leaves. A panic is `none`. Counters are
-- left out.
pub mod Once
pub mod Order
mod Examples
use monadbft_go.Base.{
  ℕ, ◌-◌, ◌/◌, ◌%◌, ◌^◌, Bool, true, false, not, ◌&&◌, ◌||◌, Option, none, some, List, [], ◌∷◌,
  ◌++◌, leb, ◌==◌, if◌then◌else◌, add64,
}
use monadbft_go.Types.{Round, NodeId, BlockId}
use monadbft_go.Types.U128.{U128}
use monadbft_go.Cstypes.Certs.{
  Vote, TimeoutCertificate, ConsensusTip, ConsensusBlockHeader, HighExtend,
}
use monadbft_go.BlockTree.{coherent}
use monadbft_go.BlockTree.Queries.{get_timestamp_of_qc, get_block_round_of_qc}
use monadbft_go.Validator.ValidatorSet.{ValidatorSet}
use monadbft_go.Consensus.Safety.{Safety, is_safe_to_vote}
use monadbft_go.Consensus.Safety as SafetyRules
use monadbft_go.Consensus.Pacemaker.{get_current_round}
use monadbft_go.Consensusstate.Timestamp.{valid_block_timestamp}
use monadbft_go.Consensusstate.VoteDelay.{
  ns_to_ms, min_u64, record_ready_after_timer_start, VoteDelayTimerStart,
}
use monadbft_go.Consensusstate.State.{
  State, ConsensusState, Command, cmd_publish, cmd_schedule_vote, point_to_point, pm_vote,
  OutgoingVoteStatus, vote_timer_fired, vote_ready,
}
use monadbft_go.Consensusstate.Leaders.{lookup_leader}

abbrev pub u128_of : ℕ → U128
u128_of n = record { hi = n / 2 ^ 64; lo = n % 2 ^ 64 }

-- maybeRecordVoteDelayMetrics.
unfoldable pub maybe_record_vote_delay : State → Round → Round → State
maybe_record_vote_delay s proposal_round parent_round = elim s.consensus.vote_delay_timer_start [
  | none ↦ s
  | some timer ↦
      if not (timer.round == proposal_round) || not (add64 parent_round 1 == proposal_round)
      then s
      else (let now = ns_to_ms s.block_timestamp.local_time_ns in
          record s {
            consensus = record s.consensus {
              vote_delay_samples =
                  record_ready_after_timer_start now (now - min_u64 now timer.started_at_ms)
                    s.consensus.vote_delay_samples;
            };
          })
]

-- The tip that the certificate of the last round extends.
unfoldable pub last_round_tc_tip :
    (ConsensusBlockHeader → BlockId) → Option TimeoutCertificate → Option BlockId
last_round_tc_tip get_id none = none
last_round_tc_tip get_id (some tc) = elim tc.high_extend [
  | HighExtend.tip t ↦ some (get_id t.block_header)
  | HighExtend.qc _ ↦ none
]

-- The hash of a header, the leader election and the pace of votes are parameters.
module _ (get_id : ConsensusBlockHeader → BlockId) (get_leader : Round → ValidatorSet → NodeId)
    (vote_pace : Round → ℕ) where
  -- sendVoteAndResetTimer.
  unfoldable pub send_vote_and_reset_timer : State → Vote → Option (List Command × State)
  send_vote_and_reset_timer s v = elim (lookup_leader get_leader s (add64 v.round 1)) [
    | none ↦ none
    | some next ↦ elim (lookup_leader get_leader s v.round) [
      | none ↦ none
      | some current ↦ some (
        (cmd_publish (point_to_point next) (pm_vote v) ∷ [])
            ++ ((if current == next
                  then []
                  else cmd_publish (point_to_point current) (pm_vote v) ∷ [])
                ++ (cmd_schedule_vote (vote_pace (add64 v.round 1)) (add64 v.round 1) ∷ [])),
        record s {
          consensus = record s.consensus {
            vote_delay_timer_start = some (record {
              round = add64 v.round 1;
              started_at_ms = ns_to_ms s.block_timestamp.local_time_ns;
            });
            scheduled_vote = none;
          };
        },
      )
    ]
  ]

  unfoldable pub handle_vote_timer : State → Option (List Command × State)
  unfolding send_vote_and_reset_timer
  handle_vote_timer s = elim s.consensus.scheduled_vote [
    | some (vote_ready v) ↦ send_vote_and_reset_timer s v
    | _ ↦
        some (
          [],
          record s { consensus = record s.consensus { scheduled_vote = some vote_timer_fired } },
        )
  ]

  -- The end of tryVote: the vote leaves, or waits for its timer.
  unfoldable pub dispatch_vote : State → Vote → Round → Option (List Command × State)
  unfolding send_vote_and_reset_timer
  dispatch_vote s v parent_round =
      let sent = send_vote_and_reset_timer s v in
      let kept : Option (List Command × State) = some (
        [],
        record s { consensus = record s.consensus { scheduled_vote = some (vote_ready v) } },
      ) in
      let either = if add64 parent_round 1 == v.round then kept else sent in
      elim s.consensus.scheduled_vote [
        | some vote_timer_fired ↦ sent
        | some (vote_ready w) ↦ if leb v.round w.round then none else either
        | none ↦ either
      ]

  -- The safety state approves and records the vote.
  unfoldable pub approve_vote :
      State → Option BlockId → ConsensusTip → Round → Option (List Command × State)
  unfolding maybe_record_vote_delay dispatch_vote
  approve_vote s tc_tip tip parent_round =
      let round = get_current_round s.consensus.pacemaker in
      if not (is_safe_to_vote s.consensus.safety round tc_tip)
      then some ([], s)
      else elim (SafetyRules.vote s.consensus.safety round tc_tip tip) [
        | none ↦ none
        | some safety ↦
            dispatch_vote
              (maybe_record_vote_delay
                (record s { consensus = record s.consensus { safety = safety } }) round
                parent_round)
              (record {
                id = get_id tip.block_header;
                round = round;
                epoch = s.consensus.pacemaker.current_epoch;
              })
              parent_round
      ]

  unfoldable pub try_vote :
      State → Option TimeoutCertificate → ConsensusTip → Option (List Command × State)
  unfolding approve_vote last_round_tc_tip
  try_vote s last_round_tc tip =
      let round = get_current_round s.consensus.pacemaker in
      let tree = s.consensus.pending_block_tree in
      let header = tip.block_header in
      elim (get_timestamp_of_qc tree header.qc) [
        | none ↦ some ([], s)
        | some parent_timestamp ↦ elim (get_block_round_of_qc tree header.qc) [
          | none ↦ some ([], s)
          | some parent_round ↦
              elim (valid_block_timestamp s.block_timestamp (u128_of parent_timestamp)
                (u128_of header.timestamp_ns) (u128_of (vote_pace round))
                (not (round == header.block_round))) [
                  | none ↦ some ([], s)
                  | some _ ↦
                      if not (coherent tree (get_id header))
                      then some ([], s)
                      else approve_vote s (last_round_tc_tip get_id last_round_tc) tip parent_round
                ]
        ]
      ]
