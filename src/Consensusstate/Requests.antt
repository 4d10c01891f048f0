-- ===== src/Consensusstate/Requests.antt =====
-- consensusstate/state.go: requests for blocks that are missing, and the expiry of a round's timer.
mod Examples
pub mod Answers
use monadbft_go.Base.{
  ℕ, Bool, true, false, Option, none, some, List, [], ◌∷◌, ◌++◌, ltb, ◌==◌, if◌then◌else◌,
}
use monadbft_go.Base.Run.{Run, stuck, panic, done}
use monadbft_go.Base.Table.{lookup, insert, has, nat_eq}
use monadbft_go.Types.{Round, BlockId}
use monadbft_go.Cstypes.Certs.{
  ConsensusBlockHeader, BlockRange, HighExtend, RoundCertificate, from_qc, from_tc, cert_qc,
}
use monadbft_go.BlockTree.Walk as Walks
use monadbft_go.BlockTree.Queries.{maybe_fill_path_to_root, get_block}
use monadbft_go.Consensus.Pacemaker.{get_current_round, process_local_timeout}
use monadbft_go.Consensusstate.State.{
  State, ConsensusState, Command, cmd_request_sync, BlockSyncRequestStatus, from_pacemaker_commands,
}

-- A request is made unless one for the same block stands.
unfoldable pub request_once : ConsensusState → BlockRange → Round → List Command × ConsensusState
request_once c range cancel_round =
    if has range.last_block_id c.block_sync_requests then ([], c) else (
      cmd_request_sync range ∷ [],
      record c {
        block_sync_requests =
            insert range.last_block_id (record { block_range = range; cancel_round = cancel_round })
              c.block_sync_requests;
      },
    )

unfoldable pub request_blocks_if_missing_ancestor :
    ConsensusState → Run (List Command × ConsensusState)
unfolding request_once
request_blocks_if_missing_ancestor c =
    let high_qc = cert_qc c.pacemaker.high_certificate in
    elim (maybe_fill_path_to_root c.pending_block_tree high_qc) [
      | Walks.stuck ↦ stuck
      | Walks.nil ↦ done ([], c)
      | Walks.found range ↦
          if range.num_blocks == 0 then panic else done (request_once c range high_qc.info.round)
    ]

-- Only a timeout certificate that extends a tip names one that may be missing.
unfoldable pub request_tip_if_missing :
    (ConsensusBlockHeader → BlockId) → ConsensusState → List Command × ConsensusState
unfolding request_once
request_tip_if_missing get_id c = elim c.pacemaker.high_certificate [
  | from_qc _ ↦ ([], c)
  | from_tc tc ↦ elim tc.high_extend [
    | HighExtend.qc _ ↦ ([], c)
    | HighExtend.tip tip ↦
        let id = get_id tip.block_header in
        elim (get_block c.pending_block_tree id) [
          | some _ ↦ ([], c)
          | none ↦
              request_once c (record { last_block_id = id; num_blocks = 1 })
                tip.block_header.block_round
        ]
  ]
]

-- A panic is `none`.
unfoldable pub handle_timeout_expiry : State → Round → Option (List Command × State)
handle_timeout_expiry s timeout_round =
    if ltb timeout_round (get_current_round s.consensus.pacemaker)
    then some ([], s)
    else elim (process_local_timeout s.consensus.pacemaker s.consensus.safety) [
      | none ↦ none
      | some (cmds, p, safety) ↦ some (
        from_pacemaker_commands cmds,
        record s { consensus = record s.consensus { pacemaker = p; safety = safety } },
      )
    ]
