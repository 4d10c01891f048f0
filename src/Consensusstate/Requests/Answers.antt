-- ===== src/Consensusstate/Requests/Answers.antt =====
-- consensusstate/state.go: a block is asked for once, only if it is missing, and never as an empty range.
use monadbft_go.Base.{
  ◌<◌, ◌≤◌, ◌≡◌, ◌⊎◌, inl, inr, refl, sym, subst, arith, true, false, none, some, List, [], ◌∷◌,
  Bool-cases, Option-cases,
}
use monadbft_go.Base.Run.{done}
use monadbft_go.Base.Table.{lookup, has, nat_eq, lookup-insert}
use monadbft_go.Types.{Round, BlockId}
use monadbft_go.Cstypes.Certs.{ConsensusBlockHeader, BlockRange, cert_qc}
use monadbft_go.BlockTree.Queries.Answers.{
  maybe_fill_path_to_root_lem, maybe_fill_path_to_root-positive,
}
use monadbft_go.BlockTree.Invariant.{Inv}
use monadbft_go.Consensus.Safety.{Safety}
use monadbft_go.Consensus.Safety.History.{Reach, Refuses}
use monadbft_go.Consensus.Pacemaker.{get_current_round, process_local_timeout}
use monadbft_go.Consensus.Pacemaker.Rounds.{local_timeout_closes_round}
use monadbft_go.Consensusstate.State.{State, ConsensusState, Command, cmd_request_sync}
use monadbft_go.Consensusstate.Requests.{
  handle_timeout_expiry, request_once, request_blocks_if_missing_ancestor,
}

-- What a request does: nothing, or it asks for a range that is not empty, whose last block is missing and
-- was not asked for, and notes that.
abbrev pub Asked : ConsensusState → List Command → ConsensusState → Type 0
Asked c cmds d =
    ((cmds ≡ []) × (d ≡ c))
    ⊎ ((range : BlockRange) × (cmds ≡ cmd_request_sync range ∷ [])
        × (0 < range.num_blocks)
        × (lookup range.last_block_id c.pending_block_tree.tree ≡ none)
        × (has range.last_block_id c.block_sync_requests ≡ false)
        × (has range.last_block_id d.block_sync_requests ≡ true))

request_once_lem :
    (c : ConsensusState) (range : BlockRange) (round : Round)
    → 0 < range.num_blocks
    → lookup range.last_block_id c.pending_block_tree.tree ≡ none
    → Asked c (request_once c range round).0 (request_once c range round).1
unfolding request_once has
request_once_lem c range round p m =
    elim (Bool-cases (has range.last_block_id c.block_sync_requests)) [
      | inl q ↦ inl (ground (arith, q), ground (arith, q))
      | inr q ↦ inr (
        range,
        ground (arith, q),
        p,
        m,
        q,
        ground (
          arith,
          q,
          nat_eq.beq_iff range.last_block_id range.last_block_id,
          lookup-insert range.last_block_id range.last_block_id
              (record { block_range = range; cancel_round = round }) c.block_sync_requests,
        ),
      )
    ]

-- With a tree where each block is newer than the root and than its certificate, whose round is no earlier than that
-- of the block it names (it is later if that block was proposed again),
-- the request for missing ancestors returns, without a panic. Either it does
-- nothing, or it asks for a range of at least one block whose last block is neither in the tree nor asked
-- for already, and which counts as asked for afterwards.
pub request_blocks_if_missing_ancestor_lem :
    (get_id : ConsensusBlockHeader → BlockId) (c : ConsensusState)
    → Inv get_id c.pending_block_tree
    → (cmds : List Command) × (d : ConsensusState) × (request_blocks_if_missing_ancestor c
        ≡ done (cmds, d))
      × Asked c cmds d
unfolding request_blocks_if_missing_ancestor
request_blocks_if_missing_ancestor_lem get_id c inv =
    let qc = cert_qc c.pacemaker.high_certificate in
    elim (maybe_fill_path_to_root_lem get_id c.pending_block_tree qc inv) [
      | inl (e, _) ↦ ([], c, ground (arith, e), inl (refl, refl))
      | inr (inl (e, _)) ↦ ([], c, ground (arith, e), inl (refl, refl))
      | inr (inr (range, e, m)) ↦
          let p = maybe_fill_path_to_root-positive c.pending_block_tree qc range e in
          let (cmds, d) = request_once c range qc.info.round in
          (cmds, d, ground (arith, e, p), request_once_lem c range qc.info.round p m)
    ]

-- When the timer of the current round, or of a later one, has expired and the node has signed its timeout,
-- the node never again votes, declines or proposes in its current round or below, whatever calls of the
-- safety state come between.
pub handle_timeout_expiry-Refuses :
    (s t : State) (timeout_round : Round) (cmds : List Command) (u : Safety)
    → get_current_round s.consensus.pacemaker ≤ timeout_round
    → handle_timeout_expiry s timeout_round ≡ some (cmds, t)
    → Reach t.consensus.safety u
    → (r : Round) → r ≤ get_current_round s.consensus.pacemaker
    → Refuses u r
unfolding handle_timeout_expiry
handle_timeout_expiry-Refuses s t timeout_round cmds u le e reach r l =
    elim (Option-cases (process_local_timeout s.consensus.pacemaker s.consensus.safety)) [
      | inl n ↦ absurd (ground (arith, e, le, n))
      | inr ((cs, p, safety), n) ↦
          let q : safety ≡ t.consensus.safety = ground (arith, e, le, n) in
          local_timeout_closes_round s.consensus.pacemaker p s.consensus.safety safety u cs n
            (subst (λ x. Reach x u) (sym q) reach) r l
    ]
