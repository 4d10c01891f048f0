-- ===== src/BlockTree/Commit.antt =====
-- blocktree/blocktree.go: Prune, which commits the path to a new root and drops what it leaves behind.
pub mod Effect
pub mod Loop
pub mod Total
pub mod Keeps
pub mod Wires
pub mod Chain
use monadbft_go.Base.{
  ℕ, zero, suc, ◌+◌, ◌≡◌, Bool, true, false, not, Option, none, some, List, [], ◌∷◌, ◌++◌, ltb,
  ◌==◌, if◌then◌else◌,
}
use mathlib.Core.List.{reverse}
pub use monadbft_go.Base.Run.{Run, stuck, panic, done}
use monadbft_go.Types.{Round, BlockId}
use monadbft_go.Cstypes.Certs.{ConsensusBlockHeader, ConsensusFullBlock}
use monadbft_go.BlockTree.{
  BlockTree, BlockTreeEntry, RootInfo, coherent, remove, ids_where, entry_parent, entry_round,
}

-- The loop over the commit path, newest block first.
pub commit_loop :
    ℕ
    → BlockTree
    → BlockTreeEntry
    → List ConsensusFullBlock
    → Run (List ConsensusFullBlock × BlockTree)
commit_loop zero t e commit = stuck
commit_loop (suc fuel) t e commit =
    let commit' = commit ++ (e.validated_block ∷ []) in
    let rest : Run (List ConsensusFullBlock × BlockTree) = elim (remove t (entry_parent e)).0 [
      | none ↦ panic
      | some p ↦ commit_loop fuel (remove t (entry_parent e)).1 p commit'
    ] in
    if not e.is_coherent
    then panic
    else if entry_parent e == t.root.block_id
    then done (commit', t)
    else rest

pub remove_all : List BlockId → BlockTree → BlockTree
remove_all [] t = t
remove_all (id ∷ ids) t = remove_all ids (remove t id).1

-- Drop the blocks whose parent is older than the new root.
pub collect : Round → BlockTree → BlockTree
unfolding remove_all
collect round t =
    remove_all (ids_where (λ e. ltb e.validated_block.header.qc.info.round round) t.tree) t

module _ (get_id : ConsensusBlockHeader → BlockId) where
  pub root_info : ConsensusFullBlock → RootInfo
  root_info b = record {
    round = b.header.block_round;
    seq_num = b.header.seq_num;
    epoch = b.header.epoch;
    block_id = get_id b.header;
    timestamp_ns = b.header.timestamp_ns;
  }

  -- The entry of the new root after the loop: collect, move the root, reverse the commits.
  pub finish :
      BlockTreeEntry
      → Run (List ConsensusFullBlock × BlockTree)
      → Run (List ConsensusFullBlock × BlockTree)
  finish e stuck = stuck
  finish e panic = panic
  finish e (done (commit, t)) = done (
    reverse commit,
    record (collect (entry_round e) t) {
      root = root_info e.validated_block;
      root_kids = e.children_blocks;
    },
  )

  pub prune_entry : Option BlockTreeEntry → BlockTree → Run (List ConsensusFullBlock × BlockTree)
  prune_entry none t = panic
  prune_entry (some e) t = finish e (commit_loop (suc (entry_round e)) t e [])

  pub prune : BlockTree → BlockId → Run (List ConsensusFullBlock × BlockTree)
  prune t new_root =
      if not (coherent t new_root)
      then panic
      else if new_root == t.root.block_id
      then done ([], t)
      else prune_entry (remove t new_root).0 (remove t new_root).1
