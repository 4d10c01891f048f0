-- ===== src/BlockTree/Commit/Total.antt =====
-- blocktree/blocktree.go: Prune returns above a coherent path, commits that path, and what it leaves.
use monadbft_go.Base.{suc, ◌≡◌, ◌≢◌, ap, ◌∙◌, arith, true, none, some, List, [], ◌∷◌, if◌then◌else◌}
use mathlib.Core.List.{reverse}
use monadbft_go.Base.Table.{lookup, nat_eq}
use monadbft_go.Base.Sets.{contains}
use monadbft_go.Types.{BlockId}
use monadbft_go.Cstypes.Certs.{ConsensusBlockHeader, ConsensusFullBlock}
use monadbft_go.BlockTree.{BlockTree, BlockTreeEntry, remove, coherent, entry_round}
use monadbft_go.BlockTree.Invariant.{Inv, view}
use monadbft_go.BlockTree.Paths.{Trunk, Trunk-head}
use monadbft_go.BlockTree.Commit.{done, remove_all, collect, root_info, finish, prune_entry, prune}
use monadbft_go.BlockTree.Commit.Effect.{
  lookup-remove, remove-root, remove-entry, view-entry, view-remove_all, view-collect, Same, ids_of,
  is_old,
}
use monadbft_go.BlockTree.Commit.Loop.{loop_lem, remove_path}

module _ (get_id : ConsensusBlockHeader → BlockId) where
  -- The tree that is left when the path has been committed up to a new root.
  abbrev pub pruned : BlockTree → BlockTreeEntry → List ConsensusFullBlock → BlockTree
  pruned t e path = record (collect (entry_round e) (remove_all (ids_of get_id path) t)) {
    root = root_info get_id e.validated_block;
    root_kids = e.children_blocks;
  }

  prune_entry_lem :
      (t : BlockTree) (id : BlockId) (e : BlockTreeEntry) {path : List ConsensusFullBlock}
      → Inv get_id t
      → lookup id t.tree ≡ some e
      → e.is_coherent ≡ true
      → Trunk t id path
      → prune_entry get_id (some e) (remove t id).1 ≡ done (reverse path, pruned t e path)
  unfolding prune_entry finish
  prune_entry_lem t id e {path} inv l c a =
      let v : view t id ≡ some (e.validated_block, true) = ground arith in
      let (b, rest, w, q) = Trunk-head a in
      let head : b ≡ e.validated_block = cc in
      ap (finish get_id e) (
        loop_lem get_id (suc (entry_round e)) t (remove t id).1 id e [] inv (remove-root t id) l c a
          same (omega arith))
      ∙ ap
          (λ u. done (
            reverse path,
            record (collect (entry_round e) u) {
              root = root_info get_id e.validated_block;
              root_kids = e.children_blocks;
            },
          ))
          (remove_path get_id t id e.validated_block path rest (q ∙ ap (λ x. x ∷ rest) head)
            (inv.keyed id e.validated_block true v))
    where
      same : Same (entry_round e) t (remove t id).1
      same k f m lt =
          lookup-remove t id k ∙ ground (arith, m, l, ap (λ (x : BlockId). lookup x t.tree))

  -- Pruning at a block above which the path down to the root is coherent returns: it commits the blocks of
  -- that path, lowest first and the new root last.
  pub prune_commits :
      (t : BlockTree) (id : BlockId) {path : List ConsensusFullBlock}
      → Inv get_id t
      → id ≢ t.root.block_id
      → Trunk t id path
      → (e : BlockTreeEntry) × (lookup id t.tree ≡ some e)
        × (get_id e.validated_block.header ≡ id)
        × (prune get_id t id ≡ done (reverse path, pruned t e path))
  unfolding prune coherent
  prune_commits t id inv n a =
      let (b, rest, v, q) = Trunk-head a in
      let (e, l, x, y) = view-entry t id b true v in
      (
        e,
        l,
        ap (λ d. get_id d.header) x ∙ inv.keyed id b true v,
        ground (arith, remove-entry t id, l, y) ∙ prune_entry_lem t id e inv l y a,
      )

  pub view-pruned :
      (t : BlockTree) (e : BlockTreeEntry) (path : List ConsensusFullBlock) (k : BlockId)
      → view (pruned t e path) k ≡ (
          if contains k (ids_of get_id path)
          then none
          else if is_old (entry_round e) (view t k)
          then none
          else view t k)
  view-pruned t e path k =
      view-collect (entry_round e) (remove_all (ids_of get_id path) t) k
      ∙ ground (arith, view-remove_all (ids_of get_id path) t k)
