-- ===== src/BlockTree/Commit/Keeps.antt =====
-- blocktree/blocktree.go: which blocks Prune leaves in the tree.
use monadbft_go.Base.{
  ◌≤◌, ◌≡◌, sym, subst, ap, ◌∙◌, inl, inr, arith, Bool, true, some, List, ◌==◌, ==_iff, Bool-cases,
}
use monadbft_go.Base.Table.{lookup, nat_eq}
use monadbft_go.Base.Sets.{contains}
use monadbft_go.Types.{BlockId}
use monadbft_go.Cstypes.Certs.{ConsensusBlockHeader, ConsensusFullBlock}
use monadbft_go.BlockTree.{BlockTree, BlockTreeEntry, parent_id, entry_round}
use monadbft_go.BlockTree.Invariant.{Inv, view}
use monadbft_go.BlockTree.Paths.{Ancestry, last, more, Ancestry-view}
use monadbft_go.BlockTree.Commit.Effect.{ids_of, is_old}
use monadbft_go.BlockTree.Commit.Total.{pruned, view-pruned}

module _ (get_id : ConsensusBlockHeader → BlockId) where
  -- A block of the path is no newer than its top.
  on_path :
      (t : BlockTree) (id k : BlockId) (top : ConsensusFullBlock) (c : Bool)
      {path : List ConsensusFullBlock}
      → Inv get_id t
      → view t id ≡ some (top, c)
      → Ancestry t id path
      → contains k (ids_of get_id path) ≡ true
      → (b : ConsensusFullBlock) × (d : Bool) × (view t k ≡ some (b, d))
        × (b.header.block_round ≤ top.header.block_round)
  on_path t id k top c inv v (last {b = b} {c = d} w p) h =
      let q : id ≡ k = sym (inv.keyed id b d w) ∙ (==_iff _ k).0 (ground arith) in
      (b, d, subst (λ x. view t x ≡ some (b, d)) q w, ground arith)
  on_path t id k top c inv v (more {b = b} {c = d} {bs = bs} w n a) h =
      elim (Bool-cases (get_id b.header == k)) [
        | inl e ↦
            let q : id ≡ k = sym (inv.keyed id b d w) ∙ (==_iff _ k).0 e in
            (b, d, subst (λ x. view t x ≡ some (b, d)) q w, ground arith)
        | inr e ↦
            let (p, pd, u) = Ancestry-view a in
            let (x, xd, y, le) = on_path t (parent_id b) k p pd inv u a (ground arith) in
            (x, xd, y, ground (arith, inv.linked id b d p pd w u, inv.below id b d w))
      ]

  -- What is left after pruning was there before, with a certificate of the new root's round or later.
  pub survives :
      (t : BlockTree) (e : BlockTreeEntry) (path : List ConsensusFullBlock) (k : BlockId)
      (b : ConsensusFullBlock) (c : Bool)
      → view (pruned get_id t e path) k ≡ some (b, c)
      → (view t k ≡ some (b, c)) × (entry_round e ≤ b.header.qc.info.round)
  survives t e path k b c h = elim (Bool-cases (contains k (ids_of get_id path))) [
    | inl on ↦ absurd (ground (arith, view-pruned get_id t e path k))
    | inr off ↦ elim (Bool-cases (is_old (entry_round e) (view t k))) [
      | inl old ↦ absurd (ground (arith, view-pruned get_id t e path k))
      | inr young ↦
          let v : view t k ≡ some (b, c) = ground (arith, view-pruned get_id t e path k) in
          (v, ground (arith, ap (is_old (entry_round e)) v))
    ]
  ]

  pub kept :
      (t : BlockTree) (id k : BlockId) (e : BlockTreeEntry) {path : List ConsensusFullBlock}
      (p : ConsensusFullBlock) (d : Bool)
      → Inv get_id t
      → lookup id t.tree ≡ some e
      → Ancestry t id path
      → view t k ≡ some (p, d)
      → entry_round e ≤ p.header.qc.info.round
      → view (pruned get_id t e path) k ≡ some (p, d)
  kept t id k e {path} p d inv l a v h = elim (Bool-cases (contains k (ids_of get_id path))) [
    | inl on ↦
        let (x, xd, y, le) =
          on_path t id k e.validated_block e.is_coherent inv (ground arith) a on in
        let same : x ≡ p = cc in
        absurd (ground (arith, inv.below k p d v, le, ap (λ b. b.header.block_round) same))
    | inr off ↦
        view-pruned get_id t e path k ∙ ground (arith, off, v, ap (is_old (entry_round e)) v)
  ]
