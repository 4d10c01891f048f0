-- ===== src/BlockTree/Commit/Chain.antt =====
-- blocktree/blocktree.go: what Prune commits, and the tree that it leaves.
use monadbft_go.Base.{
  ◌≤◌, ◌≡◌, ◌≢◌, refl, sym, subst, ap, ◌∙◌, arith, Bool, true, some, List, [], ◌∷◌, ◌++◌,
}
use mathlib.Core.List.{reverse, reverse-cons}
use monadbft_go.Base.Table.{lookup, nat_eq}
use monadbft_go.Types.{BlockId}
use monadbft_go.Cstypes.Certs.{ConsensusBlockHeader, ConsensusFullBlock}
use monadbft_go.BlockTree.{BlockTree, BlockTreeEntry, parent_id, entry_round}
use monadbft_go.BlockTree.Invariant.{Inv, view}
use monadbft_go.BlockTree.Paths.{Ancestry, last, more, Trunk, Trunk-Ancestry, Trunk-head}
use monadbft_go.BlockTree.Commit.{done, root_info, prune}
use monadbft_go.BlockTree.Commit.Total.{pruned, prune_commits}
use monadbft_go.BlockTree.Wiring.{Wired}
use monadbft_go.BlockTree.Commit.Wires.{pruned-Wired}
use monadbft_go.BlockTree.Commit.Keeps.{survives, kept}

module _ (get_id : ConsensusBlockHeader → BlockId) where
  -- Each block names the one before it as its parent, from `a` up to `z`.
  abbrev pub Extends : BlockId → List ConsensusFullBlock → BlockId → Type 0
  Extends a [] z = a ≡ z
  Extends a (b ∷ bs) z = (parent_id b ≡ a) × Extends (get_id b.header) bs z

  Extends-append :
      (a : BlockId) (bs : List ConsensusFullBlock) (b : ConsensusFullBlock)
      → Extends a bs (parent_id b)
      → Extends a (bs ++ (b ∷ [])) (get_id b.header)
  Extends-append a [] b e = (sym e, refl)
  Extends-append a (x ∷ bs) b e = (e.0, Extends-append (get_id x.header) bs b e.1)

  Ancestry-Extends :
      (t : BlockTree) (id : BlockId) {path : List ConsensusFullBlock}
      → Inv get_id t
      → Ancestry t id path
      → Extends t.root.block_id (reverse path) id
  Ancestry-Extends t id inv (last {b = b} {c = c} v p) = (p, inv.keyed id b c v)
  Ancestry-Extends t id inv (more {b = b} {c = c} {bs = bs} v n a) =
      subst (λ l. Extends t.root.block_id l id) (sym (reverse-cons b bs))
        (subst (Extends t.root.block_id (reverse bs ++ (b ∷ []))) (inv.keyed id b c v)
          (Extends-append t.root.block_id (reverse bs) b (Ancestry-Extends t (parent_id b) inv a)))

  pruned-Inv :
      (t : BlockTree) (e : BlockTreeEntry) (path : List ConsensusFullBlock)
      → Inv get_id t
      → Inv get_id (pruned get_id t e path)
  unfolding root_info
  pruned-Inv t e path inv = record {
    keyed = λ k b c h. inv.keyed k b c (old k b c h).0;
    below = λ k b c h. inv.below k b c (old k b c h).0;
    linked = λ k b c p d h g. inv.linked k b c p d (old k b c h).0 (old (parent_id b) p d g).0;
    newer = λ k b c h. ground (arith, old k b c h, inv.below k b c (old k b c h).0);
  }
    where
      old :
          (k : BlockId) (b : ConsensusFullBlock) (c : Bool)
          → view (pruned get_id t e path) k ≡ some (b, c)
          → (view t k ≡ some (b, c)) × (entry_round e ≤ b.header.qc.info.round)
      old = survives get_id t e path

  -- The blocks from `k` down to a child of `id`, newest first.
  pub data Above (t : BlockTree) (id : BlockId) : BlockId → List ConsensusFullBlock → Type 0 where
    child :
        {k : BlockId} {b : ConsensusFullBlock} {c : Bool}
        → view t k ≡ some (b, c)
        → parent_id b ≡ id
        → Above t id k (b ∷ [])
    further :
        {k : BlockId} {b : ConsensusFullBlock} {c : Bool} {bs : List ConsensusFullBlock}
        → view t k ≡ some (b, c)
        → parent_id b ≢ id
        → Above t id (parent_id b) bs
        → Above t id k (b ∷ bs)

  -- A block above another has a certificate no older than that block.
  Above-later :
      (t : BlockTree) (id k : BlockId) (top : ConsensusFullBlock) (d : Bool)
      {bs : List ConsensusFullBlock}
      → Inv get_id t
      → view t id ≡ some (top, d)
      → Above t id k bs
      → (b : ConsensusFullBlock) × (c : Bool) × (view t k ≡ some (b, c))
        × (top.header.block_round ≤ b.header.qc.info.round)
  Above-later t id k top d inv w (child {b = b} {c = c} v p) =
      (b, c, v, inv.linked k b c top d v (subst (λ x. view t x ≡ some (top, d)) (sym p) w))
  Above-later t id k top d inv w (further {b = b} {c = c} v n a) =
      let (p, e, u, le) = Above-later t id (parent_id b) top d inv w a in
      (b, c, v, omega (arith, le, inv.below (parent_id b) p e u, inv.linked k b c p e v u))

  -- What pruning at `id` makes of a tree: the root is the block `id`, both invariants hold, the blocks
  -- left are those whose certificate is no older than the root, and those above `id` reach the root.
  pub record Pruned (t : BlockTree) (id : BlockId) (u : BlockTree) : Type 0 where
    pub inv : Inv get_id u
    pub wired : Wired u
    pub named : u.root.block_id ≡ id
    pub top : ConsensusFullBlock
    pub stood : view t id ≡ some (top, true)
    pub described : u.root ≡ root_info get_id top
    pub left :
        (k : BlockId) (b : ConsensusFullBlock) (c : Bool)
        → view u k ≡ some (b, c)
        → (view t k ≡ some (b, c)) × (u.root.round ≤ b.header.qc.info.round)
    pub stays :
        (k : BlockId) (b : ConsensusFullBlock) (c : Bool)
        → view t k ≡ some (b, c)
        → u.root.round ≤ b.header.qc.info.round
        → view u k ≡ some (b, c)
    pub above : (k : BlockId) (bs : List ConsensusFullBlock) → Above t id k bs → Ancestry u k bs

  reaches :
      (t u : BlockTree) (id k : BlockId) (top : ConsensusFullBlock) (d : Bool)
      {bs : List ConsensusFullBlock}
      → Inv get_id t
      → view t id ≡ some (top, d)
      → u.root.block_id ≡ id
      → ((k : BlockId) (b : ConsensusFullBlock) (c : Bool)
          → view t k ≡ some (b, c)
          → top.header.block_round ≤ b.header.qc.info.round
          → view u k ≡ some (b, c))
      → Above t id k bs
      → Ancestry u k bs
  reaches t u id k top d inv w n stay (child {b = b} {c = c} v p) =
      let (x, y, z, le) = Above-later t id k top d inv w (child v p) in
      let same : x ≡ b = cc in
      last (stay k b c v (omega (arith, le, ap (λ a. a.header.qc.info.round) same))) (p ∙ sym n)
  reaches t u id k top d inv w n stay (further {b = b} {c = c} v q a) =
      let (x, y, z, le) = Above-later t id k top d inv w (further v q a) in
      let same : x ≡ b = cc in
      more (stay k b c v (omega (arith, le, ap (λ a. a.header.qc.info.round) same)))
        (λ r. q (r ∙ n)) (reaches t u id (parent_id b) top d inv w n stay a)

  pruned_lem :
      (t : BlockTree) (id : BlockId) (e : BlockTreeEntry) {path : List ConsensusFullBlock}
      → Inv get_id t
      → Wired t
      → lookup id t.tree ≡ some e
      → e.is_coherent ≡ true
      → Ancestry t id path
      → Pruned t id (pruned get_id t e path)
  unfolding root_info
  pruned_lem t id e {path} inv w l c a = record {
    inv = pruned-Inv t e path inv;
    wired = pruned-Wired get_id t id e inv w l a self;
    named = self;
    top = e.validated_block;
    stood = v;
    described = refl;
    left = survives get_id t e path;
    stays = stay;
    above = λ k bs. reaches t (pruned get_id t e path) id k e.validated_block true inv v self stay;
  }
    where
      v : view t id ≡ some (e.validated_block, true)
      v = ground arith

      self : get_id e.validated_block.header ≡ id
      self = inv.keyed id e.validated_block true v

      stay :
          (k : BlockId) (b : ConsensusFullBlock) (c : Bool)
          → view t k ≡ some (b, c)
          → entry_round e ≤ b.header.qc.info.round
          → view (pruned get_id t e path) k ≡ some (b, c)
      stay k b c = kept get_id t id k e b c inv l a

  -- In a tree where blocks stand under their ids and each is newer than the root and than its certificate,
  -- whose round is no earlier than that of the block it names, and where the lists of children and the
  -- index of bodies agree with the blocks, pruning at a block other than the root, from which a path of
  -- coherent blocks leads down to the root, returns. It commits that path, lowest first, each block over
  -- the one before it from the old root to the new one. The new root is that block, and all of this holds
  -- of the tree over it: of the old blocks exactly those with a certificate no older than the new root are
  -- left, with their marks, and the blocks above the new root reach it.
  pub prune-Inv :
      (t : BlockTree) (id : BlockId) (path : List ConsensusFullBlock)
      → Inv get_id t
      → Wired t
      → id ≢ t.root.block_id
      → Trunk t id path
      → Extends t.root.block_id (reverse path) id
        × ((u : BlockTree) × (prune get_id t id ≡ done (reverse path, u)) × Pruned t id u)
  prune-Inv t id path inv w n a =
      let (e, l, self, q) = prune_commits get_id t id inv n a in
      let (b, rest, v, _) = Trunk-head a in
      (
        Ancestry-Extends t id inv (Trunk-Ancestry a),
        (
          pruned get_id t e path,
          q,
          pruned_lem t id e inv w l (ground (arith, l, v)) (Trunk-Ancestry a),
        ),
      )
