-- ===== src/BlockTree/Growth.antt =====
-- blocktree/blocktree.go: what Add does to the blocks of the tree and their marks.
use monadbft_go.Base.{
  ◌<◌, ◌≤◌, ◌≡◌, ◌≢◌, refl, sym, subst, ap, ◌∙◌, ◌⊎◌, inl, inr, arith, Bool, true, false, none,
  some, List, [], ◌∷◌, ◌++◌, ◌==◌, ==_iff, if◌then◌else◌, Option-cases, Bool-cases,
}
use monadbft_go.Base.Table.{lookup, insert, has, nat_eq, lookup-insert}
use monadbft_go.Types.{BlockId}
use monadbft_go.Cstypes.Certs.{ConsensusBlockHeader, ConsensusFullBlock}
use monadbft_go.BlockTree.{
  BlockTree, BlockTreeEntry, parent_id, adopt, is_valid_to_insert, insert_block, add, children_of,
}
use monadbft_go.BlockTree.Invariant.{Inv, view, mark_of}

-- A new parent-child link changes no block and no mark.
adopt_keeps :
    (pid id k : BlockId) (tree : List (BlockId × BlockTreeEntry))
    → mark_of (lookup k (adopt pid id tree)) ≡ mark_of (lookup k tree)
unfolding adopt
adopt_keeps pid id k tree = elim (Option-cases (lookup pid tree)) [
  | inl n ↦ ground (arith, n)
  | inr (e, n) ↦ elim (Bool-cases (pid == k)) [
    | inl q ↦
        let same : pid ≡ k = (==_iff pid k).0 q in
        ground (
          arith,
          n,
          ap (λ (x : BlockId). lookup x tree) same,
          lookup-insert k pid (record e { children_blocks = e.children_blocks ++ (id ∷ []) }) tree,
        )
    | inr q ↦ ground (
      arith,
      n,
      lookup-insert k pid (record e { children_blocks = e.children_blocks ++ (id ∷ []) }) tree,
    )
  ]
]

module _ (get_id : ConsensusBlockHeader → BlockId) where
  new_entry : BlockTree → ConsensusFullBlock → BlockTreeEntry
  new_entry t b = record {
    validated_block = b;
    is_coherent = false;
    children_blocks = children_of (get_id b.header) t.tree;
  }

  pub view-insert_block :
      (t : BlockTree) (b : ConsensusFullBlock) (k : BlockId)
      → view (insert_block get_id t b) k
        ≡ (if get_id b.header == k then some (b, false) else view t k)
  unfolding insert_block new_entry
  view-insert_block t b k =
      adopt_keeps (parent_id b) (get_id b.header) k
        (insert (get_id b.header) (new_entry t b) t.tree)
      ∙ ground (arith, lookup-insert k (get_id b.header) (new_entry t b) t.tree)

  -- What validation and the certificates say of a block that is offered: its own certificate is older, and
  -- is of the round of the block that it names or of a later one; so is every certificate for this block.
  pub record Fits (t : BlockTree) (b : ConsensusFullBlock) : Type 0 where
    pub below : b.header.qc.info.round < b.header.block_round
    pub acyclic : parent_id b ≢ get_id b.header
    pub up :
        (p : ConsensusFullBlock) (d : Bool)
        → view t (parent_id b) ≡ some (p, d)
        → p.header.block_round ≤ b.header.qc.info.round
    pub down :
        (k : BlockId) (x : ConsensusFullBlock) (c : Bool)
        → view t k ≡ some (x, c)
        → parent_id x ≡ get_id b.header
        → b.header.block_round ≤ x.header.qc.info.round

  pub valid_view :
      (t : BlockTree) (b : ConsensusFullBlock)
      → is_valid_to_insert get_id t b.header ≡ true
      → (view t (get_id b.header) ≡ none) × (t.root.round < b.header.block_round)
  unfolding is_valid_to_insert has
  valid_view t b h = elim (Option-cases (lookup (get_id b.header) t.tree)) [
    | inl n ↦ ground arith
    | inr (e, n) ↦ ground arith
  ]

  -- What stands in the grown tree: the new block, or what stood there.
  grown :
      (t : BlockTree) (b : ConsensusFullBlock) (k : BlockId) (x : ConsensusFullBlock) (c : Bool)
      → view (insert_block get_id t b) k ≡ some (x, c)
      → ((get_id b.header ≡ k) × (x ≡ b) × (c ≡ false))
        ⊎ ((get_id b.header ≢ k) × (view t k ≡ some (x, c)))
  grown t b k x c h = elim (Bool-cases (get_id b.header == k)) [
    | inl q ↦ inl (ground (arith, view-insert_block t b k))
    | inr q ↦ inr (ground (arith, view-insert_block t b k))
  ]

  pub insert_block-root :
      (t : BlockTree) (b : ConsensusFullBlock) → (insert_block get_id t b).root ≡ t.root
  unfolding insert_block
  insert_block-root t b = refl

  linked_in :
      (t : BlockTree) (b : ConsensusFullBlock) (k : BlockId) (x : ConsensusFullBlock) (c : Bool)
      (p : ConsensusFullBlock) (d : Bool)
      → Inv get_id t
      → Fits t b
      → view (insert_block get_id t b) k ≡ some (x, c)
      → view (insert_block get_id t b) (parent_id x) ≡ some (p, d)
      → p.header.block_round ≤ x.header.qc.info.round
  linked_in t b k x c p d inv f h g = elim (grown t b k x c h) [
    | inl (q, e, z) ↦ elim (grown t b (parent_id x) p d g) [
      | inl (r, y, w) ↦ absurd (f.acyclic (ap parent_id (sym e) ∙ sym r))
      | inr (r, w) ↦
          let le = f.up p d (subst (λ a. view t (parent_id a) ≡ some (p, d)) e w) in
          omega (arith, le, ap (λ a. a.header.qc.info.round) e)
    ]
    | inr (q, v) ↦ elim (grown t b (parent_id x) p d g) [
      | inl (r, y, w) ↦ omega (arith, ap (λ a. a.header.block_round) y, f.down k x c v (sym r))
      | inr (r, w) ↦ inv.linked k x c p d v w
    ]
  ]

  pub insert_block-Inv :
      (t : BlockTree) (b : ConsensusFullBlock)
      → Inv get_id t
      → Fits t b
      → view t (get_id b.header) ≡ none
      → t.root.round < b.header.block_round
      → Inv get_id (insert_block get_id t b)
  unfolding insert_block
  insert_block-Inv t b inv f absent young = record {
    keyed = λ k x c h. elim (grown t b k x c h) [
      | inl (q, e, z) ↦ ap (λ a. get_id a.header) e ∙ q
      | inr (q, v) ↦ inv.keyed k x c v
    ];
    below = λ k x c h. elim (grown t b k x c h) [
      | inl (q, e, z) ↦ ground (arith, f.below, ap (λ a. a.header) e)
      | inr (q, v) ↦ inv.below k x c v
    ];
    linked = λ k x c p d. linked_in t b k x c p d inv f;
    newer = λ k x c h. elim (grown t b k x c h) [
      | inl (q, e, z) ↦ ground (arith, young, ap (λ a. a.header) e)
      | inr (q, v) ↦ inv.newer k x c v
    ];
  }

  -- The list of the root's children is no part of the invariant.
  abbrev pub with_kids : BlockTree → List BlockId → BlockTree
  with_kids t kids = record t { root_kids = kids }

  pub with_kids-Inv :
      (t : BlockTree) (kids : List BlockId) → Inv get_id t → Inv get_id (with_kids t kids)
  with_kids-Inv t kids inv = record {
    keyed = inv.keyed;
    below = inv.below;
    linked = inv.linked;
    newer = inv.newer;
  }

  pub add_valid :
      (t : BlockTree) (b : ConsensusFullBlock)
      → is_valid_to_insert get_id t b.header ≡ true
      → add get_id t b
        ≡ with_kids (insert_block get_id t b) (
            if parent_id b == t.root.block_id
            then t.root_kids ++ (get_id b.header ∷ [])
            else t.root_kids)
  unfolding add insert_block
  add_valid t b h = elim (Bool-cases (parent_id b == t.root.block_id)) [
    | inl q ↦ ground (arith, h, q)
    | inr q ↦ ground (arith, h, q)
  ]

  pub add_invalid :
      (t : BlockTree) (b : ConsensusFullBlock)
      → is_valid_to_insert get_id t b.header ≡ false
      → add get_id t b ≡ t
  unfolding add
  add_invalid t b h = ground (arith, h)
