-- ===== src/BlockTree/Queries/Answers.antt =====
-- blocktree/blocktree.go: MaybeFillPathToRoot asks for the first missing ancestor, or for nothing.
use monadbft_go.Base.{
  ℕ, zero, suc, ◌<◌, ◌≤◌, ◌≡◌, ◌≢◌, subst, ◌∙◌, ◌⊎◌, inl, inr, arith, ◌||◌, none, some, List, [],
  ◌∷◌, leb, ◌==◌, Bool-cases, Option-cases, ==_iff,
}
use monadbft_go.Base.Table.{lookup, nat_eq}
use monadbft_go.Types.{SeqNum, BlockId}
use monadbft_go.Cstypes.Certs.{
  ConsensusBlockHeader, ConsensusFullBlock, QuorumCertificate, BlockRange,
}
use monadbft_go.BlockTree.{BlockTree, BlockTreeEntry, entry_parent}
use monadbft_go.BlockTree.Walk.{Walk, nil, found, walk_fuel}
use monadbft_go.BlockTree.Invariant.{Inv, view}
use monadbft_go.BlockTree.Paths.{Ancestry, last, more, Fueled, Fueled-parent, walk_fuel-Fueled}
use monadbft_go.BlockTree.Queries.{count_behind, fill_loop, maybe_fill_path_to_root}

-- Nothing to ask for, as the blocks reach the root, or a range that ends at a block that is missing.
abbrev pub Filled : BlockTree → BlockId → Walk BlockRange → Type 0
Filled t id r =
    ((r ≡ nil) × ((path : List ConsensusFullBlock) × Ancestry t id path))
    ⊎ ((range : BlockRange) × (r ≡ found range) × (lookup range.last_block_id t.tree ≡ none))

fill_loop_missing :
    (f : ℕ) (t : BlockTree) (id : BlockId) (n : SeqNum)
    → lookup id t.tree ≡ none
    → fill_loop (suc f) t id n ≡ found (record { last_block_id = id; num_blocks = n })
unfolding fill_loop
fill_loop_missing f t id n h = ground (arith, h)

fill_loop_last :
    (f : ℕ) (t : BlockTree) (id : BlockId) (n : SeqNum) (e : BlockTreeEntry)
    → lookup id t.tree ≡ some e
    → entry_parent e ≡ t.root.block_id
    → fill_loop (suc f) t id n ≡ nil
unfolding fill_loop
fill_loop_last f t id n e h q = ground (arith, h, q)

fill_loop_more :
    (f : ℕ) (t : BlockTree) (id : BlockId) (n : SeqNum) (e : BlockTreeEntry)
    → lookup id t.tree ≡ some e
    → entry_parent e ≢ t.root.block_id
    → fill_loop (suc f) t id n ≡ fill_loop f t (entry_parent e) (count_behind t e)
unfolding fill_loop
fill_loop_more f t id n e h q = ground (arith, h, q)

fill_loop_lem :
    (get_id : ConsensusBlockHeader → BlockId) (f : ℕ) (t : BlockTree) (id : BlockId) (n : SeqNum)
    → Inv get_id t
    → 0 < f
    → Fueled f t id
    → Filled t id (fill_loop f t id n)
fill_loop_lem get_id zero t id n inv pos fuel = absurd (omega arith)
fill_loop_lem get_id (suc f) t id n inv pos fuel = elim (Option-cases (lookup id t.tree)) [
  | inl h ↦ inr (record { last_block_id = id; num_blocks = n }, fill_loop_missing f t id n h, h)
  | inr (e, h) ↦
      let v : view t id ≡ some (e.validated_block, e.is_coherent) = ground arith in
      elim (Bool-cases (entry_parent e == t.root.block_id)) [
        | inl q ↦ inl (
          fill_loop_last f t id n e h ((==_iff _ _).0 q),
          (e.validated_block ∷ [], last v ((==_iff _ _).0 q)),
        )
        | inr q ↦
            let k : entry_parent e ≢ t.root.block_id = ground arith in
            let s = fill_loop_more f t id n e h k in
            elim (fill_loop_lem get_id f t (entry_parent e) (count_behind t e) inv
              (omega (
                arith,
                inv.newer id e.validated_block e.is_coherent v,
                fuel e.validated_block e.is_coherent v,
              ))
              (Fueled-parent get_id f t id e.validated_block e.is_coherent inv v fuel)) [
                | inl (r, (path, a)) ↦ inl (s ∙ r, (e.validated_block ∷ path, more v k a))
                | inr (range, r, l) ↦ inr (range, s ∙ r, l)
              ]
      ]
]

pub maybe_fill_path_to_root_lem :
    (get_id : ConsensusBlockHeader → BlockId) (t : BlockTree) (qc : QuorumCertificate)
    → Inv get_id t
    → ((maybe_fill_path_to_root t qc ≡ nil)
        × ((qc.info.round ≤ t.root.round) ⊎ (qc.info.id ≡ t.root.block_id)))
      ⊎ Filled t qc.info.id (maybe_fill_path_to_root t qc)
unfolding maybe_fill_path_to_root
maybe_fill_path_to_root_lem get_id t qc inv =
    elim (Bool-cases (leb qc.info.round t.root.round || (t.root.block_id == qc.info.id))) [
      | inl e ↦ inl (ground (arith, e))
      | inr e ↦
          let (p, f) = walk_fuel-Fueled t qc.info.id in
          inr (
            subst (Filled t qc.info.id) (ground (arith, e))
              (fill_loop_lem get_id _ t qc.info.id 1 inv p f))
    ]

fill_loop-positive :
    (fuel : ℕ) (t : BlockTree) (id : BlockId) (n : SeqNum) (range : BlockRange)
    → 0 < n
    → fill_loop fuel t id n ≡ found range
    → 0 < range.num_blocks
unfolding fill_loop
fill_loop-positive zero t id n range h e = absurd cc
fill_loop-positive (suc fuel) t id n range h e = elim (Option-cases (lookup id t.tree)) [
  | inl m ↦ ground (arith, e, h, m)
  | inr (x, m) ↦ elim (Bool-cases (entry_parent x == t.root.block_id)) [
    | inl q ↦ absurd (ground (arith, e, m, q))
    | inr q ↦
        fill_loop-positive fuel t (entry_parent x) (count_behind t x) range (ground arith)
          (ground (arith, e, m, q))
  ]
]

-- A range that is asked for is not empty.
pub maybe_fill_path_to_root-positive :
    (t : BlockTree) (qc : QuorumCertificate) (range : BlockRange)
    → maybe_fill_path_to_root t qc ≡ found range
    → 0 < range.num_blocks
unfolding maybe_fill_path_to_root
maybe_fill_path_to_root-positive t qc range e =
    elim (Bool-cases (leb qc.info.round t.root.round || (t.root.block_id == qc.info.id))) [
      | inl q ↦ absurd (ground (arith, e, q))
      | inr q ↦
          fill_loop-positive (walk_fuel t qc.info.id) t qc.info.id 1 range (omega arith)
            (ground (arith, e, q))
    ]
