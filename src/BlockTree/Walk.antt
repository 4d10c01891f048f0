-- ===== src/BlockTree/Walk.antt =====
-- blocktree/blocktree.go: the loops that follow parent links towards the root.
use monadbft_go.Base.{ℕ, zero, suc, none, some, List, [], ◌∷◌, ◌++◌, ◌==◌, if◌then◌else◌}
use mathlib.Core.List.{reverse}
use monadbft_go.Base.Table.{lookup, nat_eq}
use monadbft_go.Types.{BlockId}
use monadbft_go.Cstypes.Certs.{ConsensusFullBlock}
use monadbft_go.BlockTree.{BlockTree, entry_parent, entry_round}

-- A loop that ran out of fuel, Go's nil, or a result.
pub data Walk {ℓ} (A : Type ℓ) : Type ℓ where
  stuck nil : Walk A
  found : A → Walk A

unfoldable pub walk_fuel : BlockTree → BlockId → ℕ
walk_fuel t b = elim (lookup b t.tree) [ none ↦ 1 | some e ↦ suc (entry_round e) ]

unfoldable pub path_loop :
    ℕ → BlockTree → BlockId → List ConsensusFullBlock → Walk (List ConsensusFullBlock)
path_loop zero t visit blocks = stuck
path_loop (suc fuel) t visit blocks = elim (lookup visit t.tree) [
  | none ↦ nil
  | some e ↦
      let blocks' = blocks ++ (e.validated_block ∷ []) in
      let rest = path_loop fuel t (entry_parent e) blocks' in
      if entry_parent e == t.root.block_id then found (reverse blocks') else rest
]

-- Lowest block first.
unfoldable pub get_blocks_on_path_from_root : BlockTree → BlockId → Walk (List ConsensusFullBlock)
unfolding path_loop walk_fuel
get_blocks_on_path_from_root t b =
    if b == t.root.block_id then found [] else path_loop (walk_fuel t b) t b []
