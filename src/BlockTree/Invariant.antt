-- ===== src/BlockTree/Invariant.antt =====
-- blocktree/blocktree.go: the invariant of the tree, stated on blocks and coherency marks alone.
use monadbft_go.Base.{◌<◌, ◌≤◌, ◌≡◌, ◌⊎◌, inl, inr, arith, Bool, Option, none, some, Option-cases}
use monadbft_go.Base.Table.{lookup, nat_eq}
use monadbft_go.Types.{BlockId}
use monadbft_go.Cstypes.Certs.{ConsensusBlockHeader, ConsensusFullBlock}
use monadbft_go.BlockTree.{BlockTree, BlockTreeEntry, RootInfo, parent_id, new}

abbrev pub mark_of : Option BlockTreeEntry → Option (ConsensusFullBlock × Bool)
mark_of none = none
mark_of (some e) = some (e.validated_block, e.is_coherent)

-- What stands under an id, without its list of children.
abbrev pub view : BlockTree → BlockId → Option (ConsensusFullBlock × Bool)
view t id = mark_of (lookup id t.tree)

-- A block stands under its id, is newer than its certificate, whose round is that of the block it names or
-- a later one in which that block was proposed again, and is newer than the root.
pub record Inv (get_id : ConsensusBlockHeader → BlockId) (t : BlockTree) : Type 0 where
  pub keyed :
      (id : BlockId) (b : ConsensusFullBlock) (c : Bool)
      → view t id ≡ some (b, c)
      → get_id b.header ≡ id
  pub below :
      (id : BlockId) (b : ConsensusFullBlock) (c : Bool)
      → view t id ≡ some (b, c)
      → b.header.qc.info.round < b.header.block_round
  pub linked :
      (id : BlockId) (b : ConsensusFullBlock) (c : Bool) (p : ConsensusFullBlock) (d : Bool)
      → view t id ≡ some (b, c)
      → view t (parent_id b) ≡ some (p, d)
      → p.header.block_round ≤ b.header.qc.info.round
  pub newer :
      (id : BlockId) (b : ConsensusFullBlock) (c : Bool)
      → view t id ≡ some (b, c)
      → t.root.round < b.header.block_round

pub view_cases :
    (t : BlockTree) (id : BlockId)
    → (view t id ≡ none) ⊎ ((b : ConsensusFullBlock) × (c : Bool) × (view t id ≡ some (b, c)))
view_cases t id = elim (Option-cases (lookup id t.tree)) [
  | inl n ↦ inl (ground (arith, n))
  | inr (e, n) ↦ inr (e.validated_block, e.is_coherent, ground (arith, n))
]

-- The empty tree over any root is well formed.
pub new-Inv : (get_id : ConsensusBlockHeader → BlockId) (r : RootInfo) → Inv get_id (new r)
unfolding new lookup
new-Inv get_id r = record {
  keyed = λ id b c e. cc;
  below = λ id b c e. absurd (cc);
  linked = λ id b c p d e f. cc;
  newer = λ id b c e. absurd (cc);
}
