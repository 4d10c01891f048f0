-- ===== src/BlockTree.antt =====
-- blocktree/blocktree.go: the tree of pending blocks.
-- The hash that makes a block id is a parameter, as is the policy that judges a block. Loops that
-- follow parent links take fuel: one more than the round of the block where they start, since rounds
-- fall along the links of a well-formed tree.
pub mod Walk
pub mod Commit
pub mod Invariant
pub mod Paths
pub mod Growth
pub mod Wiring
pub mod Queries
mod Examples
use monadbft_go.Base.{
  ℕ, zero, suc, ◌+◌, ◌≡◌, Bool, true, false, not, ◌&&◌, Option, none, some, List, [], ◌∷◌, ◌++◌,
  map, keep, ltb, leb, ◌==◌, if◌then◌else◌,
}
use monadbft_go.Base.Table.{lookup, insert, delete, has, keys, nat_eq}
use monadbft_go.Base.Sets.{contains, erase}
use monadbft_go.Types.{Round, Epoch, SeqNum, BlockId, Hash}
use monadbft_go.Cstypes.Certs.{ConsensusBlockHeader, ConsensusFullBlock, QuorumCertificate}

pub record RootInfo : Type 0 where
  pub round : Round
  pub seq_num : SeqNum
  pub epoch : Epoch
  pub block_id : BlockId
  pub timestamp_ns : ℕ

pub record BlockTreeEntry : Type 0 where
  pub validated_block : ConsensusFullBlock
  pub is_coherent : Bool
  pub children_blocks : List BlockId

pub record BlockBodyIndex : Type 0 where
  pub body : List ℕ
  pub active_blocks : List BlockId

pub record BlockTree : Type 0 where
  pub root : RootInfo
  pub root_kids : List BlockId
  pub tree : List (BlockId × BlockTreeEntry)
  pub payloads : List (Hash × BlockBodyIndex)

pub new : RootInfo → BlockTree
new root = record { root = root; root_kids = []; tree = []; payloads = [] }

-- Header.QC.GetBlockId() of a block.
abbrev pub parent_id : ConsensusFullBlock → BlockId
parent_id b = b.header.qc.info.id

abbrev pub entry_parent : BlockTreeEntry → BlockId
entry_parent e = parent_id e.validated_block

abbrev pub entry_round : BlockTreeEntry → Round
entry_round e = e.validated_block.header.block_round

-- IsCoherent.
unfoldable pub coherent : BlockTree → BlockId → Bool
coherent t b =
    if b == t.root.block_id
    then true
    else elim (lookup b t.tree) [ none ↦ false | some e ↦ e.is_coherent ]

-- The body of a deleted block is dropped with the last block that has it.
pub release_payload : Hash → BlockId → List (Hash × BlockBodyIndex) → List (Hash × BlockBodyIndex)
release_payload pid id payloads = elim (lookup pid payloads) [
  | none ↦ payloads
  | some idx ↦
      let active = erase id idx.active_blocks in
      elim active [
        | [] ↦ delete pid payloads
        | x ∷ xs ↦ insert pid (record idx { active_blocks = x ∷ xs }) payloads
      ]
]

-- The entry removed, if there was one, and the tree without it.
pub remove : BlockTree → BlockId → Option BlockTreeEntry × BlockTree
unfolding release_payload
remove t id = elim (lookup id t.tree) [
  | none ↦ (none, t)
  | some e ↦ (
    some e,
    record t {
      tree = delete id t.tree;
      payloads = release_payload e.validated_block.header.block_body_id id t.payloads;
    },
  )
]

pub retain_payload :
    Hash → BlockId → List ℕ → List (Hash × BlockBodyIndex) → List (Hash × BlockBodyIndex)
retain_payload pid id body payloads = elim (lookup pid payloads) [
  | none ↦ insert pid (record { body = body; active_blocks = id ∷ [] }) payloads
  | some idx ↦
      insert pid
        (record idx {
          active_blocks =
              if contains id idx.active_blocks then idx.active_blocks else id ∷ idx.active_blocks;
        })
        payloads
]

-- `for id, e := range t.tree`, keeping the ids whose entry passes a test.
unfoldable pub ids_where : (BlockTreeEntry → Bool) → List (BlockId × BlockTreeEntry) → List BlockId
ids_where test tree =
    keep (λ id. elim (lookup id tree) [ none ↦ false | some e ↦ test e ]) (keys tree)

-- The blocks that name `id` as their parent.
pub children_of : BlockId → List (BlockId × BlockTreeEntry) → List BlockId
unfolding ids_where
children_of id tree = ids_where (λ e. entry_parent e == id) tree

-- `pe.ChildrenBlocks = append(pe.ChildrenBlocks, newId)` where the parent stands in the tree.
pub adopt : BlockId → BlockId → List (BlockId × BlockTreeEntry) → List (BlockId × BlockTreeEntry)
adopt pid id tree = elim (lookup pid tree) [
  | none ↦ tree
  | some pe ↦ insert pid (record pe { children_blocks = pe.children_blocks ++ (id ∷ []) }) tree
]

module _ (get_id : ConsensusBlockHeader → BlockId) where
  pub is_valid_to_insert : BlockTree → ConsensusBlockHeader → Bool
  is_valid_to_insert t h = not (has (get_id h) t.tree) && ltb t.root.round h.block_round

  -- Tree::insert.
  pub insert_block : BlockTree → ConsensusFullBlock → BlockTree
  unfolding children_of adopt retain_payload
  insert_block t block =
      let new_id = get_id block.header in
      record t {
        tree = adopt (parent_id block) new_id (
            insert new_id
              (record {
                validated_block = block;
                is_coherent = false;
                children_blocks = children_of new_id t.tree;
              })
              t.tree);
        payloads = retain_payload block.header.block_body_id new_id block.body t.payloads;
      }

  pub add : BlockTree → ConsensusFullBlock → BlockTree
  add t block =
      let u = insert_block t block in
      if not (is_valid_to_insert t block.header)
      then t
      else if parent_id block == t.root.block_id
      then record u { root_kids = u.root_kids ++ (get_id block.header ∷ []) }
      else u
