-- ===== src/BlockTree/Queries.antt =====
-- blocktree/blocktree.go: what the tree answers of certificates, payloads, missing ancestors and tips.
-- Breadth-first loops take fuel and answer `stuck` without it.
pub mod Answers
use monadbft_go.Base.{
  ℕ, zero, suc, ◌+◌, ◌-◌, ◌≡◌, Bool, true, false, not, ◌&&◌, ◌||◌, Option, none, some, List, [],
  ◌∷◌, ◌++◌, map, ltb, leb, ◌==◌, if◌then◌else◌, sub64,
}
use mathlib.Core.List.{reverse}
use monadbft_go.Base.Table.{lookup, insert, nat_eq}
use monadbft_go.Types.{Round, SeqNum, BlockId, Hash}
use monadbft_go.Cstypes.Certs.{
  ConsensusBlockHeader, ConsensusFullBlock, QuorumCertificate, BlockRange, get_committable_id,
}
use monadbft_go.BlockTree.{
  BlockTree, BlockTreeEntry, BlockBodyIndex, RootInfo, coherent, entry_parent, entry_round,
  parent_id,
}
use monadbft_go.BlockTree.Walk.{Walk, stuck, nil, found, walk_fuel, get_blocks_on_path_from_root}

-- A field of the root, or of the block in the tree, under the id that a certificate names.
abbrev of_qc {ℓ} :
    {A : Type ℓ}
    → (RootInfo → A)
    → (ConsensusBlockHeader → A)
    → BlockTree
    → QuorumCertificate
    → Option A
of_qc root block t qc =
    if qc.info.id == t.root.block_id then some (root t.root) else elim (lookup qc.info.id t.tree) [
      | none ↦ none
      | some e ↦ some (block e.validated_block.header)
    ]

pub get_seq_num_of_qc : BlockTree → QuorumCertificate → Option SeqNum
get_seq_num_of_qc = of_qc (λ r. r.seq_num) (λ h. h.seq_num)

unfoldable pub get_timestamp_of_qc : BlockTree → QuorumCertificate → Option ℕ
get_timestamp_of_qc = of_qc (λ r. r.timestamp_ns) (λ h. h.timestamp_ns)

unfoldable pub get_block_round_of_qc : BlockTree → QuorumCertificate → Option Round
get_block_round_of_qc = of_qc (λ r. r.round) (λ h. h.block_round)

pub get_block : BlockTree → BlockId → Option ConsensusFullBlock
get_block t id = elim (lookup id t.tree) [ none ↦ none | some e ↦ some e.validated_block ]

pub get_payload : BlockTree → Hash → Option (List ℕ)
get_payload t id = elim (lookup id t.payloads) [ none ↦ none | some idx ↦ some idx.body ]

-- The blocks strictly between the root and an entry, but at least one.
abbrev pub count_behind : BlockTree → BlockTreeEntry → SeqNum
count_behind t e =
    let diff = sub64 e.validated_block.header.seq_num t.root.seq_num in
    (if ltb diff 2 then 2 else diff) - 1

-- The loop of MaybeFillPathToRoot: the unknown id and the count so far.
pub fill_loop : ℕ → BlockTree → BlockId → SeqNum → Walk BlockRange
fill_loop zero t unknown n = stuck
fill_loop (suc fuel) t unknown n = elim (lookup unknown t.tree) [
  | none ↦ found (record { last_block_id = unknown; num_blocks = n })
  | some e ↦
      let rest = fill_loop fuel t (entry_parent e) (count_behind t e) in
      if entry_parent e == t.root.block_id then nil else rest
]

pub maybe_fill_path_to_root : BlockTree → QuorumCertificate → Walk BlockRange
unfolding fill_loop
maybe_fill_path_to_root t qc =
    if leb qc.info.round t.root.round || (t.root.block_id == qc.info.id)
    then nil
    else fill_loop (walk_fuel t qc.info.id) t qc.info.id 1

-- GetParentBlockChain: on to the first block whose parent is not in the tree.
pub chain_loop :
    ℕ → BlockTree → ConsensusFullBlock → List ConsensusFullBlock → Walk (List ConsensusFullBlock)
chain_loop zero t b chain = stuck
chain_loop (suc fuel) t b chain = elim (lookup (parent_id b) t.tree) [
  | none ↦ found (reverse chain)
  | some e ↦ chain_loop fuel t e.validated_block (chain ++ (e.validated_block ∷ []))
]

pub get_parent_block_chain : BlockTree → BlockId → Walk (List ConsensusFullBlock)
unfolding chain_loop
get_parent_block_chain t id = elim (lookup id t.tree) [
  | none ↦ nil
  | some e ↦ chain_loop (suc (entry_round e)) t e.validated_block (e.validated_block ∷ [])
]

-- highestRoundCoherentDescendant: one pass over the children of a block, and the loop over the queue.
pub visit_children :
    BlockTree → BlockId × Round → List BlockId → List BlockId → (BlockId × Round) × List BlockId
visit_children t best queue [] = (best, queue)
visit_children t best queue (child ∷ children) =
    let skip = visit_children t best queue children in
    if not (coherent t child) then skip else elim (lookup child t.tree) [
      | none ↦ skip
      | some e ↦
          visit_children t (if ltb best.1 (entry_round e) then (child, entry_round e) else best)
            (queue ++ (child ∷ [])) children
    ]

abbrev kids_of : BlockTree → BlockId → List BlockId
kids_of t id =
    if id == t.root.block_id
    then t.root_kids
    else elim (lookup id t.tree) [ none ↦ [] | some e ↦ e.children_blocks ]

pub descendant_loop : ℕ → BlockTree → BlockId × Round → List BlockId → Walk BlockId
unfolding visit_children
descendant_loop zero t best queue = stuck
descendant_loop (suc fuel) t best [] = found best.0
descendant_loop (suc fuel) t best (cur ∷ queue) =
    let next = visit_children t best queue (kids_of t cur) in descendant_loop fuel t next.0 next.1

pub highest_round_coherent_descendant : ℕ → BlockTree → BlockId → Walk BlockId
highest_round_coherent_descendant fuel t id =
    if id == t.root.block_id
    then descendant_loop fuel t (id, t.root.round) (id ∷ [])
    else elim (lookup id t.tree) [
      | none ↦ found id
      | some e ↦ descendant_loop fuel t (id, entry_round e) (id ∷ [])
    ]

module _ (get_id : ConsensusBlockHeader → BlockId) where
  -- The last block of a list that is coherent.
  pub last_coherent : BlockTree → List ConsensusFullBlock → Option ConsensusFullBlock
  last_coherent t [] = none
  last_coherent t (b ∷ bs) = elim (last_coherent t bs) [
    | some x ↦ some x
    | none ↦ if coherent t (get_id b.header) then some b else none
  ]

  pub get_highest_coherent_block_on_path_from_root : BlockTree → BlockId → Walk ConsensusFullBlock
  unfolding last_coherent
  get_highest_coherent_block_on_path_from_root t b = elim (get_blocks_on_path_from_root t b) [
    | stuck ↦ stuck
    | nil ↦ nil
    | found path ↦ elim (last_coherent t path) [ none ↦ nil | some x ↦ found x ]
  ]

  pub get_canonical_coherent_tip : ℕ → BlockTree → QuorumCertificate → Walk BlockId
  get_canonical_coherent_tip fuel t qc = elim (get_blocks_on_path_from_root t qc.info.id) [
    | stuck ↦ stuck
    | nil ↦ highest_round_coherent_descendant fuel t t.root.block_id
    | found path ↦ elim (last_coherent t path) [
      | none ↦ found t.root.block_id
      | some x ↦
          if get_id x.header == qc.info.id
          then highest_round_coherent_descendant fuel t (get_id x.header)
          else found (get_id x.header)
    ]
  ]
