-- ===== src/BlockTree/Examples.antt =====
-- blocktree/blocktree.go: a chain of two blocks over the root, where the id of a block is its round; block 2
-- was proposed again and certified in round 4.
use monadbft_go.Base.{
  ◌≡◌, ◌≢◌, ◌⊎◌, refl, Bool, true, false, some, [], ◌∷◌, arith, ◌==◌, if◌then◌else◌,
}
use mathlib.Core.List.{reverse}
use monadbft_go.Base.Table.{lookup, nat_eq}
use monadbft_go.Types.{Round, BlockId}
use monadbft_go.Cstypes.Certs.{ConsensusBlockHeader, ConsensusFullBlock, QuorumCertificate}
use monadbft_go.BlockTree.{BlockTree, RootInfo, add, is_valid_to_insert, parent_id}
use monadbft_go.BlockTree.Walk.{get_blocks_on_path_from_root, found}
use monadbft_go.BlockTree.Commit.{prune, done}
use monadbft_go.BlockTree.Invariant.{Inv, view}
use monadbft_go.BlockTree.Paths.{last_coherent, Answer, get_blocks_on_path_from_root_lem}
use monadbft_go.BlockTree.Growth.{Fits}
use monadbft_go.BlockTree.Wiring.{Wired, add-Inv}
use monadbft_go.BlockTree.Commit.Chain.{Extends, Pruned, prune-Inv}

abbrev get_id : ConsensusBlockHeader → BlockId
get_id h = h.block_round

-- A block of round `r` over the block of round `p`, which was certified in round `v`.
abbrev block : Round → Round → Round → ConsensusFullBlock
block r p v = record {
  header = record {
    block_round = r;
    epoch = 1;
    qc = record {
      info = record { id = p; round = v; epoch = 1 };
      signatures = record { signers = []; raw_sig = 0 };
    };
    author = 1;
    seq_num = r;
    timestamp_ns = r;
    round_signature = 0;
    delayed_execution_results = [];
    execution_inputs = [];
    block_body_id = 0;
    base_fee = 0;
    base_fee_trend = 0;
    base_fee_moment = 0;
  };
  body = [];
}

abbrev root : RootInfo
root = record { round = 1; seq_num = 1; epoch = 1; block_id = 1; timestamp_ns = 1 }

abbrev chain : BlockTree
chain = record {
  root = root;
  root_kids = 2 ∷ [];
  tree =
      (2, record { validated_block = block 2 1 1; is_coherent = true; children_blocks = 5 ∷ [] })
      ∷ (5, record { validated_block = block 5 2 4; is_coherent = true; children_blocks = [] })
      ∷ [];
  payloads = (0, record { body = []; active_blocks = 5 ∷ 2 ∷ [] }) ∷ [];
}

-- What stands in the chain.
chain_cases :
    (id : BlockId) (b : ConsensusFullBlock) (c : Bool)
    → view chain id ≡ some (b, c)
    → ((id ≡ 2) × (b ≡ block 2 1 1) × (c ≡ true)) ⊎ ((id ≡ 5) × (b ≡ block 5 2 4) × (c ≡ true))
unfolding lookup
chain_cases id b c h = ground arith

chain_2 : view chain 2 ≡ some (block 2 1 1, true)
unfolding lookup
chain_2 = refl

chain-Inv : Inv get_id chain
chain-Inv = record {
  keyed = λ id b c h. ground (arith, chain_cases id b c h);
  below = λ id b c h. ground (arith, chain_cases id b c h);
  linked = λ id b c p d h g. ground (arith, chain_cases id b c h, chain_cases (parent_id b) p d g);
  newer = λ id b c h. ground (arith, chain_cases id b c h);
}

get_blocks_on_path_from_root_lem_example :
    ((5 ≡ chain.root.block_id) × (get_blocks_on_path_from_root chain 5 ≡ found []))
    ⊎ ((5 ≢ chain.root.block_id) × Answer chain 5 [] (get_blocks_on_path_from_root chain 5))
get_blocks_on_path_from_root_lem_example = get_blocks_on_path_from_root_lem get_id chain 5 chain-Inv

block_6-Fits : Fits get_id chain (block 6 5 5)
block_6-Fits = record {
  below = omega arith;
  acyclic = λ h. omega arith;
  up = λ p d h. ground (arith, chain_cases 5 p d h);
  down = λ k x c h q. absurd (ground (arith, chain_cases k x c h));
}

chain-Wired : Wired chain
unfolding lookup
chain-Wired = record {
  children = λ k e c h. ground (arith, h);
  kids = λ c. ground arith;
  held = λ pid id. ground arith;
}

add-Inv_example :
    Inv get_id (add get_id chain (block 6 5 5))
    × Wired (add get_id chain (block 6 5 5))
    × (((is_valid_to_insert get_id chain (block 6 5 5).header ≡ false)
          × (add get_id chain (block 6 5 5) ≡ chain))
        ⊎ ((is_valid_to_insert get_id chain (block 6 5 5).header ≡ true)
            × ((add get_id chain (block 6 5 5)).root ≡ chain.root)
            × ((k : BlockId)
                → view (add get_id chain (block 6 5 5)) k ≡ (
                    if get_id (block 6 5 5).header == k
                    then some (block 6 5 5, false)
                    else view chain k))))
add-Inv_example = add-Inv get_id chain (block 6 5 5) chain-Inv chain-Wired block_6-Fits

prune-Inv_example :
    Extends get_id chain.root.block_id (reverse (block 2 1 1 ∷ [])) 2
    × ((u : BlockTree) × (prune get_id chain 2 ≡ done (reverse (block 2 1 1 ∷ []), u))
        × Pruned get_id chain 2 u)
prune-Inv_example =
    prune-Inv get_id chain 2 (block 2 1 1 ∷ []) chain-Inv chain-Wired (λ h. omega arith)
      (last_coherent chain_2 refl)

-- A certificate for a block that is not there.
abbrev ahead : QuorumCertificate
ahead = (block 9 7 7).header.qc
