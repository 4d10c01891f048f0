-- ===== src/BlockTree/Paths.antt =====
-- blocktree/blocktree.go: the path from the root, against a relation that defines it.
use monadbft_go.Base.{
  ℕ, zero, suc, ◌<◌, ◌≡◌, ◌≢◌, refl, sym, subst, ap, ◌∙◌, ◌⊎◌, inl, inr, arith, Bool, true, none,
  some, List, [], ◌∷◌, ◌++◌, ◌==◌, ==_iff, Option-cases, Bool-cases,
}
use mathlib.Core.List.{reverse, append_assoc}
use monadbft_go.Base.Table.{lookup, nat_eq}
use monadbft_go.Types.{BlockId}
use monadbft_go.Cstypes.Certs.{ConsensusBlockHeader, ConsensusFullBlock}
use monadbft_go.BlockTree.{BlockTree, parent_id}
use monadbft_go.BlockTree.Walk.{
  Walk, nil, found, walk_fuel, path_loop, get_blocks_on_path_from_root,
}
use monadbft_go.BlockTree.Invariant.{Inv, view, view_cases}

-- The blocks from `id` down to the one that names the root as its parent, newest first.
pub data Ancestry (t : BlockTree) : BlockId → List ConsensusFullBlock → Type 0 where
  last :
      {id : BlockId} {b : ConsensusFullBlock} {c : Bool}
      → view t id ≡ some (b, c)
      → parent_id b ≡ t.root.block_id
      → Ancestry t id (b ∷ [])
  more :
      {id : BlockId} {b : ConsensusFullBlock} {c : Bool} {bs : List ConsensusFullBlock}
      → view t id ≡ some (b, c)
      → parent_id b ≢ t.root.block_id
      → Ancestry t (parent_id b) bs
      → Ancestry t id (b ∷ bs)

-- One round of the loop, on each of its branches.
path_loop_nil :
    (f : ℕ) (t : BlockTree) (id : BlockId) (bs : List ConsensusFullBlock)
    → view t id ≡ none
    → path_loop (suc f) t id bs ≡ nil
unfolding path_loop
path_loop_nil f t id bs h = elim (Option-cases (lookup id t.tree)) [
  | inl n ↦ ground arith
  | inr (e, n) ↦ ground arith
]

path_loop_last :
    (f : ℕ) (t : BlockTree) (id : BlockId) (bs : List ConsensusFullBlock) (b : ConsensusFullBlock)
    (c : Bool)
    → view t id ≡ some (b, c)
    → parent_id b ≡ t.root.block_id
    → path_loop (suc f) t id bs ≡ found (reverse (bs ++ (b ∷ [])))
unfolding path_loop
path_loop_last f t id bs b c h p = elim (Option-cases (lookup id t.tree)) [
  | inl n ↦ ground arith
  | inr (e, n) ↦ ground arith
]

path_loop_more :
    (f : ℕ) (t : BlockTree) (id : BlockId) (bs : List ConsensusFullBlock) (b : ConsensusFullBlock)
    (c : Bool)
    → view t id ≡ some (b, c)
    → parent_id b ≢ t.root.block_id
    → path_loop (suc f) t id bs ≡ path_loop f t (parent_id b) (bs ++ (b ∷ []))
unfolding path_loop
path_loop_more f t id bs b c h p = elim (Option-cases (lookup id t.tree)) [
  | inl n ↦ ground arith
  | inr (e, n) ↦ ground arith
]

-- With fuel above the round of the block it starts at, the loop ends, with the ancestry.
abbrev pub Fueled : ℕ → BlockTree → BlockId → Type 0
Fueled f t id =
    (b : ConsensusFullBlock) (c : Bool) → view t id ≡ some (b, c) → b.header.block_round < f

-- What the loop may answer: nil and no ancestry, or an ancestry behind what it has collected.
pub data Answer (t : BlockTree) (id : BlockId) (bs : List ConsensusFullBlock)
    (r : Walk (List ConsensusFullBlock)) : Type 0 where
  broken : r ≡ nil → ((path : List ConsensusFullBlock) → ¬ Ancestry t id path) → Answer t id bs r
  whole :
      (path : List ConsensusFullBlock)
      → Ancestry t id path
      → r ≡ found (reverse (bs ++ path))
      → Answer t id bs r

no_view :
    {t : BlockTree} {id : BlockId} {path : List ConsensusFullBlock}
    → view t id ≡ none
    → ¬ Ancestry t id path
no_view n (last h p) = cc
no_view n (more h p a) = cc

no_parent :
    {t : BlockTree} {id : BlockId} {path : List ConsensusFullBlock} (b : ConsensusFullBlock)
    (c : Bool)
    → view t id ≡ some (b, c)
    → parent_id b ≢ t.root.block_id
    → ((rest : List ConsensusFullBlock) → ¬ Ancestry t (parent_id b) rest)
    → ¬ Ancestry t id path
no_parent b c v n none_behind (last {b = b'} h p) = n (ap parent_id same ∙ p)
  where
    same : b ≡ b'
    same = cc
no_parent {t} b c v n none_behind (more {b = b'} {bs = bs} h p a) =
    none_behind bs (subst (λ x. Ancestry t (parent_id x) bs) same a)
  where
    same : b' ≡ b
    same = cc

step-Answer :
    (t : BlockTree) (id : BlockId) (bs : List ConsensusFullBlock) (b : ConsensusFullBlock)
    (c : Bool) (r : Walk (List ConsensusFullBlock))
    → view t id ≡ some (b, c)
    → parent_id b ≢ t.root.block_id
    → Answer t (parent_id b) (bs ++ (b ∷ [])) r
    → Answer t id bs r
step-Answer t id bs b c r v n (broken e none_behind) =
    broken e (λ path. no_parent b c v n none_behind)
step-Answer t id bs b c r v n (whole path a e) =
    whole (b ∷ path) (more v n a) (e ∙ ap (λ l. found (reverse l)) (append_assoc bs (b ∷ []) path))

pub Fueled-parent :
    (get_id : ConsensusBlockHeader → BlockId) (f : ℕ) (t : BlockTree) (id : BlockId)
    (b : ConsensusFullBlock) (c : Bool)
    → Inv get_id t
    → view t id ≡ some (b, c)
    → Fueled (suc f) t id
    → Fueled f t (parent_id b)
Fueled-parent get_id f t id b c inv v fuel p d w =
    omega (arith, inv.linked id b c p d v w, inv.below id b c v, fuel b c v)

path_loop-Answer :
    (get_id : ConsensusBlockHeader → BlockId) (f : ℕ) (t : BlockTree) (id : BlockId)
    (bs : List ConsensusFullBlock)
    → Inv get_id t
    → 0 < f
    → Fueled f t id
    → Answer t id bs (path_loop f t id bs)
path_loop-Answer get_id zero t id bs inv pos fuel = absurd (omega arith)
path_loop-Answer get_id (suc f) t id bs inv pos fuel = elim (view_cases t id) [
  | inl n ↦ broken (path_loop_nil f t id bs n) (λ path. no_view n)
  | inr (b, c, v) ↦ elim (Bool-cases (parent_id b == t.root.block_id)) [
    | inl p ↦
        whole (b ∷ []) (last v ((==_iff _ _).0 p))
          (path_loop_last f t id bs b c v ((==_iff _ _).0 p))
    | inr p ↦
        let n : parent_id b ≢ t.root.block_id = ground arith in
        subst (Answer t id bs) (sym (path_loop_more f t id bs b c v n)) (
          step-Answer t id bs b c _ v n (
            path_loop-Answer get_id f t (parent_id b) (bs ++ (b ∷ [])) inv
              (omega (arith, inv.newer id b c v, fuel b c v))
              (Fueled-parent get_id f t id b c inv v fuel)))
  ]
]

pub walk_fuel-Fueled :
    (t : BlockTree) (id : BlockId) → (0 < walk_fuel t id) × Fueled (walk_fuel t id) t id
unfolding walk_fuel
walk_fuel-Fueled t id = elim (Option-cases (lookup id t.tree)) [
  | inl n ↦ (ground (arith, n), λ b c v. ground (arith, n))
  | inr (e, n) ↦ (ground (arith, n), λ b c v. ground (arith, n))
]

-- On a tree where each block is newer than the root and than its certificate, whose round is no earlier than that
-- of the block it names (it is later if that block was proposed again),
-- the walk from any id ends. It gives the empty path at the root, the ancestry of
-- the id with the lowest block first where there is one, and nil exactly where there is none.
pub get_blocks_on_path_from_root_lem :
    (get_id : ConsensusBlockHeader → BlockId) (t : BlockTree) (id : BlockId)
    → Inv get_id t
    → ((id ≡ t.root.block_id) × (get_blocks_on_path_from_root t id ≡ found []))
      ⊎ ((id ≢ t.root.block_id) × Answer t id [] (get_blocks_on_path_from_root t id))
unfolding get_blocks_on_path_from_root
get_blocks_on_path_from_root_lem get_id t id inv = elim (Bool-cases (id == t.root.block_id)) [
  | inl e ↦ inl ((==_iff _ _).0 e, rw e)
  | inr e ↦
      let (pos, fuel) = walk_fuel-Fueled t id in
      inr (ground arith, rw e (path_loop-Answer get_id (walk_fuel t id) t id [] inv pos fuel))
]

-- The same where every block is coherent.
pub data Trunk (t : BlockTree) : BlockId → List ConsensusFullBlock → Type 0 where
  last_coherent :
      {id : BlockId} {b : ConsensusFullBlock}
      → view t id ≡ some (b, true)
      → parent_id b ≡ t.root.block_id
      → Trunk t id (b ∷ [])
  more_coherent :
      {id : BlockId} {b : ConsensusFullBlock} {bs : List ConsensusFullBlock}
      → view t id ≡ some (b, true)
      → parent_id b ≢ t.root.block_id
      → Trunk t (parent_id b) bs
      → Trunk t id (b ∷ bs)

pub Trunk-Ancestry :
    {t : BlockTree} {id : BlockId} {path : List ConsensusFullBlock}
    → Trunk t id path
    → Ancestry t id path
Trunk-Ancestry (last_coherent v p) = last v p
Trunk-Ancestry (more_coherent v n a) = more v n (Trunk-Ancestry a)

pub Trunk-head :
    {t : BlockTree} {id : BlockId} {path : List ConsensusFullBlock}
    → Trunk t id path
    → (b : ConsensusFullBlock) × (rest : List ConsensusFullBlock) × (view t id ≡ some (b, true))
      × (path ≡ b ∷ rest)
Trunk-head (last_coherent {b = b} v p) = (b, [], v, refl)
Trunk-head (more_coherent {b = b} {bs = bs} v n a) = (b, bs, v, refl)

pub Ancestry-view :
    {t : BlockTree} {id : BlockId} {path : List ConsensusFullBlock}
    → Ancestry t id path
    → (b : ConsensusFullBlock) × (c : Bool) × (view t id ≡ some (b, c))
Ancestry-view (last {b = b} {c = c} v p) = (b, c, v)
Ancestry-view (more {b = b} {c = c} v n a) = (b, c, v)
