-- ===== src/BlockTree/Commit/Loop.antt =====
-- blocktree/blocktree.go: the commit loop follows the ancestry of the new root.
use monadbft_go.Base.{
  ℕ, zero, suc, ◌<◌, ◌≡◌, ◌≢◌, sym, subst, ap, ap₂, ◌∙◌, arith, true, some, List, [], ◌∷◌, ◌++◌,
  drop,
}
use mathlib.Core.List.{append_assoc}
use monadbft_go.Base.Table.{lookup, nat_eq}
use monadbft_go.Types.{BlockId}
use monadbft_go.Cstypes.Certs.{ConsensusBlockHeader, ConsensusFullBlock}
use monadbft_go.BlockTree.{BlockTree, BlockTreeEntry, parent_id, remove, entry_parent, entry_round}
use monadbft_go.BlockTree.Invariant.{Inv, view}
use monadbft_go.BlockTree.Paths.{Trunk, last_coherent, more_coherent, Trunk-head}
use monadbft_go.BlockTree.Commit.{done, commit_loop, remove_all}
use monadbft_go.BlockTree.Commit.Effect.{
  lookup-remove, remove-root, loop_last, loop_more, view-entry, Same, ids_of,
}

pub Same-remove :
    (t u : BlockTree) (id : BlockId) (p : BlockTreeEntry) (n : ℕ)
    → lookup id t.tree ≡ some p
    → entry_round p < n
    → Same n t u
    → Same (entry_round p) t (remove u id).1
Same-remove t u id p n l h s k e m lt =
    lookup-remove u id k
    ∙ ground (arith, s k e m (omega arith), ap (λ (x : BlockId). lookup x t.tree))

-- The ids of a non-empty path are removed one after the other.
pub remove_path :
    (get_id : ConsensusBlockHeader → BlockId) (u : BlockTree) (id : BlockId)
    (d : ConsensusFullBlock) (bs rest : List ConsensusFullBlock)
    → bs ≡ d ∷ rest
    → get_id d.header ≡ id
    → remove_all (ids_of get_id (drop 1 bs)) (remove u id).1 ≡ remove_all (ids_of get_id bs) u
unfolding remove_all
remove_path get_id u id d bs rest e k =
    subst
      (λ l. remove_all (ids_of get_id (drop 1 l)) (remove u id).1 ≡ remove_all (ids_of get_id l) u)
      (sym e) (ap (λ x. remove_all (ids_of get_id rest) (remove u x).1) (sym k))

-- The parent's entry, where the path goes on.
parent_entry :
    (get_id : ConsensusBlockHeader → BlockId) (t : BlockTree) (id : BlockId) (e : BlockTreeEntry)
    {bs : List ConsensusFullBlock}
    → Inv get_id t
    → lookup id t.tree ≡ some e
    → e.is_coherent ≡ true
    → Trunk t (entry_parent e) bs
    → (p : BlockTreeEntry) × (rest : List ConsensusFullBlock) × (lookup (entry_parent e) t.tree
        ≡ some p)
      × (p.is_coherent ≡ true)
      × (entry_round p < entry_round e)
      × (get_id p.validated_block.header ≡ entry_parent e)
      × (bs ≡ p.validated_block ∷ rest)
parent_entry get_id t id e inv l c a =
    let v : view t id ≡ some (e.validated_block, true) = ground arith in
    let (d, rest, w, q) = Trunk-head a in
    let (p, m, x, y) = view-entry t (entry_parent e) d true w in
    (
      p,
      rest,
      m,
      y,
      ground (
        arith,
        inv.linked id e.validated_block true d true v w,
        inv.below id e.validated_block true v,
      ),
      ap (λ b. get_id b.header) x ∙ inv.keyed (entry_parent e) d true w,
      q ∙ ap (λ b. b ∷ rest) (sym x),
    )

pub loop_lem :
    (get_id : ConsensusBlockHeader → BlockId) (f : ℕ) (t u : BlockTree) (id : BlockId)
    (e : BlockTreeEntry) (acc : List ConsensusFullBlock) {path : List ConsensusFullBlock}
    → Inv get_id t
    → u.root ≡ t.root
    → lookup id t.tree ≡ some e
    → e.is_coherent ≡ true
    → Trunk t id path
    → Same (entry_round e) t u
    → entry_round e < f
    → commit_loop f u e acc ≡ done (acc ++ path, remove_all (ids_of get_id (drop 1 path)) u)
unfolding remove_all
loop_lem get_id zero t u id e acc inv r l c a s h = absurd (omega arith)
loop_lem get_id (suc f) t u id e acc inv r l c (last_coherent {b = b} v p) s h =
    subst (λ x. commit_loop (suc f) u e acc ≡ done (acc ++ (x ∷ []), u)) same
      (loop_last f u e acc c (ap parent_id same ∙ p ∙ ap (λ x. x.block_id) (sym r)))
  where
    same : e.validated_block ≡ b
    same = ground arith
loop_lem get_id (suc f) t u id e acc inv r l c (more_coherent {b = b} {bs = bs} v n a) s h =
    let (p, rest, m, y, lt, k, q) = parent_entry get_id t id e inv l c a' in
    subst
      (λ x. commit_loop (suc f) u e acc ≡ done (acc ++ (x ∷ bs), remove_all (ids_of get_id bs) u))
      same
      (loop_more f u e p acc c (λ z. n' (z ∙ ap (λ x. x.block_id) r)) (s (entry_parent e) p m lt)
        ∙ loop_lem get_id f t (remove u (entry_parent e)).1 (entry_parent e) p
            (acc ++ (e.validated_block ∷ [])) inv (remove-root u (entry_parent e) ∙ r) m y a'
            (Same-remove t u (entry_parent e) p (entry_round e) m lt s) (omega (arith, lt, h))
        ∙ ap₂ (λ l x. done (l, x)) (append_assoc acc (e.validated_block ∷ []) bs)
            (remove_path get_id u (entry_parent e) p.validated_block bs rest q k))
  where
    same : e.validated_block ≡ b
    same = ground arith

    n' : entry_parent e ≢ t.root.block_id
    n' = subst (λ x. parent_id x ≢ t.root.block_id) (sym same) n

    a' : Trunk t (entry_parent e) bs
    a' = subst (λ x. Trunk t (parent_id x) bs) (sym same) a
