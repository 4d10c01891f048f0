-- ===== src/BlockTree/Commit/Effect.antt =====
-- blocktree/blocktree.go: what removals and the commit loop do to the tree.
use monadbft_go.Base.{
  ℕ, suc, ◌<◌, ◌≡◌, ◌≢◌, refl, ap, ◌∙◌, inl, inr, arith, Bool, true, false, Option, none, some,
  List, [], ◌∷◌, ◌++◌, map, ltb, ◌==◌, ==_iff, if◌then◌else◌, Option-cases, Bool-cases,
}
use monadbft_go.Base.Table.{lookup, has, keys, nat_eq, lookup-delete}
use monadbft_go.Base.Sets.{contains, contains-keep, contains-keys}
use monadbft_go.Types.{BlockId, Round}
use monadbft_go.Cstypes.Certs.{ConsensusBlockHeader, ConsensusFullBlock}
use monadbft_go.BlockTree.{BlockTree, BlockTreeEntry, remove, ids_where, entry_parent, entry_round}
use monadbft_go.BlockTree.Invariant.{view}
use monadbft_go.BlockTree.Commit.{done, commit_loop, remove_all, collect}

pub lookup-remove :
    (t : BlockTree) (id k : BlockId)
    → lookup k (remove t id).1.tree ≡ (if id == k then none else lookup k t.tree)
unfolding remove
lookup-remove t id k = elim (Option-cases (lookup id t.tree)) [
  | inl n ↦ elim (Bool-cases (id == k)) [
    | inl q ↦ ground (arith, n, ap (λ (x : BlockId). lookup x t.tree) ((==_iff id k).0 q))
    | inr q ↦ ground (arith, n)
  ]
  | inr (e, n) ↦ ground (arith, n, lookup-delete k id t.tree)
]

pub view-remove :
    (t : BlockTree) (id k : BlockId) → view (remove t id).1 k ≡ (if id == k then none else view t k)
view-remove t id k = ground (arith, lookup-remove t id k)

pub remove-root : (t : BlockTree) (id : BlockId) → (remove t id).1.root ≡ t.root
unfolding remove
remove-root t id = ground arith

pub remove-entry : (t : BlockTree) (id : BlockId) → (remove t id).0 ≡ lookup id t.tree
unfolding remove
remove-entry t id = ground arith

pub view-remove_all :
    (ids : List BlockId) (t : BlockTree) (k : BlockId)
    → view (remove_all ids t) k ≡ (if contains k ids then none else view t k)
unfolding remove_all
view-remove_all [] t k = refl
view-remove_all (id ∷ ids) t k =
    ground (arith, view-remove_all ids (remove t id).1 k, view-remove t id k)

abbrev pub test_of : (BlockTreeEntry → Bool) → Option BlockTreeEntry → Bool
test_of test none = false
test_of test (some e) = test e

pub contains-ids_where :
    (test : BlockTreeEntry → Bool) (tree : List (BlockId × BlockTreeEntry)) (k : BlockId)
    → contains k (ids_where test tree) ≡ test_of test (lookup k tree)
unfolding ids_where has
contains-ids_where test tree k = elim (Option-cases (lookup k tree)) [
  | inl n ↦ contains-keep k _ (keys tree) ∙ ground (arith, n, contains-keys k tree)
  | inr (e, n) ↦ contains-keep k _ (keys tree) ∙ ground (arith, n, contains-keys k tree)
]

-- Collecting drops exactly the entries whose certificate is older than the round.
abbrev pub is_old : Round → Option (ConsensusFullBlock × Bool) → Bool
is_old r none = false
is_old r (some (b, c)) = ltb b.header.qc.info.round r

abbrev is_old_entry : Round → BlockTreeEntry → Bool
is_old_entry r e = ltb e.validated_block.header.qc.info.round r

pub view-collect :
    (r : Round) (t : BlockTree) (k : BlockId)
    → view (collect r t) k ≡ (if is_old r (view t k) then none else view t k)
unfolding collect
view-collect r t k =
    view-remove_all (ids_where (is_old_entry r) t.tree) t k
    ∙ ground (arith, contains-ids_where (is_old_entry r) t.tree k)

pub remove_all-root : (ids : List BlockId) (t : BlockTree) → (remove_all ids t).root ≡ t.root
unfolding remove_all
remove_all-root [] t = refl
remove_all-root (id ∷ ids) t = remove_all-root ids (remove t id).1 ∙ remove-root t id

-- The three ways a round of the loop goes.
pub loop_last :
    (f : ℕ) (t : BlockTree) (e : BlockTreeEntry) (acc : List ConsensusFullBlock)
    → e.is_coherent ≡ true
    → entry_parent e ≡ t.root.block_id
    → commit_loop (suc f) t e acc ≡ done (acc ++ (e.validated_block ∷ []), t)
unfolding commit_loop
loop_last f t e acc c p = ground arith

pub loop_more :
    (f : ℕ) (t : BlockTree) (e p : BlockTreeEntry) (acc : List ConsensusFullBlock)
    → e.is_coherent ≡ true
    → entry_parent e ≢ t.root.block_id
    → lookup (entry_parent e) t.tree ≡ some p
    → commit_loop (suc f) t e acc
      ≡ commit_loop f (remove t (entry_parent e)).1 p (acc ++ (e.validated_block ∷ []))
unfolding commit_loop
loop_more f t e p acc c n l = ground (arith, remove-entry t (entry_parent e))

pub view-entry :
    (t : BlockTree) (id : BlockId) (b : ConsensusFullBlock) (c : Bool)
    → view t id ≡ some (b, c)
    → (e : BlockTreeEntry) × (lookup id t.tree ≡ some e)
      × (e.validated_block ≡ b)
      × (e.is_coherent ≡ c)
view-entry t id b c v = elim (Option-cases (lookup id t.tree)) [
  | inl n ↦ absurd (ground arith)
  | inr (e, n) ↦ (e, n, ground arith, ground arith)
]

-- While the loop runs, the tree that is left has the old one's entries below a round.
abbrev pub Same : ℕ → BlockTree → BlockTree → Type 0
Same n t u =
    (k : BlockId) (e : BlockTreeEntry)
    → lookup k t.tree ≡ some e
    → entry_round e < n
    → lookup k u.tree ≡ some e

abbrev pub ids_of : (ConsensusBlockHeader → BlockId) → List ConsensusFullBlock → List BlockId
ids_of get_id bs = map (λ b. get_id b.header) bs
