-- ===== src/BlockTree/Commit/Wires.antt =====
-- blocktree/blocktree.go: Prune keeps the lists of children and the index of bodies in agreement with the
-- blocks.
use monadbft_go.Base.{
  ◌≤◌, ◌≡◌, ◌⊎◌, refl, sym, ap, ◌∙◌, inl, inr, arith, Bool, not, ◌&&◌, some, List, [], ◌∷◌, ltb,
  ◌==◌, ==_iff, Option-cases, Bool-cases,
}
use monadbft_go.Base.Table.{lookup, nat_eq, lookup-insert, lookup-delete}
use monadbft_go.Base.Sets.{contains, erase, contains-erase}
use monadbft_go.Types.{BlockId, Hash, Round}
use monadbft_go.Cstypes.Certs.{ConsensusBlockHeader, ConsensusFullBlock}
use monadbft_go.BlockTree.{
  BlockTree, BlockTreeEntry, BlockBodyIndex, remove, release_payload, ids_where, parent_id,
  entry_round,
}
use monadbft_go.BlockTree.Invariant.{Inv, view, view_cases}
use monadbft_go.BlockTree.Wiring.{Wired, is_child, has_body, holds}
use monadbft_go.BlockTree.Paths.{Ancestry}
use monadbft_go.BlockTree.Commit.{remove_all, collect, root_info}
use monadbft_go.BlockTree.Commit.Effect.{lookup-remove, ids_of}
use monadbft_go.BlockTree.Commit.Keeps.{survives, kept}
use monadbft_go.BlockTree.Commit.Total.{pruned}

lookup-remove_all :
    (ids : List BlockId) (t : BlockTree) (k : BlockId) (e : BlockTreeEntry)
    → lookup k (remove_all ids t).tree ≡ some e
    → lookup k t.tree ≡ some e
unfolding remove_all
lookup-remove_all [] t k e h = h
lookup-remove_all (id ∷ ids) t k e h =
    let x = lookup-remove_all ids (remove t id).1 k e h in
    elim (Bool-cases (id == k)) [
      | inl q ↦ absurd (ground (arith, q, x, lookup-remove t id k))
      | inr q ↦ ground (arith, q, x, lookup-remove t id k)
    ]

empty_or_not :
    (xs : List BlockId) → (xs ≡ []) ⊎ ((y : BlockId) × (ys : List BlockId) × (xs ≡ y ∷ ys))
empty_or_not [] = inl refl
empty_or_not (y ∷ ys) = inr (y, ys, refl)

holds-release_payload :
    (pid p : Hash) (nid id : BlockId) (payloads : List (Hash × BlockBodyIndex))
    → holds p id (release_payload pid nid payloads)
      ≡ (holds p id payloads && not ((pid == p) && (nid == id)))
unfolding release_payload
holds-release_payload pid p nid id payloads = elim (Option-cases (lookup pid payloads)) [
  | inl n ↦ elim (Bool-cases (pid == p)) [
    | inl q ↦ ground (arith, n, q, ap (λ (y : Hash). lookup y payloads) ((==_iff pid p).0 q))
    | inr q ↦ ground (arith, n, q)
  ]
  | inr (idx, n) ↦
      let x = contains-erase id nid idx.active_blocks in
      elim (Bool-cases (pid == p)) [
        | inl q ↦
            let l = ap (λ (y : Hash). lookup y payloads) ((==_iff pid p).0 q) in
            elim (empty_or_not (erase nid idx.active_blocks)) [
              | inl z ↦
                  let c = ap (contains id) z in
                  ground (arith, n, q, x, l, z, c, lookup-delete p pid payloads)
              | inr (y, ys, z) ↦
                  let c = ap (contains id) z in
                  ground (
                    arith,
                    n,
                    q,
                    x,
                    l,
                    z,
                    c,
                    lookup-insert p pid (record idx { active_blocks = y ∷ ys }) payloads,
                  )
            ]
        | inr q ↦ elim (empty_or_not (erase nid idx.active_blocks)) [
          | inl z ↦ ground (arith, n, q, z, lookup-delete p pid payloads)
          | inr (y, ys, z) ↦
              ground (
                arith,
                n,
                q,
                z,
                lookup-insert p pid (record idx { active_blocks = y ∷ ys }) payloads,
              )
        ]
      ]
]

-- The index of bodies agrees with the blocks.
abbrev Held : BlockTree → Type 0
Held t = (pid : Hash) (id : BlockId) → holds pid id t.payloads ≡ has_body t pid id

remove-Held : (t : BlockTree) (k : BlockId) → Held t → Held (remove t k).1
unfolding remove
remove-Held t k h pid id = elim (Option-cases (lookup k t.tree)) [
  | inl n ↦ ground (arith, n, h pid id)
  | inr (e, n) ↦
      let x = holds-release_payload e.validated_block.header.block_body_id pid k id t.payloads in
      let y = lookup-delete id k t.tree in
      elim (Bool-cases (k == id)) [
        | inl q ↦
            let l = ap (λ (z : BlockId). lookup z t.tree) ((==_iff k id).0 q) in
            ground (arith, n, q, x, y, l, h pid id)
        | inr q ↦ ground (arith, n, q, x, y, h pid id)
      ]
]

remove_all-Held : (ids : List BlockId) (t : BlockTree) → Held t → Held (remove_all ids t)
unfolding remove_all
remove_all-Held [] t h = h
remove_all-Held (id ∷ ids) t h = remove_all-Held ids (remove t id).1 (remove-Held t id h)

collect-Held : (r : Round) (t : BlockTree) → Held t → Held (collect r t)
unfolding collect
collect-Held r t h =
    remove_all-Held (ids_where (λ e. ltb e.validated_block.header.qc.info.round r) t.tree) t h

lookup-collect :
    (r : Round) (t : BlockTree) (k : BlockId) (e : BlockTreeEntry)
    → lookup k (collect r t).tree ≡ some e
    → lookup k t.tree ≡ some e
unfolding collect
lookup-collect r t k e h =
    lookup-remove_all (ids_where (λ x. ltb x.validated_block.header.qc.info.round r) t.tree) t k e h

module _ (get_id : ConsensusBlockHeader → BlockId) where
  -- The children of a block no older than the new root are kept.
  is_child-pruned :
      (t : BlockTree) (id k : BlockId) (e : BlockTreeEntry) {path : List ConsensusFullBlock}
      (p : ConsensusFullBlock) (d : Bool) (c : BlockId)
      → Inv get_id t
      → lookup id t.tree ≡ some e
      → Ancestry t id path
      → view t k ≡ some (p, d)
      → entry_round e ≤ p.header.block_round
      → is_child (pruned get_id t e path) k c ≡ is_child t k c
  is_child-pruned t id k e {path} p d c inv l a v le =
      let u = pruned get_id t e path in
      elim (view_cases t c) [
        | inl n ↦ elim (view_cases u c) [
          | inl m ↦ ground (arith, n, m)
          | inr (x, y, m) ↦ absurd (ground (arith, n, (survives get_id t e path c x y m).0))
        ]
        | inr (b, f, w) ↦ elim (Bool-cases (parent_id b == k)) [
          | inl q ↦
              let up : view t (parent_id b) ≡ some (p, d) =
                ap (view t) ((==_iff (parent_id b) k).0 q) ∙ v in
              let stay =
                kept get_id t id c e b f inv l a w (omega (arith, le, inv.linked c b f p d w up)) in
              ground (arith, w, stay)
          | inr q ↦ elim (view_cases u c) [
            | inl m ↦ ground (arith, w, m, q)
            | inr (x, y, m) ↦ ground (arith, w, m, (survives get_id t e path c x y m).0)
          ]
        ]
      ]

  pub pruned-Wired :
      (t : BlockTree) (id : BlockId) (e : BlockTreeEntry) {path : List ConsensusFullBlock}
      → Inv get_id t
      → Wired t
      → lookup id t.tree ≡ some e
      → Ancestry t id path
      → get_id e.validated_block.header ≡ id
      → Wired (pruned get_id t e path)
  unfolding root_info
  pruned-Wired t id e {path} inv w l a self = record {
    children = λ k x c h.
        let m : lookup k t.tree ≡ some x =
          lookup-remove_all (ids_of get_id path) t k x
            (lookup-collect (entry_round e) (remove_all (ids_of get_id path) t) k x h) in
        let v : view t k ≡ some (x.validated_block, x.is_coherent) = ground (arith, m) in
        let s = survives get_id t e path k x.validated_block x.is_coherent (ground (arith, h)) in
        let le : entry_round e ≤ x.validated_block.header.block_round =
          omega (arith, s.1, inv.below k x.validated_block x.is_coherent v) in
        w.children k x c m
        ∙ sym (is_child-pruned t id k e x.validated_block x.is_coherent c inv l a v le);
    kids = λ c.
        w.children id e c l
        ∙ sym (
            is_child-pruned t id id e e.validated_block e.is_coherent c inv l a (ground (arith, l))
              (omega arith))
        ∙ ap (λ (x : BlockId). is_child (pruned get_id t e path) x c) (sym self);
    held =
        collect-Held (entry_round e) (remove_all (ids_of get_id path) t)
          (remove_all-Held (ids_of get_id path) t w.held);
  }
