-- ===== src/BlockTree/Wiring.antt =====
-- blocktree/blocktree.go: the lists of children and the index of bodies agree with the blocks, and Add
-- keeps them so.
use monadbft_go.Base.{
  ℕ, ◌≡◌, ◌≢◌, refl, sym, subst, ap, ◌∙◌, ◌⊎◌, inl, inr, arith, Bool, true, false, ◌&&◌, ◌||◌,
  Option, none, some, List, [], ◌∷◌, ◌++◌, ◌==◌, ==_iff, if◌then◌else◌, Option-cases, Bool-cases,
}
use monadbft_go.Base.Table.{lookup, insert, nat_eq, lookup-insert}
use monadbft_go.Base.Sets.{contains, contains-append}
use monadbft_go.Types.{BlockId, Hash}
use monadbft_go.Cstypes.Certs.{ConsensusBlockHeader, ConsensusFullBlock}
use monadbft_go.BlockTree.{
  BlockTree, BlockTreeEntry, BlockBodyIndex, RootInfo, parent_id, entry_parent, adopt,
  is_valid_to_insert, insert_block, add, children_of, retain_payload, new,
}
use monadbft_go.BlockTree.Invariant.{Inv, view}
use monadbft_go.BlockTree.Commit.Effect.{test_of, contains-ids_where}
use monadbft_go.BlockTree.Growth.{
  Fits, view-insert_block, valid_view, insert_block-Inv, with_kids, with_kids-Inv, add_valid,
  add_invalid, insert_block-root,
}

abbrev names : BlockId → Option (ConsensusFullBlock × Bool) → Bool
names p none = false
names p (some (b, c)) = parent_id b == p

-- The block `c` stands in the tree and names `p` as its parent.
abbrev pub is_child : BlockTree → BlockId → BlockId → Bool
is_child t p c = names p (view t c)

abbrev has : Hash → Option (ConsensusFullBlock × Bool) → Bool
has pid none = false
has pid (some (b, c)) = b.header.block_body_id == pid

-- The block `id` stands in the tree and has the body `pid`.
abbrev pub has_body : BlockTree → Hash → BlockId → Bool
has_body t pid id = has pid (view t id)

abbrev users : BlockId → Option BlockBodyIndex → Bool
users id none = false
users id (some idx) = contains id idx.active_blocks

-- The index holds the body `pid` for the block `id`.
abbrev pub holds : Hash → BlockId → List (Hash × BlockBodyIndex) → Bool
holds pid id payloads = users id (lookup pid payloads)

-- The children of an entry and of the root are the blocks that name it, and a body is held for the blocks
-- that have it.
pub record Wired (t : BlockTree) : Type 0 where
  pub children :
      (k : BlockId) (e : BlockTreeEntry) (c : BlockId)
      → lookup k t.tree ≡ some e
      → contains c e.children_blocks ≡ is_child t k c
  pub kids : (c : BlockId) → contains c t.root_kids ≡ is_child t t.root.block_id c
  pub held : (pid : Hash) (id : BlockId) → holds pid id t.payloads ≡ has_body t pid id

pub new-Wired : (r : RootInfo) → Wired (new r)
unfolding new lookup
new-Wired r = record { children = λ k e c h. absurd cc; kids = λ c. refl; held = λ p i. refl }

holds-retain_payload :
    (pid p : Hash) (nid id : BlockId) (body : List ℕ) (payloads : List (Hash × BlockBodyIndex))
    → holds p id (retain_payload pid nid body payloads)
      ≡ (holds p id payloads || ((pid == p) && (nid == id)))
unfolding retain_payload
holds-retain_payload pid p nid id body payloads = elim (Option-cases (lookup pid payloads)) [
  | inl n ↦
      let x = lookup-insert p pid (record { body = body; active_blocks = nid ∷ [] }) payloads in
      elim (Bool-cases (pid == p)) [
        | inl q ↦ ground (arith, n, q, x, ap (λ (y : Hash). lookup y payloads) ((==_iff pid p).0 q))
        | inr q ↦ ground (arith, n, q, x)
      ]
  | inr (idx, n) ↦ elim (Bool-cases (contains nid idx.active_blocks)) [
    | inl c ↦
        let x = lookup-insert p pid (record idx { active_blocks = idx.active_blocks }) payloads in
        elim (Bool-cases (pid == p)) [
          | inl q ↦ elim (Bool-cases (nid == id)) [
            | inl z ↦ ground (
              arith,
              n,
              q,
              c,
              z,
              x,
              ap (λ (y : Hash). lookup y payloads) ((==_iff pid p).0 q),
              ap (λ (y : BlockId). contains y idx.active_blocks) ((==_iff nid id).0 z),
            )
            | inr z ↦
                ground
                  (arith, n, q, c, z, x, ap (λ (y : Hash). lookup y payloads) ((==_iff pid p).0 q))
          ]
          | inr q ↦ ground (arith, n, q, c, x)
        ]
    | inr c ↦
        let x =
          lookup-insert p pid (record idx { active_blocks = nid ∷ idx.active_blocks }) payloads in
        elim (Bool-cases (pid == p)) [
          | inl q ↦
              ground (arith, n, q, c, x, ap (λ (y : Hash). lookup y payloads) ((==_iff pid p).0 q))
          | inr q ↦ ground (arith, n, q, c, x)
        ]
  ]
]

adopted :
    (pid nid k c : BlockId) (tree : List (BlockId × BlockTreeEntry)) (e : BlockTreeEntry)
    → lookup k (adopt pid nid tree) ≡ some e
    → (d : BlockTreeEntry) × (lookup k tree ≡ some d)
      × (contains c e.children_blocks
          ≡ (contains c d.children_blocks || ((pid == k) && (nid == c))))
unfolding adopt
adopted pid nid k c tree e h = elim (Option-cases (lookup pid tree)) [
  | inl n ↦ (
    e,
    ground (arith, n, h),
    elim (Bool-cases (pid == k)) [
      | inl q ↦
          absurd (ground (arith, n, h, ap (λ (y : BlockId). lookup y tree) ((==_iff pid k).0 q)))
      | inr q ↦ ground (arith, q)
    ],
  )
  | inr (pe, n) ↦
      let x =
        lookup-insert k pid (record pe { children_blocks = pe.children_blocks ++ (nid ∷ []) })
          tree in
      elim (Bool-cases (pid == k)) [
        | inl q ↦
            let same : record pe { children_blocks = pe.children_blocks ++ (nid ∷ []) } ≡ e =
              ground (arith, n, h, q, x) in
            (
              pe,
              ground (arith, n, ap (λ (y : BlockId). lookup y tree) ((==_iff pid k).0 q)),
              ground (
                arith,
                q,
                contains-append c pe.children_blocks (nid ∷ []),
                ap (λ (y : BlockTreeEntry). contains c y.children_blocks) same,
              ),
            )
        | inr q ↦ (e, ground (arith, n, h, q, x), ground (arith, q))
      ]
]

child_test :
    (t : BlockTree) (p c : BlockId)
    → test_of (λ y. entry_parent y == p) (lookup c t.tree) ≡ is_child t p c
child_test t p c = elim (Option-cases (lookup c t.tree)) [
  | inl n ↦ ground (arith, n)
  | inr (e, n) ↦ ground (arith, n)
]

module _ (get_id : ConsensusBlockHeader → BlockId) where
  grown_child :
      (t : BlockTree) (b : ConsensusFullBlock) (p c : BlockId)
      → view t (get_id b.header) ≡ none
      → is_child (insert_block get_id t b) p c
        ≡ (is_child t p c || ((parent_id b == p) && (get_id b.header == c)))
  grown_child t b p c absent = elim (Bool-cases (get_id b.header == c)) [
    | inl q ↦ ground (
      arith,
      q,
      view-insert_block get_id t b c,
      absent,
      ap (view t) ((==_iff (get_id b.header) c).0 q),
    )
    | inr q ↦ ground (arith, q, view-insert_block get_id t b c)
  ]

  grown_body :
      (t : BlockTree) (b : ConsensusFullBlock) (pid : Hash) (id : BlockId)
      → view t (get_id b.header) ≡ none
      → has_body (insert_block get_id t b) pid id
        ≡ (has_body t pid id || ((b.header.block_body_id == pid) && (get_id b.header == id)))
  grown_body t b pid id absent = elim (Bool-cases (get_id b.header == id)) [
    | inl q ↦ ground (
      arith,
      q,
      view-insert_block get_id t b id,
      absent,
      ap (view t) ((==_iff (get_id b.header) id).0 q),
    )
    | inr q ↦ ground (arith, q, view-insert_block get_id t b id)
  ]

  rooted :
      (t : BlockTree) (b : ConsensusFullBlock) (c : BlockId)
      → is_child (insert_block get_id t b) t.root.block_id c
        ≡ is_child (insert_block get_id t b) (insert_block get_id t b).root.block_id c
  rooted t b c =
      ap (λ r. is_child (insert_block get_id t b) r.block_id c) (sym (insert_block-root get_id t b))

  inserted_children :
      (t : BlockTree) (b : ConsensusFullBlock) (k : BlockId) (e : BlockTreeEntry) (c : BlockId)
      → Wired t
      → parent_id b ≢ get_id b.header
      → view t (get_id b.header) ≡ none
      → lookup k (insert_block get_id t b).tree ≡ some e
      → contains c e.children_blocks ≡ is_child (insert_block get_id t b) k c
  unfolding insert_block children_of
  inserted_children t b k e c w acyclic absent h =
      let nid = get_id b.header in
      let fresh : BlockTreeEntry = record {
        validated_block = b;
        is_coherent = false;
        children_blocks = children_of nid t.tree;
      } in
      let (d, l, q) = adopted (parent_id b) nid k c (insert nid fresh t.tree) e h in
      let x = lookup-insert k nid fresh t.tree in
      let g = grown_child t b k c absent in
      let same : contains c d.children_blocks ≡ is_child t k c = elim (Bool-cases (nid == k)) [
        | inl z ↦
            let f : fresh ≡ d = ground (arith, l, x, z) in
            ap (λ (y : BlockTreeEntry). contains c y.children_blocks) (sym f)
            ∙ contains-ids_where (λ y. entry_parent y == nid) t.tree c
            ∙ child_test t nid c
            ∙ ap (λ (y : BlockId). is_child t y c) ((==_iff nid k).0 z)
        | inr z ↦ w.children k d c (ground (arith, l, x, z))
      ] in
      q ∙ ap (λ y. y || ((parent_id b == k) && (nid == c))) same ∙ sym g

  insert_block-held :
      (t : BlockTree) (b : ConsensusFullBlock) (pid : Hash) (id : BlockId)
      → Wired t
      → view t (get_id b.header) ≡ none
      → holds pid id (insert_block get_id t b).payloads ≡ has_body (insert_block get_id t b) pid id
  unfolding insert_block
  insert_block-held t b pid id w absent =
      holds-retain_payload b.header.block_body_id pid (get_id b.header) id b.body t.payloads
      ∙ ap (λ y. y || ((b.header.block_body_id == pid) && (get_id b.header == id))) (w.held pid id)
      ∙ sym (grown_body t b pid id absent)

  insert_block-kids :
      (t : BlockTree) (b : ConsensusFullBlock) (c : BlockId)
      → Wired t
      → view t (get_id b.header) ≡ none
      → contains c (
          if parent_id b == t.root.block_id
          then t.root_kids ++ (get_id b.header ∷ [])
          else t.root_kids)
        ≡ is_child (insert_block get_id t b) t.root.block_id c
  insert_block-kids t b c w absent =
      let g = grown_child t b t.root.block_id c absent in
      elim (Bool-cases (parent_id b == t.root.block_id)) [
        | inl q ↦
            ground (arith, q, g, w.kids c, contains-append c t.root_kids (get_id b.header ∷ []))
        | inr q ↦ ground (arith, q, g, w.kids c)
      ]

  -- In a tree where blocks stand under their ids and each is newer than the root and than its certificate,
  -- whose round is no earlier than that of the block it names, adding a block of which the same holds with
  -- those it names and that name it keeps the tree of that form, and it keeps the lists of
  -- children, those of the root included, and the index of bodies in agreement with the blocks. A block
  -- already there, or not newer than the root, changes nothing; any other then stands in the tree,
  -- incoherent, and the root and the other blocks and their marks are as before.
  pub add-Inv :
      (t : BlockTree) (b : ConsensusFullBlock)
      → Inv get_id t
      → Wired t
      → Fits get_id t b
      → Inv get_id (add get_id t b)
        × Wired (add get_id t b)
        × (((is_valid_to_insert get_id t b.header ≡ false) × (add get_id t b ≡ t))
            ⊎ ((is_valid_to_insert get_id t b.header ≡ true)
                × ((add get_id t b).root ≡ t.root)
                × ((k : BlockId)
                    → view (add get_id t b) k
                      ≡ (if get_id b.header == k then some (b, false) else view t k))))
  add-Inv t b inv w f = elim (Bool-cases (is_valid_to_insert get_id t b.header)) [
    | inl h ↦
        let (absent, young) = valid_view get_id t b h in
        let kids =
          if parent_id b == t.root.block_id
          then t.root_kids ++ (get_id b.header ∷ [])
          else t.root_kids in
        let e = add_valid get_id t b h in
        let wired : Wired (with_kids get_id (insert_block get_id t b) kids) = record {
          children = λ k x c. inserted_children t b k x c w f.acyclic absent;
          kids = λ c. insert_block-kids t b c w absent ∙ rooted t b c;
          held = λ pid id. insert_block-held t b pid id w absent;
        } in
        (
          subst (Inv get_id) (sym e)
              (with_kids-Inv get_id _ kids (insert_block-Inv get_id t b inv f absent young)),
          subst Wired (sym e) wired,
          inr (
            h,
            ap (λ u. u.root) e ∙ insert_block-root get_id t b,
            λ k. ap (λ u. view u k) e ∙ view-insert_block get_id t b k,
          ),
        )
    | inr h ↦
        let e = add_invalid get_id t b h in
        (subst (Inv get_id) (sym e) inv, subst Wired (sym e) w, inl (h, e))
  ]
