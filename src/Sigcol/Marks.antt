-- ===== src/Sigcol/Marks.antt =====
-- sigcol/sigcol.go: the bits that New sets, read back by Verify.
use monadbft_go.Base.{
  ℕ, zero, suc, ◌≡◌, refl, sym, ap, subst, ◌∙◌, inl, inr, arith, Bool, true, false, ◌||◌, some,
  List, [], ◌∷◌, if◌then◌else◌, length, get_elem?, All, Option-cases, ◌==◌,
}
use monadbft_go.Base.Outcome.{ok}
use monadbft_go.Base.Table.{keys, nat_eq}
use monadbft_go.Base.Sets.{contains, IsDistinct}
use monadbft_go.Types.{NodeId}
use monadbft_go.Validator.ValidatorSet.Index.{index_in_lem}
use monadbft_go.Validator.Mapping.{ValidatorMapping, mapping_index, pub_key, IsMapping}
use monadbft_go.Sigcol.{
  NodeSig, set_bit, mark_signers, new_signer_map, signers_of, keyed, aggregate_keys,
}
use monadbft_go.Sigcol.New.{Known, contains_at}
use monadbft_go.Sigcol.Pairing.{Bls, IsBls, sum_keys}

pub signers_of-new_signer_map :
    (ids : List NodeId) → signers_of ids (new_signer_map (length ids)) ≡ some []
unfolding signers_of new_signer_map
signers_of-new_signer_map [] = refl
signers_of-new_signer_map (id ∷ ids) = ground (arith, signers_of-new_signer_map ids)

module _ (bls : Bls) (laws : IsBls bls) (mapping : ValidatorMapping) where
  -- What one signer more adds to a bit map.
  record Added (ids : List NodeId) (bits : List Bool) (i : ℕ) (id : NodeId) (ss : List NodeId)
      : Type 0 where
    bs : List Bool
    more : List NodeId
    sets : set_bit bits i ≡ some bs
    same_length : length bs ≡ length ids
    lists : signers_of ids bs ≡ some more
    sums :
        aggregate_keys bls mapping more
        ≡ bls.add_key (pub_key mapping id) (aggregate_keys bls mapping ss)
    has : (j : NodeId) → contains j more ≡ ((id == j) || contains j ss)

  swap : (x y z : ℕ) → bls.add_key x (bls.add_key y z) ≡ bls.add_key y (bls.add_key x z)
  swap x y z =
      sym (laws.add_key_assoc x y z)
      ∙ ap (λ w. bls.add_key w z) (laws.add_key_comm x y)
      ∙ laws.add_key_assoc y x z

  shape :
      (x : NodeId) (ids : List NodeId) (b : Bool) (bits : List Bool) (ss : List NodeId)
      → signers_of (x ∷ ids) (b ∷ bits) ≡ some ss
      → (rr : List NodeId) × (signers_of ids bits ≡ some rr) × (ss ≡ (if b then x ∷ rr else rr))
  unfolding signers_of
  shape x ids b bits ss s = elim (Option-cases (signers_of ids bits)) [
    | inl n ↦ absurd (ground (arith, s, n))
    | inr (rr, e) ↦ (rr, e, ground (arith, s, e))
  ]

  adds_here :
      (x : NodeId) (ids : List NodeId) (b : Bool) (bits : List Bool) (rr : List NodeId)
      → length bits ≡ length ids
      → contains x (if b then x ∷ rr else rr) ≡ false
      → signers_of ids bits ≡ some rr
      → Added (x ∷ ids) (b ∷ bits) zero x (if b then x ∷ rr else rr)
  unfolding signers_of set_bit aggregate_keys
  adds_here x ids true bits rr l c e = absurd (ground (arith, c, nat_eq.beq_iff x x))
  adds_here x ids false bits rr l c e = record {
    bs = true ∷ bits;
    more = x ∷ rr;
    sets = refl;
    same_length = ap suc l;
    lists = ground (arith, e);
    sums = refl;
    has = λ j. refl;
  }

  adds_later :
      (x : NodeId) (ids : List NodeId) (b : Bool) (bits : List Bool) (i : ℕ) (id : NodeId)
      (rr : List NodeId)
      → Added ids bits i id rr
      → Added (x ∷ ids) (b ∷ bits) (suc i) id (if b then x ∷ rr else rr)
  unfolding signers_of set_bit aggregate_keys
  adds_later x ids false bits i id rr r = record {
    bs = false ∷ r.bs;
    more = r.more;
    sets = ground (arith, r.sets);
    same_length = ap suc r.same_length;
    lists = ground (arith, r.lists);
    sums = r.sums;
    has = r.has;
  }
  adds_later x ids true bits i id rr r = record {
    bs = true ∷ r.bs;
    more = x ∷ r.more;
    sets = ground (arith, r.sets);
    same_length = ap suc r.same_length;
    lists = ground (arith, r.lists);
    sums = ap (λ k. bls.add_key (pub_key mapping x) k) r.sums ∙ swap _ _ _;
    has = λ j. ground (arith, r.has j);
  }

  adds :
      (ids : List NodeId) (bits : List Bool) (i : ℕ) (id : NodeId) (ss : List NodeId)
      → get_elem? ids i ≡ some id
      → length bits ≡ length ids
      → signers_of ids bits ≡ some ss
      → contains id ss ≡ false
      → Added ids bits i id ss
  adds [] bits i id ss g l s c = absurd cc
  adds (x ∷ ids) [] i id ss g l s c = absurd (omega arith)
  adds (x ∷ ids) (b ∷ bits) zero id ss g l s c =
      let (rr, e, q) = shape x ids b bits ss s in
      let p : x ≡ id = cc in
      subst (Added (x ∷ ids) (b ∷ bits) zero id) (sym q) (
        subst (λ y. Added (x ∷ ids) (b ∷ bits) zero y (if b then x ∷ rr else rr)) p
          (adds_here x ids b bits rr (omega arith)
            (subst (λ y. contains y (if b then x ∷ rr else rr) ≡ false) (sym p)
              (subst (λ t. contains id t ≡ false) q c))
            e))
  adds (x ∷ ids) (b ∷ bits) (suc i) id ss g l s c =
      let (rr, e, q) = shape x ids b bits ss s in
      subst (Added (x ∷ ids) (b ∷ bits) (suc i) id) (sym q) (
        adds_later x ids b bits i id rr
          (adds ids bits i id rr g (omega arith) e (ground (arith, c, q))))

  still_fresh :
      (id : NodeId) (sigs : List NodeSig) (ss more : List NodeId)
      → contains id (keys sigs) ≡ false
      → All (λ s. contains s.0 ss ≡ false) sigs
      → ((j : NodeId) → contains j more ≡ ((id == j) || contains j ss))
      → All (λ s. contains s.0 more ≡ false) sigs
  still_fresh id [] ss more c f h = tt
  still_fresh id (s ∷ sigs) ss more c f h = (
    ground (arith, c, f.0, h s.0, nat_eq.beq_iff s.0 id, nat_eq.beq_iff id s.0),
    still_fresh id sigs ss more (ground (arith, c)) f.1 h,
  )

  -- Marking distinct signers that are known and not yet marked.
  pub marks :
      (sigs : List NodeSig) (bits bs : List Bool) (ss : List NodeId)
      → IsMapping mapping
      → Known mapping sigs
      → IsDistinct (keys sigs)
      → length bits ≡ length mapping.node_ids
      → signers_of mapping.node_ids bits ≡ some ss
      → All (λ s. contains s.0 ss ≡ false) sigs
      → mark_signers mapping sigs bits ≡ ok bs
      → (more : List NodeId) × (length bs ≡ length mapping.node_ids)
        × (signers_of mapping.node_ids bs ≡ some more)
        × (aggregate_keys bls mapping more
            ≡ bls.add_key (sum_keys bls (keyed mapping sigs)) (aggregate_keys bls mapping ss))
        × ((j : NodeId) → contains j more ≡ (contains j (keys sigs) || contains j ss))
  unfolding mark_signers mapping_index sum_keys
  marks [] bits bs ss w k d l s f e = (ss, cc, cc, sym (laws.add_key_infinity _), λ j. refl)
  marks ((id, sig) ∷ sigs) bits bs ss w k d l s f e =
      let (i, g, lt) = contains_at id mapping.node_ids (w.same id ∙ k.0) in
      let at = (index_in_lem mapping.node_ids id i w.increasing).1 g in
      let a = adds mapping.node_ids bits i id ss g l s f.0 in
      let (more, n, m, sum, h) =
        marks sigs a.bs bs a.more w k.1 d.1 a.same_length a.lists
          (still_fresh id sigs ss a.more d.0 f.1 a.has) (ground (arith, e, at, a.sets)) in
      (
        more,
        n,
        m,
        sum
            ∙ ap (bls.add_key (sum_keys bls (keyed mapping sigs))) a.sums
            ∙ swap _ _ _
            ∙ sym (laws.add_key_assoc _ _ _),
        λ j. ground (arith, h j, a.has j),
      )

pub All-fresh : (sigs : List NodeSig) → All (λ s. contains s.0 [] ≡ false) sigs
All-fresh [] = tt
All-fresh (s ∷ sigs) = (refl, All-fresh sigs)
