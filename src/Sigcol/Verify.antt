-- ===== src/Sigcol/Verify.antt =====
-- sigcol/sigcol.go: Verify accepts what New makes, and answers with its signers.
use monadbft_go.Base.{
  ℕ, ◌≤◌, ◌≡◌, ap, ◌∙◌, inl, inr, arith, Bool, true, false, some, List, [], ◌∷◌, length, Bool-cases,
  List-cases, ◌==◌, ==_iff,
}
use monadbft_go.Base.Outcome.{ok, Outcome-cases}
use monadbft_go.Base.Table.{keys, nat_eq}
use monadbft_go.Base.Sets.{contains, IsDistinct}
use monadbft_go.Types.{NodeId}
use monadbft_go.Cstypes.Certs.{SignatureCollection}
use monadbft_go.Validator.Mapping.{ValidatorMapping, IsMapping}
use monadbft_go.Sigcol.{
  NodeSig, mark_signers, new_signer_map, signers_of, keyed, aggregate_keys, seal, localize,
  bad_signers, new_collection, verify_collection, max_signers_len,
}
use monadbft_go.Sigcol.New.{Known, length-new_signer_map, see_distinct, All-new}
use monadbft_go.Sigcol.Pairing.{Bls, IsBls, sum_keys, sum_sigs}
use monadbft_go.Sigcol.Marks.{signers_of-new_signer_map, marks, All-fresh}

module _ (bls : Bls) (domain : List ℕ) (mapping : ValidatorMapping) (msg : List ℕ) where
  -- What New returns for a signer and more.
  sealed_ok :
      (s : NodeSig) (sigs : List NodeSig) (bits : List Bool) (c : SignatureCollection)
      → seal bls domain mapping msg (s ∷ sigs) bits ≡ ok c
      → (c.signers ≡ bits)
        × (c.raw_sig ≡ sum_sigs bls (keyed mapping (s ∷ sigs)))
        × (bls.verify_sum domain msg
              (sum_keys bls (keyed mapping (s ∷ sigs)))
              (sum_sigs bls (keyed mapping (s ∷ sigs)))
            ≡ true)
  unfolding seal localize
  sealed_ok s sigs bits c e =
      elim (Bool-cases (
        bls.verify_sum domain msg (sum_keys bls (keyed mapping (s ∷ sigs)))
          (sum_sigs bls (keyed mapping (s ∷ sigs))))) [
            | inl v ↦ (ground (arith, e, v), ground (arith, e, v), v)
            | inr v ↦ elim (List-cases (bad_signers bls domain mapping (s ∷ sigs) msg)) [
              | inl n ↦ absurd (ground (arith, e, v, n))
              | inr (x, bad, n) ↦ absurd (ground (arith, e, v, n))
            ]
          ]

  accepts :
      (c : SignatureCollection) (signers : List NodeId)
      → length c.signers ≡ length mapping.node_ids
      → length mapping.node_ids ≤ max_signers_len
      → bls.is_point c.raw_sig ≡ true
      → signers_of mapping.node_ids c.signers ≡ some signers
      → (c.raw_sig == bls.infinity_sig) ≡ false
      → bls.verify_sum domain msg (aggregate_keys bls mapping signers) c.raw_sig ≡ true
      → verify_collection bls c domain mapping msg ≡ ok signers
  unfolding verify_collection
  accepts c signers a b p l n v = ground (arith, a, b, p, l, n, v)

  -- A signature that verifies is not the identity.
  not_infinity :
      (key sig : ℕ)
      → IsBls bls
      → bls.verify_sum domain msg key sig ≡ true
      → (sig == bls.infinity_sig) ≡ false
  not_infinity key sig laws v = elim (Bool-cases (sig == bls.infinity_sig)) [
    | inl q ↦
        absurd (cc (v, laws.verify_sum-infinity domain msg key, (==_iff sig bls.infinity_sig).0 q))
    | inr q ↦ q
  ]

  -- What New makes of one signer or more, distinct and known to a well-formed mapping of at most
  -- `max_signers_len` validators, Verify accepts over the same domain, mapping and message, and it answers with
  -- exactly the ids that signed. The library keeps its laws.
  pub verify-new_collection :
      (s : NodeSig) (sigs : List NodeSig) (c : SignatureCollection)
      → IsBls bls
      → IsMapping mapping
      → length mapping.node_ids ≤ max_signers_len
      → Known mapping (s ∷ sigs)
      → IsDistinct (keys (s ∷ sigs))
      → new_collection bls domain (s ∷ sigs) mapping msg ≡ ok c
      → (signers : List NodeId) × (verify_collection bls c domain mapping msg ≡ ok signers)
        × ((j : NodeId) → contains j signers ≡ contains j (keys (s ∷ sigs)))
  unfolding new_collection aggregate_keys sum_sigs
  verify-new_collection s sigs c laws w le k d e =
      let q = see_distinct mapping (s ∷ sigs) [] k d (All-new (s ∷ sigs)) in
      elim (Outcome-cases
        (mark_signers mapping (s ∷ sigs) (new_signer_map (length mapping.node_ids)))) [
          | inl (bits, m) ↦
              let (more, n, l, sum, h) =
                marks bls laws mapping (s ∷ sigs) (new_signer_map (length mapping.node_ids)) bits []
                  w k d (length-new_signer_map _) (signers_of-new_signer_map mapping.node_ids)
                  (All-fresh (s ∷ sigs)) m in
              let (b, r, v) = sealed_ok s sigs bits c (ground (arith, e, q, m)) in
              (
                more,
                accepts c more (ap length b ∙ n) le (ap bls.is_point r ∙ laws.add_sig_point _ _)
                    (ap (signers_of mapping.node_ids) b ∙ l)
                    (not_infinity (sum_keys bls (keyed mapping (s ∷ sigs))) c.raw_sig laws
                      (cc (r, v)))
                    (cc (
                      r,
                      v,
                      sum,
                      laws.add_key_comm (sum_keys bls (keyed mapping (s ∷ sigs))) bls.infinity_key,
                      laws.add_key_infinity (sum_keys bls (keyed mapping (s ∷ sigs))),
                    )),
                λ j. ground (arith, h j),
              )
          | inr (inl (x, m)) ↦ absurd (ground (arith, e, q, m))
          | inr (inr m) ↦ absurd (ground (arith, e, q, m))
        ]
