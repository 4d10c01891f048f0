-- ===== src/Sigcol/New.antt =====
-- sigcol/sigcol.go: New on the entries of a map.
use monadbft_go.Base.{
  ℕ, zero, suc, ◌<◌, ◌≡◌, ◌≢◌, refl, sym, ap, subst, ◌∙◌, ◌⊎◌, inl, inr, arith, Bool, true, false,
  not, none, some, List, [], ◌∷◌, ◌++◌, length, keep, All, get_elem?, All-append, List-cases,
  Bool-cases, Option-cases, ==_iff, ◌==◌,
}
use mathlib.Core.List.{append-nil, append_assoc}
use monadbft_go.Base.Outcome.{ok, err, Outcome-cases}
use monadbft_go.Base.Table.{keys, nat_eq, lookup}
use monadbft_go.Base.Sets.{contains, IsDistinct}
use monadbft_go.Types.{NodeId, Signature}
use monadbft_go.Cstypes.Certs.{SignatureCollection}
use monadbft_go.Validator.ValidatorSet.Index.{index_in_lem}
use monadbft_go.Validator.Mapping.{ValidatorMapping, mapping_has, mapping_index, pub_key, IsMapping}
use monadbft_go.Sigcol.{
  NodeSig, SigcolError, invalid_signatures_create, see, set_bit, mark_signers, new_signer_map,
  keyed, bad_signers, localize, seal, new_collection,
}
use monadbft_go.Sigcol.Pairing.{Bls, IsBls, AllVerify, sum_keys, sum_sigs}

-- What holds of the input holds of what was seen.
see-All :
    (P : NodeSig → Type 0) (mapping : ValidatorMapping) (sigs seen r : List NodeSig)
    → see mapping sigs seen ≡ ok r
    → All P sigs
    → All P seen
    → All P r
unfolding see
see-All P mapping [] seen r h a b = subst (All P) (cc) b
see-All P mapping ((id, sig) ∷ sigs) seen r h a b = elim (Bool-cases (mapping_has mapping id)) [
  | inr n ↦ absurd (ground (arith, h, n))
  | inl n ↦ elim (Option-cases (lookup id seen)) [
    | inl f ↦
        see-All P mapping sigs (seen ++ ((id, sig) ∷ [])) r (ground (arith, h, n, f)) a.1
          (All-append P seen ((id, sig) ∷ []) b (a.0, tt))
    | inr (prev, f) ↦ elim (Bool-cases (prev == sig)) [
      | inl q ↦ see-All P mapping sigs seen r (ground (arith, h, n, f, q)) a.1 b
      | inr q ↦ absurd (ground (arith, h, n, f, q))
    ]
  ]
]

-- Every id is known to the mapping.
abbrev pub Known : ValidatorMapping → List NodeSig → Type 0
Known mapping sigs = All (λ s. mapping_has mapping s.0 ≡ true) sigs

lookup_append :
    (k id : NodeId) (sig : Signature) (seen : List NodeSig)
    → lookup k seen ≡ none
    → (id == k) ≡ false
    → lookup k (seen ++ ((id, sig) ∷ [])) ≡ none
unfolding lookup
lookup_append k id sig [] h n = ground arith
lookup_append k id sig ((j, s) ∷ seen) h n = ground (arith, lookup_append k id sig seen)

stays_new :
    (id : NodeId) (sig : Signature) (sigs seen : List NodeSig)
    → contains id (keys sigs) ≡ false
    → All (λ s. lookup s.0 seen ≡ none) sigs
    → All (λ s. lookup s.0 (seen ++ ((id, sig) ∷ [])) ≡ none) sigs
stays_new id sig [] seen c f = tt
stays_new id sig ((j, s) ∷ sigs) seen c f =
    (lookup_append j id sig seen f.0 (ground arith), stays_new id sig sigs seen (ground arith) f.1)

pub All-new : (sigs : List NodeSig) → All (λ s. lookup {V = Signature} s.0 [] ≡ none) sigs
unfolding lookup
All-new [] = tt
All-new (s ∷ sigs) = (refl, All-new sigs)

-- Distinct known ids are all kept.
pub see_distinct :
    (mapping : ValidatorMapping) (sigs seen : List NodeSig)
    → Known mapping sigs
    → IsDistinct (keys sigs)
    → All (λ s. lookup s.0 seen ≡ none) sigs
    → see mapping sigs seen ≡ ok (seen ++ sigs)
unfolding see
see_distinct mapping [] seen k d f = ap ok (sym (append-nil seen))
see_distinct mapping ((id, sig) ∷ sigs) seen k d f =
    ground (arith, k.0, f.0)
    ∙ see_distinct mapping sigs (seen ++ ((id, sig) ∷ [])) k.1 d.1
        (stays_new id sig sigs seen d.0 f.1)
    ∙ ap ok (append_assoc seen ((id, sig) ∷ []) sigs)

-- Setting the bits of known ids never fails.
set_bit-some :
    (bits : List Bool) (i : ℕ)
    → i < length bits
    → (bs : List Bool) × (set_bit bits i ≡ some bs) × (length bs ≡ length bits)
unfolding set_bit
set_bit-some [] i h = absurd (omega arith)
set_bit-some (b ∷ bits) zero h = (true ∷ bits, refl, refl)
set_bit-some (b ∷ bits) (suc i) h =
    let (bs, e, l) = set_bit-some bits i (omega arith) in (b ∷ bs, ground (arith, e), omega arith)

pub contains_at :
    (id : NodeId) (ids : List NodeId)
    → contains id ids ≡ true
    → (i : ℕ) × (get_elem? ids i ≡ some id) × (i < length ids)
contains_at id [] h = absurd cc
contains_at id (j ∷ ids) h = elim (Bool-cases (j == id)) [
  | inl q ↦ (0, ap some ((==_iff j id).0 q), omega arith)
  | inr q ↦ let (i, e, l) = contains_at id ids (ground arith) in (suc i, e, omega arith)
]

pub mark_signers-some :
    (mapping : ValidatorMapping) (seen : List NodeSig) (bits : List Bool)
    → IsMapping mapping
    → Known mapping seen
    → length bits ≡ length mapping.node_ids
    → (bs : List Bool) × (mark_signers mapping seen bits ≡ ok bs)
unfolding mark_signers mapping_index
mark_signers-some mapping [] bits w k l = (bits, refl)
mark_signers-some mapping ((id, sig) ∷ seen) bits w k l =
    let (i, e, lt) = contains_at id mapping.node_ids (w.same id ∙ k.0) in
    let at = (index_in_lem mapping.node_ids id i w.increasing).1 e in
    let (bs, q, len) = set_bit-some bits i (omega arith) in
    let (out, r) = mark_signers-some mapping seen bs w k.1 (omega arith) in
    (out, ground (arith, at, q, r))

pub length-new_signer_map : (n : ℕ) → length (new_signer_map n) ≡ n
unfolding new_signer_map
length-new_signer_map zero = refl
length-new_signer_map (suc n) = omega (arith, length-new_signer_map n)

module _ (bls : Bls) (domain : List ℕ) (mapping : ValidatorMapping) (msg : List ℕ) where
  -- The test on each signature.
  abbrev pub good : NodeSig → Bool
  good s = bls.verify domain msg (pub_key mapping s.0) s.1

  -- On distinct known ids New comes down to the aggregate check.
  pub new_collection_distinct :
      (sigs : List NodeSig)
      → IsMapping mapping
      → Known mapping sigs
      → IsDistinct (keys sigs)
      → (bits : List Bool) × (new_collection bls domain sigs mapping msg
          ≡ seal bls domain mapping msg sigs bits)
  unfolding new_collection
  new_collection_distinct sigs w k d =
      let (bits, q) =
        mark_signers-some mapping sigs (new_signer_map (length mapping.node_ids)) w k
          (length-new_signer_map _) in
      (bits, ground (arith, see_distinct mapping sigs [] k d (All-new sigs), q))

  all_good :
      (sigs : List NodeSig)
      → bad_signers bls domain mapping sigs msg ≡ []
      → AllVerify bls domain msg (keyed mapping sigs)
  unfolding bad_signers
  all_good [] h = tt
  all_good ((id, sig) ∷ sigs) h = elim (Bool-cases (good (id, sig))) [
    | inl q ↦ (q, all_good sigs (ground (arith, h, q)))
    | inr q ↦ absurd (ground (arith, h, q))
  ]

  -- New seals the signatures, or names exactly those that do not verify; it cannot do neither unless
  -- the keys cancel out.
  pub seal_cases :
      (s : NodeSig) (sigs : List NodeSig) (bits : List Bool)
      → IsBls bls
      → sum_keys bls (keyed mapping (s ∷ sigs)) ≢ bls.infinity_key
      → ((c : SignatureCollection) × (seal bls domain mapping msg (s ∷ sigs) bits ≡ ok c))
        ⊎ ((b : NodeSig) × (bad : List NodeSig) × (keep (λ x. not (good x)) (s ∷ sigs) ≡ b ∷ bad)
            × (seal bls domain mapping msg (s ∷ sigs) bits
                ≡ err (invalid_signatures_create (b ∷ bad))))
  unfolding seal localize bad_signers
  seal_cases s sigs bits laws n =
      elim (Bool-cases (
        bls.verify_sum domain msg (sum_keys bls (keyed mapping (s ∷ sigs)))
          (sum_sigs bls (keyed mapping (s ∷ sigs))))) [
            | inl q ↦ inl (
              record { signers = bits; raw_sig = sum_sigs bls (keyed mapping (s ∷ sigs)) },
              ground (arith, q),
            )
            | inr q ↦ elim (List-cases (bad_signers bls domain mapping (s ∷ sigs) msg)) [
              | inl e ↦ absurd (
                  ground (
                    arith,
                    q,
                    laws.verify_sum_lem domain msg (pub_key mapping s.0) s.1 (keyed mapping sigs)
                        (all_good (s ∷ sigs) e) n,
                  ))
              | inr (b, bad, e) ↦ inr (b, bad, e, ground (arith, q, e))
            ]
          ]

  mark_signers-err :
      (seen : List NodeSig) (bits : List Bool) (x : SigcolError)
      → mark_signers mapping seen bits ≢ err x
  unfolding mark_signers
  mark_signers-err [] bits x h = cc
  mark_signers-err ((id, sig) ∷ seen) bits x h = elim (Option-cases (mapping_index mapping id)) [
    | inl n ↦ absurd (ground (arith, h, n))
    | inr (i, n) ↦ elim (Option-cases (set_bit bits i)) [
      | inl m ↦ absurd (ground (arith, h, n, m))
      | inr (bs, m) ↦ mark_signers-err seen bs x (ground (arith, h, n, m))
    ]
  ]

  see-create :
      (sigs seen bad : List NodeSig) → see mapping sigs seen ≢ err (invalid_signatures_create bad)
  unfolding see
  see-create [] seen bad h = cc
  see-create ((id, sig) ∷ sigs) seen bad h = elim (Option-cases (lookup id seen)) [
    | inl n ↦ see-create sigs (seen ++ ((id, sig) ∷ [])) bad (ground (arith, h, n))
    | inr (prev, n) ↦ see-create sigs seen bad (ground (arith, h, n))
  ]

  localized :
      (P : NodeSig → Type 0) (xs bad : List NodeSig)
      → localize (bad_signers bls domain mapping xs msg) ≡ err (invalid_signatures_create bad)
      → All P xs
      → (b : NodeSig) × (rest : List NodeSig) × (bad ≡ b ∷ rest) × P b
  unfolding localize bad_signers
  localized P [] bad h a = absurd (ground (arith, h))
  localized P (x ∷ xs) bad h a = elim (Bool-cases (good x)) [
    | inl q ↦ localized P xs bad (ground (arith, h, q)) a.1
    | inr q ↦ (x, bad_signers bls domain mapping xs msg, ground (arith, h, q), a.0)
  ]

  sealed :
      (P : NodeSig → Type 0) (xs bad : List NodeSig) (bits : List Bool)
      → seal bls domain mapping msg xs bits ≡ err (invalid_signatures_create bad)
      → All P xs
      → (b : NodeSig) × (rest : List NodeSig) × (bad ≡ b ∷ rest) × P b
  unfolding seal
  sealed P [] bad bits h a = absurd (ground (arith, h))
  sealed P (x ∷ xs) bad bits h a = localized P (x ∷ xs) bad (ground (arith, h)) a

  -- Where New blames signers, it blames at least one, and one of its input.
  pub new_collection-blames :
      (P : NodeSig → Type 0) (sigs bad : List NodeSig)
      → new_collection bls domain sigs mapping msg ≡ err (invalid_signatures_create bad)
      → All P sigs
      → (b : NodeSig) × (rest : List NodeSig) × (bad ≡ b ∷ rest) × P b
  unfolding new_collection
  new_collection-blames P sigs bad h a = elim (Outcome-cases (see mapping sigs [])) [
    | inl (seen, e) ↦
        elim (Outcome-cases
          (mark_signers mapping seen (new_signer_map (length mapping.node_ids)))) [
            | inl (bits, q) ↦
                sealed P seen bad bits (ground (arith, h, e, q))
                  (see-All P mapping sigs [] seen e a tt)
            | inr (inl (x, q)) ↦ absurd (mark_signers-err seen _ x q)
            | inr (inr q) ↦ absurd (ground (arith, h, e, q))
          ]
    | inr (inl (x, e)) ↦ absurd (see-create sigs [] bad (ground (arith, h, e)))
    | inr (inr e) ↦ absurd (ground (arith, h, e))
  ]
