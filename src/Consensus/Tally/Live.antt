-- ===== src/Consensus/Tally/Live.antt =====
-- consensus/vote_state.go, consensus/ne_state.go: invalid signatures do not hold a certificate up.
use monadbft_go.Base.{
  ℕ, suc, ◌≤◌, ◌≡◌, refl, ap, ◌∙◌, inl, inr, arith, Bool, true, false, not, some, List, [], ◌∷◌,
  length, keep, Bool-cases, List-cases,
}
use monadbft_go.Base.Outcome.{ok}
use monadbft_go.Base.Run.{done}
use monadbft_go.Base.Table.{delete, keys, nat_eq}
use monadbft_go.Base.Sets.{contains, IsDistinct, beq_refl}
use monadbft_go.Types.{NodeId, Signature, Stake}
use monadbft_go.Cstypes.Certs.{SignatureCollection}
use monadbft_go.Validator.ValidatorSet.{ValidatorSet, has_super_majority_votes}
use monadbft_go.Validator.ValidatorSet.Quorum.{weight, IsValid, has_votes_iff}
use monadbft_go.Validator.Mapping.{ValidatorMapping, IsMapping}
use monadbft_go.Sigcol.New.{Known, good}
use monadbft_go.Sigcol.Blame.{IsFair, new_collection_lem}
use monadbft_go.Sigcol.{NodeSig, keyed}
use monadbft_go.Sigcol.Pairing.{Bls, IsBls, sum_keys}
use monadbft_go.Consensus.Tally.{Tally, drop_bad, mark_invalid, form, form_certificate}

-- Keeping some of the entries.
absent-keep :
    (p : NodeSig → Bool) (id : NodeId) (b : List NodeSig)
    → contains id (keys b) ≡ false
    → contains id (keys (keep p b)) ≡ false
absent-keep p id [] h = refl
absent-keep p id (s ∷ b) h = ground (arith, absent-keep p id b)

keys-keep-IsDistinct :
    (p : NodeSig → Bool) (b : List NodeSig) → IsDistinct (keys b) → IsDistinct (keys (keep p b))
keys-keep-IsDistinct p [] d = tt
keys-keep-IsDistinct p (s ∷ b) d =
    ground (arith, keys-keep-IsDistinct p b d.1, absent-keep p s.0 b d.0)

Known-keep :
    (p : NodeSig → Bool) (mapping : ValidatorMapping) (b : List NodeSig)
    → Known mapping b
    → Known mapping (keep p b)
Known-keep p mapping [] k = tt
Known-keep p mapping (s ∷ b) k = ground (arith, Known-keep p mapping b k.1)

weight-keep :
    (p : NodeSig → Bool) (m : List (NodeId × Stake)) (b : List NodeSig)
    → weight m (keys (keep p b)) ≤ weight m (keys b)
unfolding weight
weight-keep p m [] = omega arith
weight-keep p m (s ∷ b) = ground (arith, weight-keep p m b)

keep_all : (p : NodeSig → Bool) (b : List NodeSig) → keep (λ s. not (p s)) (keep p b) ≡ []
keep_all p [] = refl
keep_all p (s ∷ b) = elim (Bool-cases (p s)) [
  | inl q ↦ ground (arith, q, keep_all p b)
  | inr q ↦ ground (arith, q, keep_all p b)
]

-- Dropping exactly the bad entries.
delete_absent : (id : NodeId) (b : List NodeSig) → contains id (keys b) ≡ false → delete id b ≡ b
unfolding delete
delete_absent id [] h = refl
delete_absent id ((j, s) ∷ b) h = ground (arith, delete_absent id b)

drop_bad-skip :
    (bad b : List NodeSig) (id : NodeId) (sig : Signature)
    → contains id (keys bad) ≡ false
    → drop_bad bad ((id, sig) ∷ b) ≡ (id, sig) ∷ drop_bad bad b
unfolding drop_bad delete
drop_bad-skip [] b id sig h = refl
drop_bad-skip ((j, s) ∷ bad) b id sig h =
    ground (arith, drop_bad-skip bad (delete j b) id sig, nat_eq.beq_iff id j, nat_eq.beq_iff j id)

pub drop_bad-keep :
    (p : NodeSig → Bool) (b : List NodeSig)
    → IsDistinct (keys b)
    → drop_bad (keep (λ s. not (p s)) b) b ≡ keep p b
unfolding drop_bad delete
drop_bad-keep p [] d = refl
drop_bad-keep p ((id, sig) ∷ b) d = elim (Bool-cases (p (id, sig))) [
  | inl q ↦ ground (
    arith,
    q,
    drop_bad-keep p b d.1,
    drop_bad-skip (keep (λ s. not (p s)) b) b id sig (absent-keep (λ s. not (p s)) id b d.0),
  )
  | inr q ↦ ground (arith, q, drop_bad-keep p b d.1, delete_absent id b d.0, beq_refl id)
]

module _ (bls : Bls) (domain : List ℕ) (msg : List ℕ) (validators : ValidatorSet)
    (mapping : ValidatorMapping) where
  majority-keep :
      (p : NodeSig → Bool) (b : List NodeSig)
      → IsValid validators
      → IsDistinct (keys b)
      → has_super_majority_votes validators (keys (keep p b)) ≡ ok true
      → has_super_majority_votes validators (keys b) ≡ ok true
  majority-keep p b v d m =
      let (_, h) = (has_votes_iff validators (keys (keep p b)) v).0.0 m in
      (has_votes_iff validators (keys b) v).0.1
        (d, omega (arith, h, weight-keep p validators.stakes b))

  -- Where the signers with good signatures are a super-majority, the loop makes a collection.
  pub form_live :
      (fuel : ℕ) (t : Tally)
      → IsBls bls
      → IsMapping mapping
      → IsValid validators
      → IsFair bls mapping t.bucket
      → IsFair bls mapping (keep (good bls domain mapping msg) t.bucket)
      → has_super_majority_votes validators (keys (keep (good bls domain mapping msg) t.bucket))
        ≡ ok true
      → (c : SignatureCollection) × (u : Tally) × (form bls domain msg validators mapping
            (suc (suc fuel))
            t
          ≡ done (some c, u))
  unfolding form
  form_live fuel t laws w v f g m =
      let q = majority-keep (good bls domain mapping msg) t.bucket v f.distinct m in
      elim (new_collection_lem bls domain mapping msg t.bucket laws w f) [
        | inl (c, e) ↦ (c, t, ground (arith, q, e))
        | inr (x, bad, _, e) ↦
            let left = drop_bad-keep (good bls domain mapping msg) t.bucket f.distinct in
            elim (new_collection_lem bls domain mapping msg
              (keep (good bls domain mapping msg) t.bucket) laws w g) [
                | inl (c, r) ↦ (
                  c,
                  record {
                    bucket = keep (good bls domain mapping msg) t.bucket;
                    invalid =
                        mark_invalid (keep (λ s. not (good bls domain mapping msg s)) t.bucket)
                          t.invalid;
                  },
                  cc (q, e, left, m, r),
                )
                | inr (y, more, k, r) ↦
                    absurd (cc (k, keep_all (good bls domain mapping msg) t.bucket))
              ]
      ]

  pub form_certificate_live :
      (t : Tally)
      → IsBls bls
      → IsMapping mapping
      → IsValid validators
      → IsFair bls mapping t.bucket
      → IsFair bls mapping (keep (good bls domain mapping msg) t.bucket)
      → has_super_majority_votes validators (keys (keep (good bls domain mapping msg) t.bucket))
        ≡ ok true
      → (c : SignatureCollection) × (u : Tally) × (form_certificate bls domain msg validators
            mapping t
          ≡ done (some c, u))
  unfolding form_certificate sum_keys
  form_certificate_live t laws w v f g m = elim (List-cases t.bucket) [
    | inl e ↦ absurd (f.no_cancel (ap (λ b. sum_keys bls (keyed mapping b)) e))
    | inr (s, b, e) ↦
        let (c, u, r) = form_live (length b) t laws w v f g m in
        (c, u, ap (λ l. form bls domain msg validators mapping (suc (length l)) t) e ∙ r)
  ]
