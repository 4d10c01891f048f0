-- ===== src/Consensus/Tally/Loop.antt =====
-- consensus/vote_state.go, consensus/ne_state.go: the loop ends, and what it certifies is sound.
use monadbft_go.Base.{
  ℕ, zero, suc, ◌<◌, ◌≤◌, ◌≡◌, ◌≢◌, sym, subst, inl, inr, arith, true, false, some, List, [], ◌∷◌,
  ◌++◌, length, All,
}
use monadbft_go.Base.Outcome.{ok, err, Outcome-cases}
use monadbft_go.Base.Run.{stuck, done}
use monadbft_go.Base.Table.{delete, keys, nat_eq}
use monadbft_go.Base.Sets.{contains}
use monadbft_go.Types.{NodeId}
use monadbft_go.Cstypes.Certs.{SignatureCollection}
use monadbft_go.Validator.ValidatorSet.{ValidatorSet, has_super_majority_votes}
use monadbft_go.Validator.Mapping.{ValidatorMapping}
use mathlib.Core.List.{append_assoc}
use monadbft_go.Base.Sets.{beq_refl, delete-le, delete-lt}
use monadbft_go.Sigcol.New.{new_collection-blames}
use monadbft_go.Sigcol.{NodeSig, new_collection, invalid_signatures_create}
use monadbft_go.Sigcol.Pairing.{Bls}
use monadbft_go.Consensus.Tally.{Tally, drop_bad, mark_invalid, form, form_certificate}

-- Dropping shrinks.
pub drop_bad-le {ℓ} :
    {A : Type ℓ} (bad : List NodeSig) (b : List (NodeId × A)) → length (drop_bad bad b) ≤ length b
unfolding drop_bad
drop_bad-le [] b = omega arith
drop_bad-le ((id, s) ∷ bad) b = omega (arith, drop_bad-le bad (delete id b), delete-le id b)

All-self :
    (b : List NodeSig) (tail : List NodeSig) → All (λ s. contains s.0 (keys (tail ++ b)) ≡ true) b
All-self [] tail = tt
All-self ((id, s) ∷ b) tail = (
  here tail,
  subst (λ l. All (λ x. contains x.0 (keys l) ≡ true) b) (append_assoc tail ((id, s) ∷ []) b)
      (All-self b (tail ++ ((id, s) ∷ []))),
)
  where
    here : (t : List NodeSig) → contains id (keys (t ++ ((id, s) ∷ b))) ≡ true
    here [] = ground (arith, beq_refl id)
    here ((j, r) ∷ t) = ground (arith, here t)

module _ (bls : Bls) (domain : List ℕ) (msg : List ℕ) (validators : ValidatorSet)
    (mapping : ValidatorMapping) where
  -- Dropping what New blames makes the bucket smaller.
  drops :
      (b bad : List NodeSig)
      → new_collection bls domain b mapping msg ≡ err (invalid_signatures_create bad)
      → length (drop_bad bad b) < length b
  unfolding drop_bad
  drops b bad h =
      let (x, rest, e, c) =
        new_collection-blames bls domain mapping msg (λ s. contains s.0 (keys b) ≡ true) b bad h
          (All-self b []) in
      subst (λ l. length (drop_bad l b) < length b) (sym e)
        (omega (arith, drop_bad-le rest (delete x.0 b), delete-lt x.0 b c))

  -- With fuel beyond the signers the loop ends.
  form_ends :
      (fuel : ℕ) (t : Tally)
      → length t.bucket < fuel
      → form bls domain msg validators mapping fuel t ≢ stuck
  unfolding form
  form_ends zero t h e = absurd (omega arith)
  form_ends (suc fuel) t h e =
      elim (Outcome-cases (has_super_majority_votes validators (keys t.bucket))) [
        | inr (inl (x, q)) ↦ ground (arith, e, q)
        | inr (inr q) ↦ ground (arith, e, q)
        | inl (false, q) ↦ ground (arith, e, q)
        | inl (true, q) ↦ elim (Outcome-cases (new_collection bls domain t.bucket mapping msg)) [
          | inl (sc, p) ↦ ground (arith, e, q, p)
          | inr (inl (invalid_signatures_create bad, p)) ↦
              form_ends fuel
                (record { bucket = drop_bad bad t.bucket; invalid = mark_invalid bad t.invalid })
                (omega (arith, drops t.bucket bad p)) (ground (arith, e, q, p))
          | inr (inl (x, p)) ↦ ground (arith, e, q, p)
          | inr (inr p) ↦ ground (arith, e, q, p)
        ]
      ]

  -- What is certified is a super-majority, whose signatures make the collection.
  form_sound :
      (fuel : ℕ) (t u : Tally) (sc : SignatureCollection)
      → form bls domain msg validators mapping fuel t ≡ done (some sc, u)
      → (has_super_majority_votes validators (keys u.bucket) ≡ ok true)
        × (new_collection bls domain u.bucket mapping msg ≡ ok sc)
  unfolding form
  form_sound zero t u sc e = absurd (ground (arith, e))
  form_sound (suc fuel) t u sc e =
      elim (Outcome-cases (has_super_majority_votes validators (keys t.bucket))) [
        | inr (inl (x, q)) ↦ absurd (ground (arith, e, q))
        | inr (inr q) ↦ absurd (ground (arith, e, q))
        | inl (false, q) ↦ absurd (ground (arith, e, q))
        | inl (true, q) ↦ elim (Outcome-cases (new_collection bls domain t.bucket mapping msg)) [
          | inl (c, p) ↦ ground (arith, e, q, p)
          | inr (inl (invalid_signatures_create bad, p)) ↦
              form_sound fuel
                (record { bucket = drop_bad bad t.bucket; invalid = mark_invalid bad t.invalid }) u
                sc (ground (arith, e, q, p))
          | inr (inl (x, p)) ↦ absurd (ground (arith, e, q, p))
          | inr (inr p) ↦ absurd (ground (arith, e, q, p))
        ]
      ]

  pub form_certificate_ends :
      (t : Tally) → form_certificate bls domain msg validators mapping t ≢ stuck
  unfolding form_certificate
  form_certificate_ends t = form_ends (suc (length t.bucket)) t (omega arith)

  pub form_certificate_sound :
      (t u : Tally) (sc : SignatureCollection)
      → form_certificate bls domain msg validators mapping t ≡ done (some sc, u)
      → (has_super_majority_votes validators (keys u.bucket) ≡ ok true)
        × (new_collection bls domain u.bucket mapping msg ≡ ok sc)
  unfolding form_certificate
  form_certificate_sound t u sc e = form_sound (suc (length t.bucket)) t u sc e
