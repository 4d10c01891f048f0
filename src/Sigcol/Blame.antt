-- ===== src/Sigcol/Blame.antt =====
-- sigcol/sigcol.go: whom New blames.
use monadbft_go.Base.{ℕ, ◌≡◌, ◌≢◌, refl, sym, ap, ◌∙◌, ◌⊎◌, inl, inr, not, List, [], ◌∷◌, keep}
use monadbft_go.Base.Outcome.{ok, err}
use monadbft_go.Base.Table.{keys, nat_eq}
use monadbft_go.Base.Sets.{IsDistinct}
use monadbft_go.Cstypes.Certs.{SignatureCollection}
use monadbft_go.Validator.Mapping.{ValidatorMapping, IsMapping}
use monadbft_go.Sigcol.New.{Known, good, new_collection_distinct, seal_cases}
use monadbft_go.Sigcol.{NodeSig, new_collection, invalid_signatures_create, keyed}
use monadbft_go.Sigcol.Pairing.{Bls, IsBls, sum_keys}

-- Distinct known signers whose keys do not cancel out.
pub record IsFair (bls : Bls) (mapping : ValidatorMapping) (b : List NodeSig) : Type 0 where
  pub known : Known mapping b
  pub distinct : IsDistinct (keys b)
  pub no_cancel : sum_keys bls (keyed mapping b) ≢ bls.infinity_key

-- On distinct known signers whose keys do not cancel out, with a well-formed mapping and a library that
-- keeps its laws, New returns a collection, or fails and names exactly the signers whose own signature
-- does not verify, at least one.
pub new_collection_lem :
    (bls : Bls) (domain : List ℕ) (mapping : ValidatorMapping) (msg : List ℕ) (b : List NodeSig)
    → IsBls bls
    → IsMapping mapping
    → IsFair bls mapping b
    → ((c : SignatureCollection) × (new_collection bls domain b mapping msg ≡ ok c))
      ⊎ ((x : NodeSig) × (bad : List NodeSig) × (keep (λ s. not (good bls domain mapping msg s)) b
            ≡ x ∷ bad)
          × (new_collection bls domain b mapping msg
              ≡ err
                  (invalid_signatures_create (keep (λ s. not (good bls domain mapping msg s)) b))))
unfolding sum_keys
new_collection_lem bls domain mapping msg [] laws w f = absurd (f.no_cancel refl)
new_collection_lem bls domain mapping msg (s ∷ b) laws w f =
    let (bits, e) = new_collection_distinct bls domain mapping msg (s ∷ b) w f.known f.distinct in
    elim (seal_cases bls domain mapping msg s b bits laws f.no_cancel) [
      | inl (c, q) ↦ inl (c, e ∙ q)
      | inr (x, bad, k, q) ↦
          inr (x, bad, k, e ∙ q ∙ ap (λ l. err (invalid_signatures_create l)) (sym k))
    ]
