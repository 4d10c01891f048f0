-- ===== src/Consensus/Tally.antt =====
-- consensus/vote_state.go and consensus/ne_state.go: the loop that both states share. It asks whether
-- the signers are a super-majority, aggregates, drops the signers whose signatures are invalid and
-- asks again. Each round but the last drops one at least, so it takes fuel one more than the signers.
pub mod Loop
pub mod Live
use monadbft_go.Base.{
  ℕ, zero, suc, Bool, true, false, not, ◌||◌, Option, none, some, List, [], ◌∷◌, if◌then◌else◌,
  length,
}
use monadbft_go.Base.Outcome.{Outcome, ok, err, panic}
use monadbft_go.Base.Run.{Run, stuck, done}
use monadbft_go.Base.Run as Runs
use monadbft_go.Base.Table.{delete, keys, nat_eq}
use monadbft_go.Base.Sets.{contains}
use monadbft_go.Types.{NodeId, Signature}
use monadbft_go.Cstypes.Certs.{SignatureCollection}
use monadbft_go.Validator.ValidatorSet.{ValidatorSet, has_super_majority_votes}
use monadbft_go.Validator.Mapping.{ValidatorMapping}
use monadbft_go.Sigcol.{NodeSig, new_collection, SigcolError, invalid_signatures_create}
use monadbft_go.Sigcol.Pairing.{Bls}

-- Adding to a set.
abbrev pub include : NodeId → List NodeId → List NodeId
include id ids = if contains id ids then ids else id ∷ ids

-- A missing entry of a map of sets is made empty.
abbrev pub or_empty {ℓ} : {A : Type ℓ} → Option (List A) → List A
or_empty none = []
or_empty (some xs) = xs

-- `for _, n := range bad`: out of the bucket, and into the set of invalid signers.
unfoldable pub drop_bad {ℓ} : {A : Type ℓ} → List NodeSig → List (NodeId × A) → List (NodeId × A)
drop_bad [] bucket = bucket
drop_bad ((id, sig) ∷ bad) bucket = drop_bad bad (delete id bucket)

unfoldable pub mark_invalid : List NodeSig → List NodeId → List NodeId
mark_invalid [] invalid = invalid
mark_invalid ((id, sig) ∷ bad) invalid = mark_invalid bad (include id invalid)

-- The signatures by signer, and the signers that are found invalid.
pub record Tally : Type 0 where
  pub bucket : List NodeSig
  pub invalid : List NodeId

module _ (bls : Bls) (domain : List ℕ) (msg : List ℕ) (validators : ValidatorSet)
    (mapping : ValidatorMapping) where
  unfoldable pub form : ℕ → Tally → Run (Option SignatureCollection × Tally)
  unfolding drop_bad mark_invalid
  form zero t = stuck
  form (suc fuel) t = elim (has_super_majority_votes validators (keys t.bucket)) [
    | panic ↦ Runs.panic
    | err _ ↦ done (none, t)
    | ok false ↦ done (none, t)
    | ok true ↦ elim (new_collection bls domain t.bucket mapping msg) [
      | ok sc ↦ done (some sc, t)
      | panic ↦ Runs.panic
      | err (invalid_signatures_create bad) ↦
          form fuel
            (record { bucket = drop_bad bad t.bucket; invalid = mark_invalid bad t.invalid })
      | err _ ↦ done (none, t)
    ]
  ]

  unfoldable pub form_certificate : Tally → Run (Option SignatureCollection × Tally)
  unfolding form
  form_certificate t = form (suc (length t.bucket)) t
