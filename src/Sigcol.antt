-- ===== src/Sigcol.antt =====
-- sigcol/sigcol.go: collections of BLS signatures over a bit map of validators.
-- The pairing library behind crypto/bls.go is a parameter: points are the numbers that their compressed
-- bytes spell. Go walks `seen` in no fixed order; the model takes the order of the input.
pub mod Pairing
pub mod New
pub mod Blame
pub mod Marks
pub mod Verify
pub mod Codec
mod Examples
use monadbft_go.Base.{
  ℕ, zero, suc, ◌+◌, ◌*◌, ◌≡◌, Bool, true, false, not, ◌&&◌, ◌||◌, Option, none, some, List, [],
  ◌∷◌, ◌++◌, length, map, keep, ltb, ◌==◌, if◌then◌else◌, get_elem?,
}
use monadbft_go.Base.Outcome.{Outcome, ok, err, panic, ◌>>=◌}
use monadbft_go.Base.Table.{lookup, nat_eq}
use monadbft_go.Types.{NodeId, Signature}
use monadbft_go.Cstypes.Certs.{SignatureCollection, infinity_signature}
use monadbft_go.Validator.Mapping.{ValidatorMapping, mapping_has, mapping_index, pub_key}
use monadbft_go.Sigcol.Pairing.{Bls, sum_keys, sum_sigs}

abbrev pub max_signers_len : ℕ
max_signers_len = 1024 * 16

abbrev pub NodeSig : Type 0
NodeSig = NodeId × Signature

pub data SigcolError : Type 0 where
  node_id_not_in_mapping : NodeId → SigcolError
  conflicting_signatures invalid_signatures signers_len_mismatch signers_len_exceeded : SigcolError
  invalid_signatures_create : List NodeSig → SigcolError

-- SignerMap.
unfoldable pub new_signer_map : ℕ → List Bool
new_signer_map zero = []
new_signer_map (suc n) = false ∷ new_signer_map n

pub num_signatures : List Bool → ℕ
num_signatures [] = 0
num_signatures (b ∷ bits) = (if b then 1 else 0) + num_signatures bits

-- Bits[i] = true, which panics out of range.
unfoldable pub set_bit : List Bool → ℕ → Option (List Bool)
set_bit [] i = none
set_bit (b ∷ bits) zero = some (true ∷ bits)
set_bit (b ∷ bits) (suc i) = elim (set_bit bits i) [ none ↦ none | some bs ↦ some (b ∷ bs) ]

-- The loop over the signatures, with the map of those seen.
unfoldable pub see :
    ValidatorMapping → List NodeSig → List NodeSig → Outcome SigcolError (List NodeSig)
see mapping [] seen = ok seen
see mapping ((id, sig) ∷ sigs) seen =
    let again = see mapping sigs seen in
    let first = see mapping sigs (seen ++ ((id, sig) ∷ [])) in
    if not (mapping_has mapping id)
    then err (node_id_not_in_mapping id)
    else elim (lookup id seen) [
      | some prev ↦ if prev == sig then again else err conflicting_signatures
      | none ↦ first
    ]

-- The bits of the signers. An index of -1 panics.
unfoldable pub mark_signers :
    ValidatorMapping → List NodeSig → List Bool → Outcome SigcolError (List Bool)
unfolding set_bit
mark_signers mapping [] bits = ok bits
mark_signers mapping ((id, sig) ∷ seen) bits = elim (mapping_index mapping id) [
  | none ↦ panic
  | some i ↦ elim (set_bit bits i) [ none ↦ panic | some bs ↦ mark_signers mapping seen bs ]
]

-- The ids of the set bits, from position `i` on; `mapping.At(i)` panics out of range.
pub signers_of : List NodeId → List Bool → Option (List NodeId)
signers_of ids [] = some []
signers_of [] (b ∷ bits) = elim (signers_of [] bits) [
  | none ↦ none
  | some ss ↦ if b then none else some ss
]
signers_of (id ∷ ids) (b ∷ bits) = elim (signers_of ids bits) [
  | none ↦ none
  | some ss ↦ some (if b then id ∷ ss else ss)
]

-- Each signature with the key of its node.
abbrev pub keyed : ValidatorMapping → List NodeSig → List (ℕ × Signature)
keyed mapping [] = []
keyed mapping ((id, sig) ∷ sigs) = (pub_key mapping id, sig) ∷ keyed mapping sigs

unfoldable pub localize : List NodeSig → Outcome SigcolError SignatureCollection
localize [] = err invalid_signatures
localize (s ∷ bad) = err (invalid_signatures_create (s ∷ bad))

module _ (bls : Bls) where
  pub aggregate_keys : ValidatorMapping → List NodeId → ℕ
  aggregate_keys mapping [] = bls.infinity_key
  aggregate_keys mapping (id ∷ ids) = bls.add_key (pub_key mapping id) (aggregate_keys mapping ids)

  -- The signers whose own signature does not verify.
  unfoldable pub bad_signers : List ℕ → ValidatorMapping → List NodeSig → List ℕ → List NodeSig
  bad_signers domain mapping seen msg =
      keep (λ s. not (bls.verify domain msg (pub_key mapping s.0) s.1)) seen

  unfoldable pub seal :
      List ℕ
      → ValidatorMapping
      → List ℕ
      → List NodeSig
      → List Bool
      → Outcome SigcolError SignatureCollection
  unfolding bad_signers localize
  seal domain mapping msg [] bits = ok (record { signers = bits; raw_sig = bls.infinity_sig })
  seal domain mapping msg (s ∷ seen) bits =
      let pairs = keyed mapping (s ∷ seen) in
      if not (bls.verify_sum domain msg (sum_keys bls pairs) (sum_sigs bls pairs))
      then localize (bad_signers domain mapping (s ∷ seen) msg)
      else ok (record { signers = bits; raw_sig = sum_sigs bls pairs })

  -- sigcol.New.
  unfoldable pub new_collection :
      List ℕ → List NodeSig → ValidatorMapping → List ℕ → Outcome SigcolError SignatureCollection
  new_collection domain sigs mapping msg = do
    seen ← see mapping sigs []
    bits ← mark_signers mapping seen (new_signer_map (length mapping.node_ids))
    seal domain mapping msg seen bits

  -- BlsSignatureCollection.Verify, on a signature that is a point.
  pub verify_collection :
      SignatureCollection → List ℕ → ValidatorMapping → List ℕ → Outcome SigcolError (List NodeId)
  unfolding signers_of aggregate_keys
  verify_collection c domain mapping msg =
      if not (length c.signers == length mapping.node_ids)
      then err signers_len_mismatch
      else if ltb max_signers_len (length c.signers)
      then err signers_len_exceeded
      else elim (bls.is_point c.raw_sig) [
        | false ↦ err invalid_signatures
        | true ↦ elim (signers_of mapping.node_ids c.signers) [
          | none ↦ panic
          | some signers ↦
              if c.raw_sig == bls.infinity_sig
              then (if (length signers == 0) && (length c.signers == 0)
                  then ok signers
                  else err invalid_signatures)
              else if not (bls.verify_sum domain msg (aggregate_keys mapping signers) c.raw_sig)
              then err invalid_signatures
              else ok signers
        ]
      ]
