-- ===== src/Consensus/NeState.antt =====
-- consensus/ne_state.go: refusals to endorse of each round, and the certificate that they form.
pub mod Certificates
pub mod Kept
mod Examples
use monadbft_go.Base.{
  ℕ, zero, suc, ◌≡◌, Bool, true, false, not, Option, none, some, List, [], ◌∷◌, if◌then◌else◌, keep,
  ltb, add64,
}
use monadbft_go.Base.Run.{Run, stuck, panic, done}
use monadbft_go.Base.Table.{lookup, insert, nat_eq}
use monadbft_go.Base.Sets.{contains}
use monadbft_go.Types.{Round, NodeId, Signature}
use monadbft_go.Cstypes.Certs.{NoEndorsement, NoEndorsementCertificate, SignatureCollection}
use monadbft_go.Cstypes.Codec.{encode_no_endorsement}
use monadbft_go.Validator.ValidatorSet.{ValidatorSet}
use monadbft_go.Validator.Mapping.{ValidatorMapping}
use monadbft_go.Sigcol.{NodeSig}
use monadbft_go.Sigcol.Pairing.{Bls}
use monadbft_go.Crypto.Domain.{domain_bytes}
use monadbft_go.Crypto.Domain as Domains
use monadbft_go.Consensus.Tally.{Tally, form_certificate, include, or_empty}

-- The buckets are keyed by the round of the tip's certificate alone.
pub record RoundNeState : Type 0 where
  pub qc_round_nes : List (Round × List NodeSig)
  pub node_nes : List (NodeId × List Signature)
  pub invalid_senders : List NodeId
  pub certificate : Option NoEndorsementCertificate

pub new_round_ne_state : RoundNeState
new_round_ne_state = record {
  qc_round_nes = [];
  node_nes = [];
  invalid_senders = [];
  certificate = none;
}

pub record NoEndorsementState : Type 0 where
  pub pending : List (Round × RoundNeState)
  pub earliest_round : Round

pub new_no_endorsement_state : Round → NoEndorsementState
new_no_endorsement_state round = record { pending = []; earliest_round = round }

abbrev or_new : Option RoundNeState → RoundNeState
or_new none = new_round_ne_state
or_new (some rs) = rs

-- The refusal is noted, and its bucket made.
pub note_ne : RoundNeState → NodeId → NoEndorsement → Signature → RoundNeState
note_ne rs author ne sig = record rs {
  node_nes = insert author (include sig (or_empty (lookup author rs.node_nes))) rs.node_nes;
  qc_round_nes =
      insert ne.tip_qc_round (or_empty (lookup ne.tip_qc_round rs.qc_round_nes)) rs.qc_round_nes;
}

pub noted : NoEndorsementState → NodeId → NoEndorsement → Signature → RoundNeState
unfolding note_ne
noted n author ne sig = note_ne (or_new (lookup ne.round n.pending)) author ne sig

pub ballot : RoundNeState → NodeId → NoEndorsement → Signature → Tally
ballot rs author ne sig = record {
  bucket = insert author sig (or_empty (lookup ne.tip_qc_round rs.qc_round_nes));
  invalid = rs.invalid_senders;
}

abbrev pub no_endorsement_domain : List ℕ
no_endorsement_domain = domain_bytes Domains.no_endorsement

module _ (bls : Bls) where
  -- The answer of the loop, written back.
  pub record_nes :
      NoEndorsementState
      → NoEndorsement
      → RoundNeState
      → Run (Option SignatureCollection × Tally)
      → Run (Option NoEndorsementCertificate × NoEndorsementState)
  record_nes n ne rs stuck = stuck
  record_nes n ne rs panic = panic
  record_nes n ne rs (done (sc, t)) =
      let told = record rs {
        qc_round_nes = insert ne.tip_qc_round t.bucket rs.qc_round_nes;
        invalid_senders = t.invalid;
      } in
      elim sc [
        | none ↦ done (none, record n { pending = insert ne.round told n.pending })
        | some c ↦
            let nec : NoEndorsementCertificate = record { msg = ne; signatures = c } in
            done (
              some nec,
              record {
                pending = insert ne.round (record told { certificate = some nec }) n.pending;
                earliest_round = add64 ne.round 1;
              },
            )
      ]

  pub process_no_endorsement :
      NoEndorsementState
      → NodeId
      → NoEndorsement
      → Signature
      → ValidatorSet
      → ValidatorMapping
      → Run (Option NoEndorsementCertificate × NoEndorsementState)
  unfolding noted ballot record_nes
  process_no_endorsement n author ne sig validators mapping =
      if ltb ne.round n.earliest_round
      then done (none, n)
      else (let rs = noted n author ne sig in
          if contains author rs.invalid_senders
          then done (none, record n { pending = insert ne.round rs n.pending })
          else record_nes n ne rs (
              form_certificate bls no_endorsement_domain (encode_no_endorsement [] ne) validators
                mapping (ballot rs author ne sig)))

pub start_new_round : NoEndorsementState → Round → NoEndorsementState
start_new_round n new_round = record {
  earliest_round = if ltb n.earliest_round new_round then new_round else n.earliest_round;
  pending = keep (λ r. not (ltb r.0 new_round)) n.pending;
}

pub get_nec : NoEndorsementState → Round → Option NoEndorsementCertificate
get_nec n round = elim (lookup round n.pending) [ none ↦ none | some rs ↦ rs.certificate ]
