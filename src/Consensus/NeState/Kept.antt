-- ===== src/Consensus/NeState/Kept.antt =====
-- consensus/ne_state.go: the certificate that GetNec answers.
use monadbft_go.Base.{
  suc, ◌^◌, ◌<◌, ◌≡◌, ◌≢◌, sym, subst, ◌⊎◌, inl, inr, arith, not, Option, none, some, List, [], ◌∷◌,
  if◌then◌else◌, keep, Bool-cases, ltb, ◌==◌,
}
use monadbft_go.Base.Run.{Run, stuck, panic, done}
use monadbft_go.Base.Table.{nat_eq, insert, lookup, lookup-insert}
use monadbft_go.Base.Sets.{contains}
use monadbft_go.Types.{Round, NodeId, Signature}
use monadbft_go.Cstypes.Certs.{NoEndorsement, NoEndorsementCertificate, SignatureCollection}
use monadbft_go.Cstypes.Codec.{encode_no_endorsement}
use monadbft_go.Validator.ValidatorSet.{ValidatorSet}
use monadbft_go.Validator.Mapping.{ValidatorMapping}
use monadbft_go.Sigcol.Pairing.{Bls}
use monadbft_go.Consensus.Tally.{Tally, form_certificate}
use monadbft_go.Consensus.NeState.{
  no_endorsement_domain, NoEndorsementState, RoundNeState, noted, ballot, record_nes,
  process_no_endorsement, start_new_round, get_nec,
}
use monadbft_go.Consensus.NeState.Certificates.{
  process_no_endorsement-Declines, Later, here, declined, started, Later-le,
}

get_nec-insert :
    (k r e : Round) (rs : RoundNeState) (m : List (Round × RoundNeState))
    → get_nec (record { pending = insert k rs m; earliest_round = e }) r
      ≡ (if k == r then rs.certificate else get_nec (record { pending = m; earliest_round = e }) r)
unfolding get_nec
get_nec-insert k r e rs m = ground (arith, lookup-insert r k rs m)

-- Forgetting earlier rounds forgets a round or leaves it alone.
lookup-keep :
    (r n : Round) (m : List (Round × RoundNeState))
    → lookup r (keep (λ x. not (ltb x.0 n)) m) ≡ (if ltb r n then none else lookup r m)
unfolding lookup
lookup-keep r n [] = ground arith
lookup-keep r n ((k, rs) ∷ m) = ground (arith, lookup-keep r n m)

-- What GetNec may answer of a closed round: its certificate, or nothing.
abbrev pub Keeps : NoEndorsementState → Round → NoEndorsementCertificate → Type 0
Keeps x r q = (get_nec x r ≡ some q) ⊎ (get_nec x r ≡ none)

start_new_round-Keeps :
    (x : NoEndorsementState) (r n : Round) (q : NoEndorsementCertificate)
    → Keeps x r q
    → Keeps (start_new_round x n) r q
unfolding start_new_round get_nec
start_new_round-Keeps x r n q k = elim (Bool-cases (ltb r n)) [
  | inl l ↦ inr (ground (arith, l, lookup-keep r n x.pending))
  | inr l ↦ ground (arith, l, lookup-keep r n x.pending, k)
]

module _ (bls : Bls) where
  record_nes-get_nec :
      (v w : NoEndorsementState) (ne : NoEndorsement) (rs : RoundNeState)
      (c : Run (Option SignatureCollection × Tally)) (a : Option NoEndorsementCertificate)
      (r : Round)
      → record_nes bls v ne rs c ≡ done (a, w)
      → ne.round ≢ r
      → get_nec w r ≡ get_nec v r
  unfolding record_nes get_nec
  record_nes-get_nec v w ne rs stuck a r e n = absurd cc
  record_nes-get_nec v w ne rs panic a r e n = absurd cc
  record_nes-get_nec v w ne rs (done (none, t)) a r e n = ground (
    arith,
    e,
    n,
    lookup-insert r ne.round
        (record rs {
          qc_round_nes = insert ne.tip_qc_round t.bucket rs.qc_round_nes;
          invalid_senders = t.invalid;
        })
        v.pending,
  )
  record_nes-get_nec v w ne rs (done (some c, t)) a r e n = ground (
    arith,
    e,
    n,
    lookup-insert r ne.round
        (record rs {
          qc_round_nes = insert ne.tip_qc_round t.bucket rs.qc_round_nes;
          invalid_senders = t.invalid;
          certificate = some (record { msg = ne; signatures = c });
        })
        v.pending,
  )

  record_nes-certificate :
      (v w : NoEndorsementState) (ne : NoEndorsement) (rs : RoundNeState)
      (c : Run (Option SignatureCollection × Tally)) (q : NoEndorsementCertificate)
      → record_nes bls v ne rs c ≡ done (some q, w)
      → get_nec w ne.round ≡ some q
  unfolding record_nes get_nec
  record_nes-certificate v w ne rs stuck q e = absurd cc
  record_nes-certificate v w ne rs panic q e = absurd cc
  record_nes-certificate v w ne rs (done (none, t)) q e = absurd cc
  record_nes-certificate v w ne rs (done (some c, t)) q e = ground (
    arith,
    e,
    lookup-insert ne.round ne.round
        (record rs {
          qc_round_nes = insert ne.tip_qc_round t.bucket rs.qc_round_nes;
          invalid_senders = t.invalid;
          certificate = some (record { msg = ne; signatures = c });
        })
        v.pending,
  )

  -- A refusal of another round changes nothing of this one.
  process_no_endorsement-get_nec :
      (v w : NoEndorsementState) (author : NodeId) (ne : NoEndorsement) (sig : Signature)
      (validators : ValidatorSet) (mapping : ValidatorMapping) (a : Option NoEndorsementCertificate)
      (r : Round)
      → process_no_endorsement bls v author ne sig validators mapping ≡ done (a, w)
      → r < v.earliest_round
      → get_nec w r ≡ get_nec v r
  unfolding process_no_endorsement get_nec
  process_no_endorsement-get_nec v w author ne sig validators mapping a r e b =
      let rs = noted v author ne sig in
      elim (Bool-cases (ltb ne.round v.earliest_round)) [
        | inl l ↦ ground (arith, e, l)
        | inr l ↦ elim (Bool-cases (contains author rs.invalid_senders)) [
          | inl p ↦ ground (arith, e, l, p, lookup-insert r ne.round rs v.pending)
          | inr p ↦
              record_nes-get_nec v w ne rs
                (form_certificate bls no_endorsement_domain (encode_no_endorsement [] ne) validators
                  mapping (ballot rs author ne sig))
                a r (ground (arith, e, l, p)) (ground (arith, l, b))
        ]
      ]

  process_no_endorsement-certificate :
      (v w : NoEndorsementState) (author : NodeId) (ne : NoEndorsement) (sig : Signature)
      (validators : ValidatorSet) (mapping : ValidatorMapping) (q : NoEndorsementCertificate)
      → process_no_endorsement bls v author ne sig validators mapping ≡ done (some q, w)
      → get_nec w ne.round ≡ some q
  unfolding process_no_endorsement
  process_no_endorsement-certificate v w author ne sig validators mapping q e =
      let rs = noted v author ne sig in
      elim (Bool-cases (ltb ne.round v.earliest_round)) [
        | inl l ↦ absurd (ground (arith, e, l))
        | inr l ↦ elim (Bool-cases (contains author rs.invalid_senders)) [
          | inl p ↦ absurd (ground (arith, e, l, p))
          | inr p ↦
              record_nes-certificate v w ne rs
                (form_certificate bls no_endorsement_domain (encode_no_endorsement [] ne) validators
                  mapping (ballot rs author ne sig))
                q (ground (arith, e, l, p))
        ]
      ]

  Later-Keeps :
      {w x : NoEndorsementState} (r : Round) (q : NoEndorsementCertificate)
      → r < w.earliest_round
      → Keeps w r q
      → Later bls w x
      → Keeps x r q
  Later-Keeps r q b k here = k
  Later-Keeps r q b k (declined {w} {x} author ne sig validators mapping a l c e) =
      subst (λ o. (o ≡ some q) ⊎ (o ≡ none))
        (sym (
          process_no_endorsement-get_nec w x author ne sig validators mapping a r e
            (omega (arith, b, Later-le bls l))))
        (Later-Keeps r q b k l)
  Later-Keeps r q b k (started {w} n l) = start_new_round-Keeps w r n q (Later-Keeps r q b k l)

  -- The certificate that forms in a round below the last of 64 bits is what `get_nec` answers for this
  -- round, and after any later refusals of such rounds and new rounds it answers this certificate or, once the round
  -- is forgotten, nothing: never another one.
  pub get_nec_lem :
      (v w x : NoEndorsementState) (author : NodeId) (ne : NoEndorsement) (sig : Signature)
      (validators : ValidatorSet) (mapping : ValidatorMapping) (q : NoEndorsementCertificate)
      → suc ne.round < 2 ^ 64
      → process_no_endorsement bls v author ne sig validators mapping ≡ done (some q, w)
      → Later bls w x
      → (get_nec w ne.round ≡ some q) × Keeps x ne.round q
  get_nec_lem v w x author ne sig validators mapping q b e l =
      let c = process_no_endorsement-Declines bls v w author ne sig validators mapping q e in
      let k = process_no_endorsement-certificate v w author ne sig validators mapping q e in
      (k, Later-Keeps ne.round q (ground (arith, b, c.closes)) (inl k) l)
