-- ===== src/Consensus/NeState/Certificates.antt =====
-- consensus/ne_state.go: when a certificate forms, and that no round has two.
use monadbft_go.Base.{
  suc, ◌^◌, ◌<◌, ◌≤◌, ◌≡◌, ◌≢◌, refl, sym, ap, ◌∙◌, inl, inr, arith, true, Option, none, some, List,
  [], Bool-cases, ltb, add64,
}
use monadbft_go.Base.Outcome.{ok}
use monadbft_go.Base.Run.{Run, stuck, panic, done}
use monadbft_go.Base.Table.{keys, nat_eq}
use monadbft_go.Base.Sets.{contains}
use monadbft_go.Types.{Round, NodeId, Signature}
use monadbft_go.Cstypes.Certs.{NoEndorsement, NoEndorsementCertificate, SignatureCollection}
use monadbft_go.Cstypes.Codec.{encode_no_endorsement}
use monadbft_go.Validator.ValidatorSet.{ValidatorSet, has_super_majority_votes}
use monadbft_go.Validator.Mapping.{ValidatorMapping}
use monadbft_go.Sigcol.{NodeSig, new_collection}
use monadbft_go.Sigcol.Pairing.{Bls}
use monadbft_go.Consensus.Tally.{Tally, form_certificate}
use monadbft_go.Consensus.Tally.Loop.{form_certificate_ends, form_certificate_sound}
use monadbft_go.Consensus.NeState.{
  no_endorsement_domain, NoEndorsementState, RoundNeState, noted, ballot, record_nes,
  process_no_endorsement, start_new_round,
}

module _ (bls : Bls) where
  record_nes-ends :
      (v : NoEndorsementState) (ne : NoEndorsement) (rs : RoundNeState)
      (r : Run (Option SignatureCollection × Tally))
      → r ≢ stuck
      → record_nes bls v ne rs r ≢ stuck
  unfolding record_nes
  record_nes-ends v ne rs stuck h e = h refl
  record_nes-ends v ne rs panic h e = cc
  record_nes-ends v ne rs (done (none, t)) h e = cc
  record_nes-ends v ne rs (done (some c, t)) h e = cc

  -- Processing a refusal to endorse ends: the loop over invalid signatures never runs out of its fuel, which is one
  -- more than the signers of the bucket.
  pub process_no_endorsement_ends :
      (v : NoEndorsementState) (author : NodeId) (ne : NoEndorsement) (sig : Signature)
      (validators : ValidatorSet) (mapping : ValidatorMapping)
      → process_no_endorsement bls v author ne sig validators mapping ≢ stuck
  unfolding process_no_endorsement
  process_no_endorsement_ends v author ne sig validators mapping e =
      let rs = noted v author ne sig in
      let t = ballot rs author ne sig in
      let ends =
        record_nes-ends v ne rs
          (form_certificate bls no_endorsement_domain (encode_no_endorsement [] ne) validators
            mapping t)
          (form_certificate_ends bls no_endorsement_domain (encode_no_endorsement [] ne) validators
            mapping t) in
      elim (Bool-cases (ltb ne.round v.earliest_round)) [
        | inl q ↦ ground (arith, e, q)
        | inr q ↦ elim (Bool-cases (contains author rs.invalid_senders)) [
          | inl p ↦ ground (arith, e, q, p)
          | inr p ↦ ends (ground (arith, e, q, p))
        ]
      ]

  -- What a certificate that forms says.
  pub record Declines (validators : ValidatorSet) (mapping : ValidatorMapping)
      (v w : NoEndorsementState) (ne : NoEndorsement) (q : NoEndorsementCertificate) : Type 0 where
    pub of_ne : q.msg ≡ ne
    pub bucket : List NodeSig
    pub majority : has_super_majority_votes validators (keys bucket) ≡ ok true
    pub collected :
        new_collection bls no_endorsement_domain bucket mapping (encode_no_endorsement [] ne)
        ≡ ok q.signatures
    pub in_time : v.earliest_round ≤ ne.round
    pub closes : w.earliest_round ≡ add64 ne.round 1

  recorded :
      (v w : NoEndorsementState) (ne : NoEndorsement) (rs : RoundNeState)
      (r : Run (Option SignatureCollection × Tally)) (q : NoEndorsementCertificate)
      → record_nes bls v ne rs r ≡ done (some q, w)
      → (c : SignatureCollection) × (t : Tally) × (r ≡ done (some c, t))
        × (q ≡ record { msg = ne; signatures = c })
        × (w.earliest_round ≡ add64 ne.round 1)
  unfolding record_nes
  recorded v w ne rs stuck q e = absurd cc
  recorded v w ne rs panic q e = absurd cc
  recorded v w ne rs (done (none, t)) q e = absurd cc
  recorded v w ne rs (done (some c, t)) q e = (c, t, refl, cc, cc)

  -- A certificate that processing a refusal returns is for that refusal, of a round that is not closed. It
  -- rests on signers that `has_super_majority_votes` counts as enough, and its signatures are what
  -- `New` makes of theirs over the refusal's encoding. Afterwards the round is closed.
  pub process_no_endorsement-Declines :
      (v w : NoEndorsementState) (author : NodeId) (ne : NoEndorsement) (sig : Signature)
      (validators : ValidatorSet) (mapping : ValidatorMapping) (q : NoEndorsementCertificate)
      → process_no_endorsement bls v author ne sig validators mapping ≡ done (some q, w)
      → Declines validators mapping v w ne q
  unfolding process_no_endorsement
  process_no_endorsement-Declines v w author ne sig validators mapping q e =
      let rs = noted v author ne sig in
      let t = ballot rs author ne sig in
      elim (Bool-cases (ltb ne.round v.earliest_round)) [
        | inl l ↦ absurd (ground (arith, e, l))
        | inr l ↦ elim (Bool-cases (contains author rs.invalid_senders)) [
          | inl p ↦ absurd (ground (arith, e, l, p))
          | inr p ↦
              let (c, u, f, s, r) =
                recorded v w ne rs
                  (form_certificate bls no_endorsement_domain (encode_no_endorsement [] ne)
                    validators mapping t)
                  q (ground (arith, e, l, p)) in
              let (m, n) =
                form_certificate_sound bls no_endorsement_domain (encode_no_endorsement [] ne)
                  validators mapping t u c f in
              record {
                of_ne = ap (λ x. x.msg) s;
                bucket = u.bucket;
                majority = m;
                collected = n ∙ ap (λ x. ok x.signatures) (sym s);
                in_time = ground (arith, l);
                closes = r;
              }
        ]
      ]

  ne_recorded_none :
      (v w : NoEndorsementState) (ne : NoEndorsement) (rs : RoundNeState)
      (r : Run (Option SignatureCollection × Tally))
      → record_nes bls v ne rs r ≡ done (none, w)
      → w.earliest_round ≡ v.earliest_round
  unfolding record_nes
  ne_recorded_none v w ne rs stuck e = absurd cc
  ne_recorded_none v w ne rs panic e = absurd cc
  ne_recorded_none v w ne rs (done (none, t)) e = cc
  ne_recorded_none v w ne rs (done (some c, t)) e = absurd cc

  pub process_no_endorsement-none :
      (v w : NoEndorsementState) (author : NodeId) (ne : NoEndorsement) (sig : Signature)
      (validators : ValidatorSet) (mapping : ValidatorMapping)
      → process_no_endorsement bls v author ne sig validators mapping ≡ done (none, w)
      → w.earliest_round ≡ v.earliest_round
  unfolding process_no_endorsement
  process_no_endorsement-none v w author ne sig validators mapping e =
      let rs = noted v author ne sig in
      elim (Bool-cases (ltb ne.round v.earliest_round)) [
        | inl l ↦ ground (arith, e, l)
        | inr l ↦ elim (Bool-cases (contains author rs.invalid_senders)) [
          | inl p ↦ ground (arith, e, l, p)
          | inr p ↦
              ne_recorded_none v w ne rs
                (form_certificate bls no_endorsement_domain (encode_no_endorsement [] ne) validators
                  mapping (ballot rs author ne sig))
                (ground (arith, e, l, p))
        ]
      ]

  -- What may come after: refusals of rounds below the last of 64 bits, and new rounds.
  pub data Later (v : NoEndorsementState) : NoEndorsementState → Type 0 where
    here : Later v v
    declined :
        {w x : NoEndorsementState} (author : NodeId) (ne : NoEndorsement) (sig : Signature)
        (validators : ValidatorSet) (mapping : ValidatorMapping)
        (q : Option NoEndorsementCertificate)
        → Later v w
        → suc ne.round < 2 ^ 64
        → process_no_endorsement bls w author ne sig validators mapping ≡ done (q, x)
        → Later v x
    started : {w : NoEndorsementState} (n : Round) → Later v w → Later v (start_new_round w n)

  pub Later-le : {v w : NoEndorsementState} → Later v w → v.earliest_round ≤ w.earliest_round
  unfolding start_new_round
  Later-le here = omega arith
  Later-le (declined {w} {x} author ne sig validators mapping none l b e) =
      omega (arith, Later-le l, process_no_endorsement-none w x author ne sig validators mapping e)
  Later-le (declined {w} {x} author ne sig validators mapping (some q) l b e) =
      let c = process_no_endorsement-Declines w x author ne sig validators mapping q e in
      ground (arith, Later-le l, c.in_time, c.closes)
  Later-le (started {w} n l) = ground (arith, Later-le l)

  -- Once a certificate of a round below the last of 64 bits has formed, every certificate that forms
  -- later is of a later round, whatever refusals of such rounds and new rounds come between: no round is
  -- certified twice.
  pub declined_once :
      (v w x y : NoEndorsementState) (author other : NodeId) (ne second : NoEndorsement)
      (sig mark : Signature) (validators after : ValidatorSet) (mapping names : ValidatorMapping)
      (q r : NoEndorsementCertificate)
      → suc ne.round < 2 ^ 64
      → process_no_endorsement bls v author ne sig validators mapping ≡ done (some q, w)
      → Later w x
      → process_no_endorsement bls x other second mark after names ≡ done (some r, y)
      → q.msg.round < r.msg.round
  declined_once v w x y author other ne second sig mark validators after mapping names q r b e l f =
      let c = process_no_endorsement-Declines v w author ne sig validators mapping q e in
      let d = process_no_endorsement-Declines x y other second mark after names r f in
      ground (arith, Later-le l, c.closes, d.in_time, c.of_ne, d.of_ne)
