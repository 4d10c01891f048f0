-- ===== src/Consensus/VoteState/Certificates.antt =====
-- consensus/vote_state.go: when a certificate forms, and that no round has two.
use monadbft_go.Base.{
  suc, ◌^◌, ◌<◌, ◌≤◌, ◌≡◌, ◌≢◌, refl, sym, ap, ◌∙◌, inl, inr, arith, true, false, Option, none,
  some, List, [], keep, Bool-cases, ltb, add64,
}
use monadbft_go.Base.Outcome.{ok}
use monadbft_go.Base.Run.{Run, stuck, panic, done}
use monadbft_go.Base.Table.{keys, nat_eq}
use monadbft_go.Base.Sets.{contains}
use monadbft_go.Types.{Round, NodeId, Signature}
use monadbft_go.Cstypes.Certs.{Vote, QuorumCertificate, SignatureCollection}
use monadbft_go.Cstypes.Codec.{encode_vote}
use monadbft_go.Validator.ValidatorSet.{ValidatorSet, has_super_majority_votes}
use monadbft_go.Validator.ValidatorSet.Quorum.{IsValid}
use monadbft_go.Validator.Mapping.{ValidatorMapping, IsMapping}
use monadbft_go.Sigcol.{NodeSig, new_collection}
use monadbft_go.Sigcol.New.{good}
use monadbft_go.Sigcol.Pairing.{Bls, IsBls}
use monadbft_go.Consensus.Tally.{Tally, form_certificate}
use monadbft_go.Consensus.Tally.Loop.{form_certificate_ends, form_certificate_sound}
use monadbft_go.Sigcol.Blame.{IsFair}
use monadbft_go.Consensus.Tally.Live.{form_certificate_live}
use monadbft_go.Consensus.VoteState.{
  vote_domain, VoteState, RoundVoteState, noted, ballot, record_votes, process_vote,
  start_new_round,
}

module _ (bls : Bls) where
  record_votes-ends :
      (v : VoteState) (vote : Vote) (rs : RoundVoteState)
      (r : Run (Option SignatureCollection × Tally))
      → r ≢ stuck
      → record_votes bls v vote rs r ≢ stuck
  unfolding record_votes
  record_votes-ends v vote rs stuck h e = h refl
  record_votes-ends v vote rs panic h e = cc
  record_votes-ends v vote rs (done (none, t)) h e = cc
  record_votes-ends v vote rs (done (some c, t)) h e = cc

  -- Processing a vote ends: the loop over invalid signatures never runs out of its fuel, which is one
  -- more than the signers of the bucket.
  pub process_vote_ends :
      (v : VoteState) (author : NodeId) (vote : Vote) (sig : Signature) (validators : ValidatorSet)
      (mapping : ValidatorMapping)
      → process_vote bls v author vote sig validators mapping ≢ stuck
  unfolding process_vote
  process_vote_ends v author vote sig validators mapping e =
      let rs = noted v author vote sig in
      let t = ballot rs author vote sig in
      let ends =
        record_votes-ends v vote rs
          (form_certificate bls vote_domain (encode_vote [] vote) validators mapping t)
          (form_certificate_ends bls vote_domain (encode_vote [] vote) validators mapping t) in
      elim (Bool-cases (ltb vote.round v.earliest_round)) [
        | inl q ↦ ground (arith, e, q)
        | inr q ↦ elim (Bool-cases (contains author rs.invalid_voters)) [
          | inl p ↦ ground (arith, e, q, p)
          | inr p ↦ ends (ground (arith, e, q, p))
        ]
      ]

  -- What a certificate that forms says.
  pub record Certifies (validators : ValidatorSet) (mapping : ValidatorMapping) (v w : VoteState)
      (vote : Vote) (q : QuorumCertificate) : Type 0 where
    pub of_vote : q.info ≡ vote
    pub bucket : List NodeSig
    pub majority : has_super_majority_votes validators (keys bucket) ≡ ok true
    pub collected :
        new_collection bls vote_domain bucket mapping (encode_vote [] vote) ≡ ok q.signatures
    pub in_time : v.earliest_round ≤ vote.round
    pub closes : w.earliest_round ≡ add64 vote.round 1

  recorded :
      (v w : VoteState) (vote : Vote) (rs : RoundVoteState)
      (r : Run (Option SignatureCollection × Tally)) (q : QuorumCertificate)
      → record_votes bls v vote rs r ≡ done (some q, w)
      → (c : SignatureCollection) × (t : Tally) × (r ≡ done (some c, t))
        × (q ≡ record { info = vote; signatures = c })
        × (w.earliest_round ≡ add64 vote.round 1)
  unfolding record_votes
  recorded v w vote rs stuck q e = absurd cc
  recorded v w vote rs panic q e = absurd cc
  recorded v w vote rs (done (none, t)) q e = absurd cc
  recorded v w vote rs (done (some c, t)) q e = (c, t, refl, cc, cc)

  -- A certificate that processing a vote returns is for that vote, of a round that is not closed. It
  -- rests on signers that `has_super_majority_votes` counts as enough, and its signatures are what
  -- `New` makes of theirs over the vote's encoding. Afterwards the round is closed.
  pub process_vote-Certifies :
      (v w : VoteState) (author : NodeId) (vote : Vote) (sig : Signature)
      (validators : ValidatorSet) (mapping : ValidatorMapping) (q : QuorumCertificate)
      → process_vote bls v author vote sig validators mapping ≡ done (some q, w)
      → Certifies validators mapping v w vote q
  unfolding process_vote
  process_vote-Certifies v w author vote sig validators mapping q e =
      let rs = noted v author vote sig in
      let t = ballot rs author vote sig in
      elim (Bool-cases (ltb vote.round v.earliest_round)) [
        | inl l ↦ absurd (ground (arith, e, l))
        | inr l ↦ elim (Bool-cases (contains author rs.invalid_voters)) [
          | inl p ↦ absurd (ground (arith, e, l, p))
          | inr p ↦
              let (c, u, f, s, r) =
                recorded v w vote rs
                  (form_certificate bls vote_domain (encode_vote [] vote) validators mapping t) q
                  (ground (arith, e, l, p)) in
              let (m, n) =
                form_certificate_sound bls vote_domain (encode_vote [] vote) validators mapping t u
                  c f in
              record {
                of_vote = ap (λ x. x.info) s;
                bucket = u.bucket;
                majority = m;
                collected = n ∙ ap (λ x. ok x.signatures) (sym s);
                in_time = ground (arith, l);
                closes = r;
              }
        ]
      ]

  recorded_none :
      (v w : VoteState) (vote : Vote) (rs : RoundVoteState)
      (r : Run (Option SignatureCollection × Tally))
      → record_votes bls v vote rs r ≡ done (none, w)
      → w.earliest_round ≡ v.earliest_round
  unfolding record_votes
  recorded_none v w vote rs stuck e = absurd cc
  recorded_none v w vote rs panic e = absurd cc
  recorded_none v w vote rs (done (none, t)) e = cc
  recorded_none v w vote rs (done (some c, t)) e = absurd cc

  process_vote-none :
      (v w : VoteState) (author : NodeId) (vote : Vote) (sig : Signature)
      (validators : ValidatorSet) (mapping : ValidatorMapping)
      → process_vote bls v author vote sig validators mapping ≡ done (none, w)
      → w.earliest_round ≡ v.earliest_round
  unfolding process_vote
  process_vote-none v w author vote sig validators mapping e =
      let rs = noted v author vote sig in
      elim (Bool-cases (ltb vote.round v.earliest_round)) [
        | inl l ↦ ground (arith, e, l)
        | inr l ↦ elim (Bool-cases (contains author rs.invalid_voters)) [
          | inl p ↦ ground (arith, e, l, p)
          | inr p ↦
              recorded_none v w vote rs
                (form_certificate bls vote_domain (encode_vote [] vote) validators mapping
                  (ballot rs author vote sig))
                (ground (arith, e, l, p))
        ]
      ]

  -- What may come after: votes of rounds below the last of 64 bits, and new rounds that do not go back.
  pub data Later (v : VoteState) : VoteState → Type 0 where
    here : Later v v
    voted :
        {w x : VoteState} (author : NodeId) (vote : Vote) (sig : Signature)
        (validators : ValidatorSet) (mapping : ValidatorMapping) (q : Option QuorumCertificate)
        → Later v w
        → suc vote.round < 2 ^ 64
        → process_vote bls w author vote sig validators mapping ≡ done (q, x)
        → Later v x
    started :
        {w : VoteState} (n : Round)
        → Later v w
        → w.earliest_round ≤ n
        → Later v (start_new_round w n)

  Later-le : {v w : VoteState} → Later v w → v.earliest_round ≤ w.earliest_round
  unfolding start_new_round
  Later-le here = omega arith
  Later-le (voted {w} {x} author vote sig validators mapping none l b e) =
      omega (arith, Later-le l, process_vote-none w x author vote sig validators mapping e)
  Later-le (voted {w} {x} author vote sig validators mapping (some q) l b e) =
      let c = process_vote-Certifies w x author vote sig validators mapping q e in
      ground (arith, Later-le l, c.in_time, c.closes)
  Later-le (started {w} n l h) = omega (arith, Later-le l, h)

  -- Once a certificate of a round below the last of 64 bits has formed, every certificate that forms
  -- later is of a later round, whatever votes of such rounds, and new rounds that do not go back, come
  -- between: no round is certified twice.
  pub certified_once :
      (v w x y : VoteState) (author other : NodeId) (vote second : Vote) (sig mark : Signature)
      (validators after : ValidatorSet) (mapping names : ValidatorMapping) (q r : QuorumCertificate)
      → suc vote.round < 2 ^ 64
      → process_vote bls v author vote sig validators mapping ≡ done (some q, w)
      → Later w x
      → process_vote bls x other second mark after names ≡ done (some r, y)
      → q.info.round < r.info.round
  certified_once v w x y author other vote ballot sig mark validators after mapping names q r b e l
        f =
      let c = process_vote-Certifies v w author vote sig validators mapping q e in
      let d = process_vote-Certifies x y other ballot mark after names r f in
      ground (arith, Later-le l, c.closes, d.in_time, c.of_vote, d.of_vote)

  recorded_some :
      (v : VoteState) (vote : Vote) (rs : RoundVoteState) (c : SignatureCollection) (t : Tally)
      → (w : VoteState) × (record_votes bls v vote rs (done (some c, t))
          ≡ done (some (record { info = vote; signatures = c }), w))
  unfolding record_votes
  recorded_some v vote rs c t = (_, refl)

  -- A vote that is not late, from a signer not yet found invalid, forms a certificate of its own as soon as the
  -- signers in its bucket whose signatures verify are a super-majority, whatever invalid signatures
  -- the bucket holds besides. The validators are a valid set, the mapping is well formed, the signers
  -- are distinct and in it, their keys do not cancel out, and the library keeps its laws.
  pub process_vote_live :
      (v : VoteState) (author : NodeId) (vote : Vote) (sig : Signature) (validators : ValidatorSet)
      (mapping : ValidatorMapping)
      → IsBls bls
      → IsMapping mapping
      → IsValid validators
      → v.earliest_round ≤ vote.round
      → contains author (noted v author vote sig).invalid_voters ≡ false
      → IsFair bls mapping (ballot (noted v author vote sig) author vote sig).bucket
      → IsFair bls mapping (
          keep
            (good bls vote_domain mapping (encode_vote [] vote))
            (ballot (noted v author vote sig) author vote sig).bucket)
      → has_super_majority_votes validators (
          keys (
            keep
              (good bls vote_domain mapping (encode_vote [] vote))
              (ballot (noted v author vote sig) author vote sig).bucket))
        ≡ ok true
      → (c : SignatureCollection) × (w : VoteState) × (process_vote bls v author vote sig validators
            mapping
          ≡ done (some (record { info = vote; signatures = c }), w))
  unfolding process_vote
  process_vote_live v author vote sig validators mapping laws m valid h i f g k =
      let rs = noted v author vote sig in
      let (c, u, e) =
        form_certificate_live bls vote_domain (encode_vote [] vote) validators mapping
          (ballot rs author vote sig) laws m valid f g k in
      let (w, r) = recorded_some v vote rs c u in (c, w, ground (arith, h, i, e, r))
