-- ===== src/Consensus/VoteState.antt =====
-- consensus/vote_state.go: votes of each round, and the certificate that the first super-majority forms.
pub mod Certificates
mod Examples
use monadbft_go.Base.{
  ℕ, zero, suc, ◌≡◌, Bool, true, false, not, ◌&&◌, Option, none, some, List, [], ◌∷◌, ◌==◌,
  if◌then◌else◌, keep, ltb, add64, ==_iff, arith, ◌↔◌,
}
use monadbft_go.Base.Run.{Run, stuck, panic, done}
use monadbft_go.Base.Table.{Eq, lookup, insert, nat_eq}
use monadbft_go.Base.Sets.{contains}
use monadbft_go.Types.{Round, NodeId, Signature}
use monadbft_go.Cstypes.Certs.{Vote, QuorumCertificate, SignatureCollection}
use monadbft_go.Cstypes.Codec.{encode_vote}
use monadbft_go.Validator.ValidatorSet.{ValidatorSet}
use monadbft_go.Validator.Mapping.{ValidatorMapping}
use monadbft_go.Sigcol.{NodeSig}
use monadbft_go.Sigcol.Pairing.{Bls}
use monadbft_go.Crypto.Domain.{domain_bytes}
use monadbft_go.Crypto.Domain as Domains
use monadbft_go.Consensus.Tally.{Tally, form_certificate, include, or_empty}

-- Votes are map keys.
abbrev pub vote_beq : Vote → Vote → Bool
vote_beq a b = (a.id == b.id) && ((a.round == b.round) && (a.epoch == b.epoch))

pub vote_beq_iff : (a b : Vote) → (vote_beq a b ≡ true) ↔ (a ≡ b)
vote_beq_iff a b = ground arith

instance abbrev pub vote_eq : Eq Vote
vote_eq = record { beq = vote_beq; beq_iff = vote_beq_iff }

-- A node may stand in several buckets.
pub record RoundVoteState : Type 0 where
  pub pending_votes : List (Vote × List NodeSig)
  pub node_votes : List (NodeId × List Signature)
  pub invalid_voters : List NodeId

pub new_round_vote_state : RoundVoteState
new_round_vote_state = record { pending_votes = []; node_votes = []; invalid_voters = [] }

pub record VoteState : Type 0 where
  pub rounds : List (Round × RoundVoteState)
  pub earliest_round : Round

pub new_vote_state : Round → VoteState
new_vote_state round = record { rounds = []; earliest_round = round }

abbrev or_new : Option RoundVoteState → RoundVoteState
or_new none = new_round_vote_state
or_new (some rs) = rs

-- The vote is noted, and its bucket made.
pub note_vote : RoundVoteState → NodeId → Vote → Signature → RoundVoteState
note_vote rs author vote sig = record rs {
  node_votes = insert author (include sig (or_empty (lookup author rs.node_votes))) rs.node_votes;
  pending_votes = insert vote (or_empty (lookup vote rs.pending_votes)) rs.pending_votes;
}

-- The state of the vote's round with the vote noted in it.
pub noted : VoteState → NodeId → Vote → Signature → RoundVoteState
unfolding note_vote
noted v author vote sig = note_vote (or_new (lookup vote.round v.rounds)) author vote sig

-- The bucket of the vote with the signature in it, and those found invalid before.
pub ballot : RoundVoteState → NodeId → Vote → Signature → Tally
ballot rs author vote sig = record {
  bucket = insert author sig (or_empty (lookup vote rs.pending_votes));
  invalid = rs.invalid_voters;
}

abbrev pub vote_domain : List ℕ
vote_domain = domain_bytes Domains.vote

-- VoteMessage: a vote and its signature.
module _ (bls : Bls) where
  -- The answer of the loop, written back.
  pub record_votes :
      VoteState
      → Vote
      → RoundVoteState
      → Run (Option SignatureCollection × Tally)
      → Run (Option QuorumCertificate × VoteState)
  record_votes v vote rs stuck = stuck
  record_votes v vote rs panic = panic
  record_votes v vote rs (done (sc, t)) =
      let w = record v {
        rounds =
            insert vote.round
              (record rs {
                pending_votes = insert vote t.bucket rs.pending_votes;
                invalid_voters = t.invalid;
              })
              v.rounds;
      } in
      elim sc [
        | none ↦ done (none, w)
        | some c ↦ done (
          some (record { info = vote; signatures = c }),
          record w { earliest_round = add64 vote.round 1 },
        )
      ]

  pub process_vote :
      VoteState
      → NodeId
      → Vote
      → Signature
      → ValidatorSet
      → ValidatorMapping
      → Run (Option QuorumCertificate × VoteState)
  unfolding noted ballot record_votes
  process_vote v author vote sig validators mapping =
      if ltb vote.round v.earliest_round
      then done (none, v)
      else (let rs = noted v author vote sig in
          if contains author rs.invalid_voters
          then done (none, record v { rounds = insert vote.round rs v.rounds })
          else record_votes v vote rs (
              form_certificate bls vote_domain (encode_vote [] vote) validators mapping
                (ballot rs author vote sig)))

pub start_new_round : VoteState → Round → VoteState
start_new_round v new_round = record {
  earliest_round = new_round;
  rounds = keep (λ r. not (ltb r.0 new_round)) v.rounds;
}
