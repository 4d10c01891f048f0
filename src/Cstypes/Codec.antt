-- ===== src/Cstypes/Codec.antt =====
-- types/types.go, cstypes/vote.go, cstypes/noendorse.go, cstypes/timeout.go: the RLP codecs of
-- identifiers, votes, refusals to endorse and the contents of timeouts. The bytes of an identifier stand as
-- the number that they spell.
pub mod Identifiers
pub mod RoundTrip
mod Examples
use monadbft_go.Base.{ℕ, ◌+◌, ◌*◌, Bool, true, false, List, [], ◌∷◌, ◌++◌}
use monadbft_go.Base.Outcome.{Outcome, ok, err, panic, ◌>>=◌}
use monadbft_go.Rlp.{
  RlpError, append_uint64, append_string, append_list, big_endian, list, uint64, fixed_bytes,
}
use monadbft_go.Rlp as Streams
use monadbft_go.Types.{BlockId}
use monadbft_go.Cstypes.Certs.{Vote, NoEndorsement, TimeoutInfo}

-- Hash and BlockId: 32 bytes.
pub encode_block_id : List ℕ → BlockId → List ℕ
encode_block_id dst id = append_string dst (big_endian 32 id [])

pub encode_vote : List ℕ → Vote → List ℕ
unfolding encode_block_id
encode_vote dst v =
    append_list dst (λ p. append_uint64 (append_uint64 (encode_block_id p v.id) v.round) v.epoch)

pub encode_no_endorsement : List ℕ → NoEndorsement → List ℕ
encode_no_endorsement dst n =
    append_list dst
      (λ p. append_uint64 (append_uint64 (append_uint64 p n.epoch) n.round) n.tip_qc_round)

pub encode_timeout_info : List ℕ → TimeoutInfo → List ℕ
encode_timeout_info dst t = append_list dst (λ p.
    append_uint64 (append_uint64 (append_uint64 (append_uint64 p t.epoch) t.round) t.high_qc_round)
      t.high_tip_round)

-- An array of bytes as a number.
pub number_of : ℕ → List ℕ → ℕ
number_of n [] = n
number_of n (b ∷ bs) = number_of (n * 256 + b) bs

-- A decoder answers with a value and what it left of the stream.
abbrev pub Decoded {ℓ} : Type ℓ → Type ℓ
Decoded A = Outcome RlpError (A × List ℕ)

pub decode_block_id : List ℕ → Decoded BlockId
unfolding number_of
decode_block_id s = do r ← fixed_bytes 32 s; ok (number_of 0 r.0, r.1)

pub decode_vote : List ℕ → Decoded Vote
unfolding decode_block_id
decode_vote s = do
  l ← list s
  id ← decode_block_id l.0
  round ← uint64 id.1
  epoch ← uint64 round.1
  _ ← Streams.done epoch.1
  ok (record { id = id.0; round = round.0; epoch = epoch.0 }, l.1)

pub decode_no_endorsement : List ℕ → Decoded NoEndorsement
decode_no_endorsement s = do
  l ← list s
  epoch ← uint64 l.0
  round ← uint64 epoch.1
  tip_qc_round ← uint64 round.1
  _ ← Streams.done tip_qc_round.1
  ok (record { epoch = epoch.0; round = round.0; tip_qc_round = tip_qc_round.0 }, l.1)

pub decode_timeout_info : List ℕ → Decoded TimeoutInfo
decode_timeout_info s = do
  l ← list s
  epoch ← uint64 l.0
  round ← uint64 epoch.1
  high_qc_round ← uint64 round.1
  high_tip_round ← uint64 high_qc_round.1
  _ ← Streams.done high_tip_round.1
  ok (
    record {
      epoch = epoch.0;
      round = round.0;
      high_qc_round = high_qc_round.0;
      high_tip_round = high_tip_round.0;
    },
    l.1,
  )
