-- ===== src/Cstypes/Codec/RoundTrip.antt =====
-- cstypes/: decoding gives back what signatures cover.
use monadbft_go.Base.{
  ℕ, ◌*◌, ◌^◌, ◌<◌, ◌≤◌, ◌≡◌, sym, ap, ◌∙◌, arith, List, [], ◌∷◌, ◌++◌, length, length-append,
}
use mathlib.Core.List.{append-nil}
use monadbft_go.Base.Outcome.{ok}
use monadbft_go.Rlp.{
  append_uint64, append_string, append_list, big_endian, list, uint64, fixed_bytes, bytes,
}
use monadbft_go.Rlp as Streams
use monadbft_go.Rlp.RoundTrip.{list-payload, uint64-append_uint64}
use monadbft_go.Rlp.Lengths.{append_assoc}
use monadbft_go.Rlp.Fields.{append_uint64-dst, length-append_uint64}
use monadbft_go.Cstypes.Certs.{Vote, NoEndorsement, TimeoutInfo}
use monadbft_go.Cstypes.Codec.Identifiers.{decode_block_id-encode_block_id, length-encode_block_id}
use monadbft_go.Cstypes.Codec.{
  encode_vote, encode_no_endorsement, encode_timeout_info, encode_block_id, decode_vote,
  decode_no_endorsement, decode_timeout_info,
}

-- Integers one behind the other.
fields : List ℕ → List ℕ
fields [] = []
fields (v ∷ vs) = append_uint64 [] v ++ fields vs

length-fields : (vs : List ℕ) → length (fields vs) ≤ 9 * length vs
unfolding fields
length-fields [] = omega arith
length-fields (v ∷ vs) = omega (
  arith,
  length-fields vs,
  length-append_uint64 v,
  length-append (append_uint64 [] v) (fields vs),
)

uint64-fields :
    (v : ℕ) (vs : List ℕ)
    → v < 2 ^ 64
    → length vs < 100
    → uint64 (fields (v ∷ vs)) ≡ ok (v, fields vs)
unfolding fields
uint64-fields v vs h l = uint64-append_uint64 v (fields vs) h (omega (arith, l, length-fields vs))

fields_append : (vs : List ℕ) (a : ℕ) → fields (vs ++ a ∷ []) ≡ fields vs ++ append_uint64 [] a
unfolding fields
fields_append [] a = append-nil (append_uint64 [] a)
fields_append (v ∷ vs) a =
    ap (λ x. append_uint64 [] v ++ x) (fields_append vs a)
    ∙ sym (append_assoc (append_uint64 [] v) (fields vs) (append_uint64 [] a))

append_uint64-fields :
    (pre dst vs : List ℕ) (a : ℕ)
    → dst ≡ pre ++ fields vs
    → append_uint64 dst a ≡ pre ++ fields (vs ++ a ∷ [])
append_uint64-fields pre dst vs a e =
    ap (λ x. append_uint64 x a) e
    ∙ append_uint64-dst (pre ++ fields vs) a
    ∙ append_assoc pre (fields vs) (append_uint64 [] a)
    ∙ ap (λ x. pre ++ x) (sym (fields_append vs a))

no_fields : (pre : List ℕ) → pre ≡ pre ++ fields []
unfolding fields
no_fields pre = sym (append-nil pre)

-- Two integers behind other bytes.
two : (pre : List ℕ) (a b : ℕ) → append_uint64 (append_uint64 pre a) b ≡ pre ++ fields (a ∷ b ∷ [])
two pre a b =
    append_uint64-fields pre _ (a ∷ []) b (append_uint64-fields pre pre [] a (no_fields pre))

decoded_no_endorsement :
    (s : List ℕ) (e r t : ℕ) (rest : List ℕ)
    → list s ≡ ok (fields (e ∷ r ∷ t ∷ []), rest)
    → e < 2 ^ 64
    → r < 2 ^ 64
    → t < 2 ^ 64
    → decode_no_endorsement s ≡ ok (record { epoch = e; round = r; tip_qc_round = t }, rest)
unfolding decode_no_endorsement Streams.done fields
decoded_no_endorsement s e r t rest q a b c =
    let x = uint64-fields e (r ∷ t ∷ []) a (omega arith) in
    let y = uint64-fields r (t ∷ []) b (omega arith) in
    let z = uint64-fields t [] c (omega arith) in ground (arith, q, x, y, z)

decoded_timeout_info :
    (s : List ℕ) (e r q t : ℕ) (rest : List ℕ)
    → list s ≡ ok (fields (e ∷ r ∷ q ∷ t ∷ []), rest)
    → e < 2 ^ 64
    → r < 2 ^ 64
    → q < 2 ^ 64
    → t < 2 ^ 64
    → decode_timeout_info s
      ≡ ok (record { epoch = e; round = r; high_qc_round = q; high_tip_round = t }, rest)
unfolding decode_timeout_info Streams.done fields
decoded_timeout_info s e r q t rest l a b c d =
    let w = uint64-fields e (r ∷ q ∷ t ∷ []) a (omega arith) in
    let x = uint64-fields r (q ∷ t ∷ []) b (omega arith) in
    let y = uint64-fields q (t ∷ []) c (omega arith) in
    let z = uint64-fields t [] d (omega arith) in ground (arith, l, w, x, y, z)

decoded_vote :
    (s : List ℕ) (id r e : ℕ) (rest : List ℕ)
    → list s ≡ ok (encode_block_id [] id ++ fields (r ∷ e ∷ []), rest)
    → id < 256 ^ 32
    → r < 2 ^ 64
    → e < 2 ^ 64
    → decode_vote s ≡ ok (record { id = id; round = r; epoch = e }, rest)
unfolding decode_vote Streams.done fields
decoded_vote s id r e rest l a b c =
    let x =
      decode_block_id-encode_block_id id (fields (r ∷ e ∷ [])) a
        (omega (arith, length-fields (r ∷ e ∷ []))) in
    let y = uint64-fields r (e ∷ []) b (omega arith) in
    let z = uint64-fields e [] c (omega arith) in ground (arith, l, x, y, z)

-- Before fewer than 2 ^ 62 bytes, a vote for an identifier of 32 bytes with a round and an epoch of 64 bits
-- decodes to itself, and leaves what stands behind it.
pub decode_vote-encode_vote :
    (v : Vote) (rest : List ℕ)
    → v.id < 256 ^ 32
    → v.round < 2 ^ 64
    → v.epoch < 2 ^ 64
    → length rest < 2 ^ 62
    → decode_vote (encode_vote [] v ++ rest) ≡ ok (v, rest)
unfolding encode_vote
decode_vote-encode_vote v rest a b c l =
    let n = length-append (encode_block_id [] v.id) (fields (v.round ∷ v.epoch ∷ [])) in
    let m = length-fields (v.round ∷ v.epoch ∷ []) in
    decoded_vote _ v.id v.round v.epoch rest
      (list-payload _ _ rest (two (encode_block_id [] v.id) v.round v.epoch)
        (omega (arith, n, m, length-encode_block_id v.id)) l)
      a b c

-- So does a refusal to endorse.
pub decode_no_endorsement-encode_no_endorsement :
    (n : NoEndorsement) (rest : List ℕ)
    → n.epoch < 2 ^ 64
    → n.round < 2 ^ 64
    → n.tip_qc_round < 2 ^ 64
    → length rest < 2 ^ 62
    → decode_no_endorsement (encode_no_endorsement [] n ++ rest) ≡ ok (n, rest)
unfolding encode_no_endorsement
decode_no_endorsement-encode_no_endorsement n rest a b c l =
    let f =
      append_uint64-fields [] _ (n.epoch ∷ n.round ∷ []) n.tip_qc_round (two [] n.epoch n.round) in
    let m = length-fields (n.epoch ∷ n.round ∷ n.tip_qc_round ∷ []) in
    decoded_no_endorsement _ n.epoch n.round n.tip_qc_round rest
      (list-payload _ _ rest f (omega (arith, m)) l) a b c

-- And what a timeout says.
pub decode_timeout_info-encode_timeout_info :
    (t : TimeoutInfo) (rest : List ℕ)
    → t.epoch < 2 ^ 64
    → t.round < 2 ^ 64
    → t.high_qc_round < 2 ^ 64
    → t.high_tip_round < 2 ^ 64
    → length rest < 2 ^ 62
    → decode_timeout_info (encode_timeout_info [] t ++ rest) ≡ ok (t, rest)
unfolding encode_timeout_info
decode_timeout_info-encode_timeout_info t rest a b c d l =
    let f =
      append_uint64-fields [] _ (t.epoch ∷ t.round ∷ []) t.high_qc_round (two [] t.epoch t.round) in
    let g =
      append_uint64-fields [] _ (t.epoch ∷ t.round ∷ t.high_qc_round ∷ []) t.high_tip_round f in
    let m = length-fields (t.epoch ∷ t.round ∷ t.high_qc_round ∷ t.high_tip_round ∷ []) in
    decoded_timeout_info _ t.epoch t.round t.high_qc_round t.high_tip_round rest
      (list-payload _ _ rest g (omega (arith, m)) l) a b c d
