-- ===== src/Cstypes/Codec/Identifiers.antt =====
-- types/: an identifier, as 32 bytes and back.
use monadbft_go.Base.{
  ℕ, zero, suc, ◌/◌, ◌%◌, ◌^◌, ◌<◌, ◌≤◌, ◌≡◌, refl, ap, ◌∙◌, arith, List, [], ◌∷◌, ◌++◌, length,
  length-append,
}
use monadbft_go.Base.Outcome.{ok, ◌>>=◌}
use monadbft_go.Rlp.{append_string, big_endian, fixed_bytes}
use monadbft_go.Rlp.RoundTrip.{bytes-append_string}
use monadbft_go.Rlp.Fields.{length-big_endian, length-append_string}
use monadbft_go.Cstypes.Codec.{number_of, encode_block_id, decode_block_id}

number_of-big_endian :
    (k v : ℕ) (acc : List ℕ) → v < 256 ^ k → number_of 0 (big_endian k v acc) ≡ number_of v acc
unfolding number_of big_endian
number_of-big_endian zero v acc h = ap (λ x. number_of x acc) (omega arith)
number_of-big_endian (suc k) v acc h =
    number_of-big_endian k (v / 256) (v % 256 ∷ acc) (omega arith)
    ∙ ap (λ x. number_of x acc) (omega arith)

ended : (n : ℕ) → number_of n [] ≡ n
unfolding number_of
ended n = refl

fixed_bytes-append_string :
    (n : ℕ) (b rest : List ℕ)
    → length b ≡ n
    → length (b ++ rest) < 2 ^ 63
    → fixed_bytes n (append_string [] b ++ rest) ≡ ok (b, rest)
unfolding fixed_bytes
fixed_bytes-append_string n b rest e h = ground (arith, e, bytes-append_string b rest h)

-- An identifier of 32 bytes decodes to itself.
pub decode_block_id-encode_block_id :
    (id : ℕ) (rest : List ℕ)
    → id < 256 ^ 32
    → length rest < 2 ^ 62
    → decode_block_id (encode_block_id [] id ++ rest) ≡ ok (id, rest)
unfolding decode_block_id encode_block_id
decode_block_id-encode_block_id id rest h l =
    let n = length-big_endian 32 id [] in
    let m = length-append (big_endian 32 id []) rest in
    let e : length (big_endian 32 id []) ≡ 32 = omega (arith, n) in
    let f = fixed_bytes-append_string 32 (big_endian 32 id []) rest e (omega (arith, e, m, l)) in
    ap (λ o. o >>= (λ r. ok (number_of 0 r.0, r.1))) f
    ∙ ap (λ x. ok (x, rest)) (number_of-big_endian 32 id [] h ∙ ended id)

-- It takes 33 bytes at most.
pub length-encode_block_id : (id : ℕ) → length (encode_block_id [] id) ≤ 33
unfolding encode_block_id
length-encode_block_id id =
    let n = length-big_endian 32 id [] in
    omega (arith, n, length-append_string (big_endian 32 id []) (omega (arith, n)))
