-- ===== src/Sigcol/Codec/RoundTrip.antt =====
-- sigcol/sigcol.go: decoding a map of signers gives back the map.
use monadbft_go.Base.{
  ℕ, ◌+◌, ◌/◌, ◌%◌, ◌^◌, ◌<◌, ◌≤◌, ◌≡◌, ap, ◌∙◌, arith, Bool, List, [], ◌++◌, length, length-append,
}
use mathlib.Core.List.{append-nil}
use monadbft_go.Base.Outcome.{ok}
use monadbft_go.Rlp.{
  append_uint32, append_uint64, append_string, append_list, list, uint64, bytes, unexpected_length,
  custom,
}
use monadbft_go.Rlp as Streams
use monadbft_go.Rlp.RoundTrip.{
  list-payload, append_string_size, uint64-append_uint64, bytes-append_string,
}
use monadbft_go.Rlp.Fields.{append_string-dst, length-append_uint64}
use monadbft_go.Sigcol.{max_signers_len}
use monadbft_go.Sigcol.Codec.{write_bits, read_bits, zeros, encode_signer_map, decode_signer_map}
use monadbft_go.Sigcol.Codec.Bits.{length-write_bits, length-zeros, read_bits-write_bits}

narrow : (c : ℕ) → c < 2 ^ 32 → append_uint32 [] (c % 2 ^ 32) ≡ append_uint64 [] c
unfolding append_uint32
narrow c h = ap (append_uint64 []) (omega arith)

decoded_signer_map :
    (s buf rest : List ℕ) (c : ℕ)
    → list s ≡ ok (append_uint64 [] c ++ append_string [] buf, rest)
    → c ≤ max_signers_len
    → length buf ≡ (c + 7) / 8
    → length (append_string [] buf) < 2 ^ 62
    → decode_signer_map s ≡ ok (read_bits ((c + 7) / 8) c buf, rest)
unfolding decode_signer_map Streams.done
decoded_signer_map s buf rest c e h l g =
    let x = uint64-append_uint64 c (append_string [] buf) (omega (arith, h)) g in
    let y = bytes-append_string buf [] (omega (arith, l, h, length-append buf [])) in
    let z = append-nil (append_string [] buf) in ground (arith, e, x, y, z, h, l)

-- Before fewer than 2 ^ 62 bytes, a map of at most as many validators as a decoder takes, 16384, decodes to
-- itself bit by bit, and leaves what stands behind it.
pub decode_signer_map-encode_signer_map :
    (bits : List Bool) (rest : List ℕ)
    → length bits ≤ max_signers_len
    → length rest < 2 ^ 62
    → decode_signer_map (encode_signer_map [] bits ++ rest) ≡ ok (bits, rest)
unfolding encode_signer_map
decode_signer_map-encode_signer_map bits rest h g =
    let c = length bits in
    let n = (c + 7) / 8 in
    let buf = write_bits n bits (zeros n) in
    let l : length buf ≡ n = length-write_bits n bits (zeros n) ∙ length-zeros n in
    let z = append_string_size buf (omega (arith, l, h)) in
    let p : append_string (append_uint32 [] (c % 2 ^ 32)) buf
        ≡ append_uint64 [] c ++ append_string [] buf =
      append_string-dst (append_uint32 [] (c % 2 ^ 32)) buf
      ∙ ap (λ x. x ++ append_string [] buf) (narrow c (omega (arith, h))) in
    let m = length-append (append_uint64 [] c) (append_string [] buf) in
    decoded_signer_map _ buf rest c
      (list-payload _ _ rest p (omega (arith, m, z, l, h, length-append_uint64 c)) g) h l
      (omega (arith, z, l, h))
    ∙ ap (λ x. ok (x, rest)) (read_bits-write_bits n bits (omega arith))
