-- ===== src/Sigcol/Codec/Examples.antt =====
-- sigcol/sigcol.go: the map of nine validators, of which the first and the last two have signed.
use monadbft_go.Base.{◌≡◌, refl, arith, Bool, true, false, List, [], ◌∷◌, ◌++◌}
use monadbft_go.Base.Outcome.{ok}
use monadbft_go.Sigcol.Codec.{
  encode_signer_map, decode_signer_map, write_bits, zeros, or_at, or_bit,
}
use monadbft_go.Sigcol.Codec.RoundTrip.{decode_signer_map-encode_signer_map}

abbrev nine : List Bool
nine = true ∷ false ∷ false ∷ false ∷ false ∷ false ∷ false ∷ true ∷ true ∷ []

nine_bytes : write_bits 2 nine (zeros 2) ≡ 1 ∷ 3 ∷ []
unfolding write_bits zeros or_at or_bit
nine_bytes = refl

decode_signer_map-encode_signer_map_example :
    decode_signer_map (encode_signer_map [] nine ++ (5 ∷ [])) ≡ ok (nine, 5 ∷ [])
decode_signer_map-encode_signer_map_example =
    decode_signer_map-encode_signer_map nine (5 ∷ []) (omega arith) (omega arith)
