-- ===== src/Rlp/Examples.antt =====
-- rlp/rlp.go: a header that makes the decoder panic.
use monadbft_go.Base.{ℕ, ◌≡◌, ◌⊎◌, inl, refl, arith, List, [], ◌∷◌}
use monadbft_go.Base.Outcome.{panic}
use monadbft_go.Rlp.{bytes, header, header_size, split_at, long_header, value}
use monadbft_go.Rlp.Panics.{Overflows, decode_panics}

-- Nine bytes from the network that no bounds check stops.
abbrev hostile : List ℕ
hostile = 0xBF ∷ 255 ∷ 255 ∷ 255 ∷ 255 ∷ 255 ∷ 255 ∷ 255 ∷ 255 ∷ []

hostile-panic : bytes hostile ≡ panic
unfolding bytes header long_header value split_at header_size
hostile-panic = refl

decode_panics_example : Overflows 0xBF hostile ⊎ Overflows 0xFF hostile
decode_panics_example = decode_panics hostile (ground arith) (omega arith) (inl hostile-panic)
