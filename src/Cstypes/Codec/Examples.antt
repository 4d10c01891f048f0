-- ===== src/Cstypes/Codec/Examples.antt =====
-- cstypes/: a vote in front of one more byte.
use monadbft_go.Base.{◌≡◌, arith, [], ◌∷◌, ◌++◌}
use monadbft_go.Base.Outcome.{ok}
use monadbft_go.Cstypes.Certs.{Vote}
use monadbft_go.Cstypes.Codec.{encode_vote, decode_vote}
use monadbft_go.Cstypes.Codec.RoundTrip.{decode_vote-encode_vote}

abbrev seventh : Vote
seventh = record { id = 4660; round = 7; epoch = 1 }

decode_vote-encode_vote_example :
    decode_vote (encode_vote [] seventh ++ (5 ∷ [])) ≡ ok (seventh, 5 ∷ [])
decode_vote-encode_vote_example =
    decode_vote-encode_vote seventh (5 ∷ []) (omega arith) (omega arith) (omega arith) (omega arith)
