-- ===== src/Cstypes/NewTimeout/Examples.antt =====
-- cstypes/timeout.go: two validators sign different timeouts of a round.
use monadbft_go.Base.{◌≡◌, ◌≢◌, ◌⊎◌, refl, none, List, [], ◌∷◌, true, false, All}
use monadbft_go.Base.Outcome.{ok}
use monadbft_go.Base.Table.{lookup, insert, has, nat_eq}
use monadbft_go.Types.{Round, NodeId, Signature}
use monadbft_go.Cstypes.Certs.{
  QuorumCertificate, TimeoutCertificate, Timeout, HighExtend, qc_vote, genesis_qc, as_high_extend,
}
use monadbft_go.Cstypes.Rank.{rank, cmp, more}
use monadbft_go.Validator.ValidatorSet.{index_in, search}
use monadbft_go.Validator.Mapping.{ValidatorMapping, pub_key, mapping_has, mapping_index}
use monadbft_go.Sigcol.{
  new_collection, see, mark_signers, set_bit, new_signer_map, seal, bad_signers, localize,
}
use monadbft_go.Sigcol.Pairing.{sum_keys, sum_sigs}
use monadbft_go.Sigcol.Pairing.Toy.{toy}
use monadbft_go.Cstypes.NewTimeout.{new_timeout_certificate, group, highest_extend, collect_groups}
use monadbft_go.Cstypes.NewTimeout.Highest.{IsFrom, new_timeout_certificate_lem}

abbrev two_keys : ValidatorMapping
two_keys = record { node_ids = 2 ∷ 4 ∷ []; pubs = (2, 20) ∷ (4, 40) ∷ [] }

abbrev qc_at : Round → QuorumCertificate
qc_at round = record genesis_qc { info = record { id = 4; round = round; epoch = 1 } }

abbrev timeout_on : Round → Signature → Timeout
timeout_on round sig = record {
  tm_info = record { epoch = 1; round = 5; high_qc_round = round; high_tip_round = 0 };
  timeout_signature = sig;
  high_extend = qc_vote (qc_at round);
  last_round_certificate = none;
}

abbrev tms : List (NodeId × Timeout)
tms = (4, timeout_on 4 40) ∷ (2, timeout_on 3 20) ∷ []

abbrev tc_5 : TimeoutCertificate
tc_5 = record {
  epoch = 1;
  round = 5;
  tip_rounds =
      record {
        high_qc_round = 4;
        high_tip_round = 0;
        sigs = record { signers = false ∷ true ∷ []; raw_sig = 40 };
      }
      ∷ record {
        high_qc_round = 3;
        high_tip_round = 0;
        sigs = record { signers = true ∷ false ∷ []; raw_sig = 20 };
      }
      ∷ [];
  high_extend = HighExtend.qc (qc_at 4);
}

forms_5 : new_timeout_certificate toy 1 5 tms two_keys ≡ ok tc_5
unfolding new_timeout_certificate group highest_extend collect_groups rank cmp index_in search
    pub_key mapping_has mapping_index new_collection see mark_signers set_bit new_signer_map seal
    bad_signers localize sum_keys sum_sigs lookup insert has
forms_5 = refl

new_timeout_certificate_lem_example :
    (tc_5.epoch ≡ 1)
    × (tc_5.round ≡ 5)
    × ((tc_5.high_extend ≡ HighExtend.qc genesis_qc) ⊎ IsFrom tms tc_5.high_extend)
    × All (λ x. cmp (rank (as_high_extend x.1.high_extend)) (rank tc_5.high_extend) ≢ more) tms
new_timeout_certificate_lem_example = new_timeout_certificate_lem toy 1 5 tms two_keys tc_5 forms_5
