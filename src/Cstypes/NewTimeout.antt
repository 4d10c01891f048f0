-- ===== src/Cstypes/NewTimeout.antt =====
-- cstypes/timeout.go: a certificate from the timeouts of a round. The signatures are collected by what
-- they sign, and the certificate extends the highest of what the timeouts extend.
pub mod Groups
pub mod Highest
mod Examples
use monadbft_go.Base.{
  ℕ, ◌≡◌, ◌↔◌, arith, Bool, true, false, ◌&&◌, Option, none, some, List, [], ◌∷◌, ◌++◌, ◌==◌,
  if◌then◌else◌,
}
use monadbft_go.Base.Outcome.{Outcome, ok, err, panic, ◌>>=◌}
use monadbft_go.Base.Table.{Eq, lookup, insert}
use monadbft_go.Types.{Epoch, Round, NodeId}
use monadbft_go.Cstypes.Certs.{
  TimeoutInfo, Timeout, TimeoutCertificate, HighExtend, HighTipRoundSigColTuple, as_high_extend,
  genesis_qc,
}
use monadbft_go.Cstypes.Rank.{rank, cmp, Sign, less, same, more}
use monadbft_go.Cstypes.Codec.{encode_timeout_info}
use monadbft_go.Crypto.Domain.{domain_bytes}
use monadbft_go.Crypto.Domain as Domains
use monadbft_go.Validator.Mapping.{ValidatorMapping}
use monadbft_go.Sigcol.{NodeSig, SigcolError, new_collection}
use monadbft_go.Sigcol.Pairing.{Bls}

abbrev pub timeout_domain : List ℕ
timeout_domain = domain_bytes Domains.timeout

-- What is signed keys the groups.
abbrev pub info_beq : TimeoutInfo → TimeoutInfo → Bool
info_beq a b =
    ((a.epoch == b.epoch) && (a.round == b.round))
    && ((a.high_qc_round == b.high_qc_round) && (a.high_tip_round == b.high_tip_round))

pub info_beq_iff : (a b : TimeoutInfo) → (info_beq a b ≡ true) ↔ (a ≡ b)
info_beq_iff a b = ground arith

instance abbrev pub info_eq : Eq TimeoutInfo
info_eq = record { beq = info_beq; beq_iff = info_beq_iff }

abbrev pub InfoGroups : Type 0
InfoGroups = List (TimeoutInfo × List NodeSig)

abbrev pub group_of : Option (List NodeSig) → List NodeSig
group_of none = []
group_of (some sigs) = sigs

-- The map of groups in the order of their first timeouts.
unfoldable pub group : List (NodeId × Timeout) → InfoGroups → InfoGroups
group [] groups = groups
group ((id, t) ∷ tms) groups = group tms (
    insert t.tm_info (group_of (lookup t.tm_info groups) ++ ((id, t.timeout_signature) ∷ []))
      groups)

-- Keeps the earlier of two equal ones.
abbrev pub higher : HighExtend → HighExtend → HighExtend
higher he highest = elim (cmp (rank he) (rank highest)) [
  | less ↦ highest
  | same ↦ highest
  | more ↦ he
]

unfoldable pub highest_extend : List (NodeId × Timeout) → HighExtend → HighExtend
highest_extend [] highest = highest
highest_extend ((id, t) ∷ tms) highest =
    highest_extend tms (higher (as_high_extend t.high_extend) highest)

module _ (bls : Bls) where
  -- One collection for each group.
  unfoldable pub collect_groups :
      ValidatorMapping → InfoGroups → Outcome SigcolError (List HighTipRoundSigColTuple)
  collect_groups mapping [] = ok []
  collect_groups mapping ((ti, sigs) ∷ groups) = do
    sc ← new_collection bls timeout_domain sigs mapping (encode_timeout_info [] ti)
    rest ← collect_groups mapping groups
    ok (
        record { high_qc_round = ti.high_qc_round; high_tip_round = ti.high_tip_round; sigs = sc }
        ∷ rest)

  unfoldable pub new_timeout_certificate :
      Epoch
      → Round
      → List (NodeId × Timeout)
      → ValidatorMapping
      → Outcome SigcolError TimeoutCertificate
  unfolding group highest_extend collect_groups
  new_timeout_certificate epoch round timeouts mapping = do
    tip_rounds ← collect_groups mapping (group timeouts [])
    ok (record {
      epoch = epoch;
      round = round;
      tip_rounds = tip_rounds;
      high_extend = highest_extend timeouts (HighExtend.qc genesis_qc);
    })
