-- ===== src/Cstypes/Certs.antt =====
-- cstypes/: votes, certificates, tips, timeouts, headers and blocks as records, with their accessors.
-- A Go struct that a flag splits into two variants is a data type with one constructor for each.
use monadbft_go.Base.{ℕ, List, [], Option, none, some, Bool, ◌==◌, ◌*◌, ◌^◌, add64, if◌then◌else◌}
use monadbft_go.Types.{Round, Epoch, SeqNum, Hash, BlockId, NodeId, Signature}
use monadbft_go.Types.{genesis_block_id, genesis_epoch, genesis_round}

-- cstypes/vote.go
pub record Vote : Type 0 where
  pub id : BlockId
  pub round : Round
  pub epoch : Epoch

-- sigcol.BlsSignatureCollection: one bit for each validator, and the aggregate signature. The field
-- Sig of the source is the point that these bytes spell.
pub record SignatureCollection : Type 0 where
  pub signers : List Bool
  pub raw_sig : Signature

pub record QuorumCertificate : Type 0 where
  pub info : Vote
  pub signatures : SignatureCollection

-- The compressed G2 identity: the byte 0xc0 and 95 zeros.
abbrev pub infinity_signature : Signature
infinity_signature = 0xc0 * 256 ^ 95

abbrev pub genesis_qc : QuorumCertificate
genesis_qc = record {
  info = record { id = genesis_block_id; round = genesis_round; epoch = genesis_epoch };
  signatures = record { signers = []; raw_sig = infinity_signature };
}

-- cstypes/noendorse.go
pub record NoEndorsement : Type 0 where
  pub epoch : Epoch
  pub round : Round
  pub tip_qc_round : Round

pub record NoEndorsementCertificate : Type 0 where
  pub msg : NoEndorsement
  pub signatures : SignatureCollection

-- cstypes/timeout.go
pub record HighTipRoundSigColTuple : Type 0 where
  pub high_qc_round : Round
  pub high_tip_round : Round
  pub sigs : SignatureCollection

pub record NoTipCertificate : Type 0 where
  pub epoch : Epoch
  pub round : Round
  pub tip_rounds : List HighTipRoundSigColTuple
  pub high_qc : QuorumCertificate

pub data FreshProposalCertificate : Type 0 where
  nec : NoEndorsementCertificate → FreshProposalCertificate
  no_tip : NoTipCertificate → FreshProposalCertificate

-- exec.FinalizedHeader is an interface: what the code reads of a value is its sequence number and
-- its encoding.
pub record FinalizedHeader : Type 0 where
  pub result_seq_num : SeqNum
  pub encoding : List ℕ

-- cstypes/block.go. The execution inputs are opaque to consensus: their encoding.
pub record ConsensusBlockHeader : Type 0 where
  pub block_round : Round
  pub epoch : Epoch
  pub qc : QuorumCertificate
  pub author : NodeId
  pub seq_num : SeqNum
  pub timestamp_ns : ℕ
  pub round_signature : Signature
  pub delayed_execution_results : List FinalizedHeader
  pub execution_inputs : List ℕ
  pub block_body_id : Hash
  pub base_fee : ℕ
  pub base_fee_trend : ℕ
  pub base_fee_moment : ℕ

-- The body is opaque to consensus: its encoding.
pub record ConsensusFullBlock : Type 0 where
  pub header : ConsensusBlockHeader
  pub body : List ℕ

pub record BlockRange : Type 0 where
  pub last_block_id : BlockId
  pub num_blocks : SeqNum

-- cstypes/tip.go
pub record ConsensusTip : Type 0 where
  pub block_header : ConsensusBlockHeader
  pub signature : ℕ
  pub fresh_certificate : Option FreshProposalCertificate

pub data HighExtend : Type 0 where
  tip : ConsensusTip → HighExtend
  qc : QuorumCertificate → HighExtend

-- The tip may carry a vote signature.
pub data HighExtendVote : Type 0 where
  tip_vote : ConsensusTip → Option Signature → HighExtendVote
  qc_vote : QuorumCertificate → HighExtendVote

pub record TimeoutInfo : Type 0 where
  pub epoch : Epoch
  pub round : Round
  pub high_qc_round : Round
  pub high_tip_round : Round

pub record TimeoutCertificate : Type 0 where
  pub epoch : Epoch
  pub round : Round
  pub tip_rounds : List HighTipRoundSigColTuple
  pub high_extend : HighExtend

-- cstypes/cert.go
pub data RoundCertificate : Type 0 where
  from_qc : QuorumCertificate → RoundCertificate
  from_tc : TimeoutCertificate → RoundCertificate

pub record Timeout : Type 0 where
  pub tm_info : TimeoutInfo
  pub timeout_signature : Signature
  pub high_extend : HighExtendVote
  pub last_round_certificate : Option RoundCertificate

abbrev pub as_high_extend : HighExtendVote → HighExtend
as_high_extend (tip_vote t sig) = HighExtend.tip t
as_high_extend (qc_vote q) = HighExtend.qc q

abbrev pub high_extend_qc : HighExtend → QuorumCertificate
high_extend_qc (HighExtend.tip t) = t.block_header.qc
high_extend_qc (HighExtend.qc q) = q

-- RoundCertificate.Round and RoundCertificate.GetQC.
abbrev pub cert_round : RoundCertificate → Round
cert_round (from_qc q) = q.info.round
cert_round (from_tc t) = t.round

abbrev pub cert_qc : RoundCertificate → QuorumCertificate
cert_qc (from_qc q) = q
cert_qc (from_tc t) = high_extend_qc t.high_extend

-- The pipelined two-chain rule: the outer `none` is the panic on a certificate that does not point to
-- the parent, the inner one is Go's nil.
abbrev pub get_committable_id :
    QuorumCertificate → BlockId → Round → BlockId → Option (Option BlockId)
get_committable_id q parent_id parent_qc_round parent_parent_id =
    if q.info.id == parent_id
    then if q.info.round == add64 parent_qc_round 1 then some (some parent_parent_id) else some none
    else none
