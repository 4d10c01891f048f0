-- ===== src/Crypto/Domain.antt =====
-- crypto/domain.go: the prefixes that keep signatures of one kind of message from serving for another.
pub mod Separation
mod Examples
use Prim.Native.Char.{code}
use Prim.Native.String.{String}
use monadbft_go.Base.{ℕ, List, [], ◌∷◌, ◌++◌}

-- The code points of a text: its bytes, as the prefixes are ASCII.
abbrev pub codes : String → List ℕ
codes String.[] = []
codes (String.◌∷◌ c s) = code c ∷ codes s

pub data Domain : Type 0 where
  consensus_message tip vote timeout no_endorsement round_signature name_record tcp_auth : Domain
  raptorcast_app_msg raptorcast_chunk : Domain

-- A length byte, the name, and a newline.
unfoldable pub domain_bytes : Domain → List ℕ
domain_bytes consensus_message = 0x1a ∷ (codes "monad/consensus-message/1" ++ (10 ∷ []))
domain_bytes tip = 0x0c ∷ (codes "monad/tip/1" ++ (10 ∷ []))
domain_bytes vote = 0x0d ∷ (codes "monad/vote/1" ++ (10 ∷ []))
domain_bytes timeout = 0x10 ∷ (codes "monad/timeout/1" ++ (10 ∷ []))
domain_bytes no_endorsement = 0x17 ∷ (codes "monad/no-endorsement/1" ++ (10 ∷ []))
domain_bytes round_signature = 0x18 ∷ (codes "monad/round-signature/1" ++ (10 ∷ []))
domain_bytes name_record = 0x14 ∷ (codes "monad/name-record/1" ++ (10 ∷ []))
domain_bytes tcp_auth = 0x11 ∷ (codes "monad/tcp-auth/1" ++ (10 ∷ []))
domain_bytes raptorcast_app_msg = 0x1f ∷ (codes "monad/raptorcast-app-message/1" ++ (10 ∷ []))
domain_bytes raptorcast_chunk = 0x19 ∷ (codes "monad/raptorcast-chunk/1" ++ (10 ∷ []))

pub with_domain : List ℕ → List ℕ → List ℕ
with_domain prefix msg = prefix ++ msg
