-- ===== src/Consensus/Safety/History.antt =====
-- consensus/safety.go: what a node refuses in every state that it may reach after an action.
use monadbft_go.Base.{
  ◌≤◌, ◌<◌, ◌≡◌, ◌⊎◌, inl, inr, Bool, true, Option, none, some, arith, Option-cases,
}
use monadbft_go.Types.{Round, BlockId}
use monadbft_go.Cstypes.Certs.{ConsensusTip}
use monadbft_go.Consensus.Safety.{Safety, vote, no_endorse, timeout, propose, recovery_request}
use monadbft_go.Consensus.Safety.Watermarks.{
  Advances, Step, Step-Advances, Advances-refl, Advances-trans,
}

-- Any number of calls, in any order.
pub data Reach (s : Safety) : Safety → Type 0 where
  here : Reach s s
  next : {t u : Safety} → Reach s t → Step t u → Reach s u

pub Reach-Advances : {s t : Safety} → Reach s t → Advances s t
Reach-Advances {s} here = Advances-refl s
Reach-Advances {s} (next {t} {u} r st) = Advances-trans s t u (Reach-Advances r) (Step-Advances st)

-- The round is closed: no vote, no refusal to endorse and no proposal.
abbrev pub Refuses : Safety → Round → Type 0
Refuses u r =
    ((tc : Option BlockId) (tip : ConsensusTip) → vote u r tc tip ≡ none)
    × ((b : BlockId) → no_endorse u r b ≡ none)
    × (propose u r ≡ none)

pub refuses : (u : Safety) (r : Round) → r ≤ u.highest_vote → Refuses u r
unfolding vote no_endorse propose
refuses u r le = ((λ tc tip. ground arith), (λ b. ground arith), ground arith)

-- Once a node has voted in a round it never again votes, declines to endorse or proposes in that round
-- or below it, whatever calls come between.
pub vote_once :
    (s t u : Safety) (q : Round) (tc : Option BlockId) (tip : ConsensusTip)
    → vote s q tc tip ≡ some t
    → Reach t u
    → (r : Round) → r ≤ q
    → Refuses u r
unfolding vote
vote_once s t u q tc tip e h r le = refuses u r (ground (arith, Reach-Advances h))

-- Once a node has signed a timeout of a round it never again votes, declines to endorse or proposes in
-- that round or below it, whatever calls come between.
pub timeout_closes_round :
    (s t u : Safety) (q : Round) (with_vote : Bool)
    → timeout s q ≡ some (t, with_vote)
    → Reach t u
    → (r : Round) → r ≤ q
    → Refuses u r
unfolding timeout
timeout_closes_round s t u q b e h r le = refuses u r (ground (arith, Reach-Advances h))

-- A node that declined to endorse a tip at a round, and declined at no later round since, votes at
-- that round only on top of a timeout certificate for this very tip.
pub no_endorse_binds_vote :
    (s t u w : Safety) (q : Round) (b : BlockId) (tc : Option BlockId) (tip : ConsensusTip)
    → no_endorse s q b ≡ some t
    → Reach t u
    → vote u q tc tip ≡ some w
    → (tc ≡ some b) ⊎ (q < u.highest_no_endorse.round)
unfolding vote no_endorse
no_endorse_binds_vote s t u w q b none tip e r v = ground (arith, Reach-Advances r)
no_endorse_binds_vote s t u w q b (some c) tip e r v = ground (arith, Reach-Advances r)

-- After declining at a round, a timeout of that round carries a vote only for a tip of that round.
pub no_endorse_binds_timeout :
    (s t u w : Safety) (q : Round) (b : BlockId)
    → no_endorse s q b ≡ some t
    → Reach t u
    → timeout u q ≡ some (w, true)
    → (tip : ConsensusTip) × (u.maybe_high_tip ≡ some tip) × (tip.block_header.block_round ≡ q)
unfolding no_endorse timeout
no_endorse_binds_timeout s t u w q b e r v = elim (Option-cases u.maybe_high_tip) [
  | inl n ↦ absurd (ground (arith, Reach-Advances r))
  | inr (tip, h) ↦ (tip, h, ground (arith, Reach-Advances r))
]

-- Once a node has proposed in a round it never again proposes in that round or below it.
pub propose_once :
    (s t u : Safety) (q : Round)
    → propose s q ≡ some t
    → Reach t u
    → (r : Round) → r ≤ q
    → propose u r ≡ none
unfolding propose
propose_once s t u q e h r le = ground (arith, Reach-Advances h)

-- Once a node has asked for the recovery of a round it never again asks for that round or one below it.
pub recovery_request_once :
    (s t u : Safety) (q : Round)
    → recovery_request s q ≡ some t
    → Reach t u
    → (r : Round) → r ≤ q
    → recovery_request u r ≡ none
unfolding recovery_request
recovery_request_once s t u q e h r le = ground (arith, Reach-Advances h)
