-- ===== src/Consensusstate/Voting/Once.antt =====
-- consensusstate/state.go: vote messages leave in the order of their rounds, one vote for a round.
use monadbft_go.Base.{
  ℕ, ◌<◌, ◌≤◌, ◌≡◌, ◌⊎◌, inl, inr, refl, sym, ap, subst, arith, Option, none, some, List, [], ◌∷◌,
  leb, ◌==◌, if◌then◌else◌, add64, All, Bool-cases, Option-cases,
}
use monadbft_go.Types.{Round, NodeId, BlockId}
use monadbft_go.Cstypes.Certs.{Vote, ConsensusBlockHeader}
use monadbft_go.Validator.ValidatorSet.{ValidatorSet}
use monadbft_go.Consensusstate.State.{
  State, Command, cmd_publish, cmd_schedule_vote, point_to_point, pm_vote, OutgoingVoteStatus,
  vote_timer_fired, vote_ready,
}
use monadbft_go.Consensusstate.Leaders.{lookup_leader}
use monadbft_go.Consensusstate.Voting.{send_vote_and_reset_timer, dispatch_vote}

-- The votes sent as messages of their own; the vote that a timeout message may carry is not among them.
unfoldable pub published_votes : List Command → List Vote
published_votes [] = []
published_votes (cmd_publish target (pm_vote v) ∷ cmds) = v ∷ published_votes cmds
published_votes (_ ∷ cmds) = published_votes cmds

-- Votes up to round `r` are behind the node: its safety state is at `r` at least, and a vote that waits
-- for its timer is of a later round that the safety state has recorded.
abbrev pub Waits : Round → Round → Option OutgoingVoteStatus → Type 0
Waits r high none = Unit
Waits r high (some vote_timer_fired) = Unit
Waits r high (some (vote_ready v)) = (r < v.round) × (v.round ≤ high)

pub record Beyond (r : Round) (s : State) : Type 0 where
  pub recorded : r ≤ s.consensus.safety.highest_vote
  pub waiting : Waits r s.consensus.safety.highest_vote s.consensus.scheduled_vote

pub nothing_waits :
    (r : Round) (s : State)
    → r ≤ s.consensus.safety.highest_vote
    → s.consensus.scheduled_vote ≡ none
    → Beyond r s
nothing_waits r s le e = record {
  recorded = le;
  waiting = subst (Waits r s.consensus.safety.highest_vote) (sym e) tt;
}

pub status-cases :
    (o : Option OutgoingVoteStatus)
    → (o ≡ none) ⊎ ((o ≡ some vote_timer_fired) ⊎ ((v : Vote) × (o ≡ some (vote_ready v))))
status-cases none = inl refl
status-cases (some vote_timer_fired) = inr (inl refl)
status-cases (some (vote_ready v)) = inr (inr (v, refl))

module _ (get_id : ConsensusBlockHeader → BlockId) (get_leader : Round → ValidatorSet → NodeId)
    (vote_pace : Round → ℕ) where
  -- Sending: every vote among the commands is this one, and none waits behind it.
  send_lem :
      (s t : State) (v : Vote) (cmds : List Command)
      → send_vote_and_reset_timer get_id get_leader vote_pace s v ≡ some (cmds, t)
      → All (λ w. w ≡ v) (published_votes cmds)
        × (t.consensus.scheduled_vote ≡ none)
        × (t.consensus.safety ≡ s.consensus.safety)
  unfolding send_vote_and_reset_timer published_votes
  send_lem s t v cmds e = elim (Option-cases (lookup_leader get_leader s (add64 v.round 1))) [
    | inl n ↦ absurd (ground (arith, e, n))
    | inr (next, n) ↦ elim (Option-cases (lookup_leader get_leader s v.round)) [
      | inl m ↦ absurd (ground (arith, e, n, m))
      | inr (current, m) ↦ elim (Bool-cases (current == next)) [
        | inl q ↦
            let c : (cmd_publish (point_to_point next) (pm_vote v)
                  ∷ cmd_schedule_vote (vote_pace (add64 v.round 1)) (add64 v.round 1)
                  ∷ [])
                ≡ cmds =
              ground (arith, e, n, m, q) in
            (
              subst (λ c. All (λ w. w ≡ v) (published_votes c)) c ((refl, tt)),
              ground (arith, e, n, m, q),
              ground (arith, e, n, m, q),
            )
        | inr q ↦
            let c : (cmd_publish (point_to_point next) (pm_vote v)
                  ∷ cmd_publish (point_to_point current) (pm_vote v)
                  ∷ cmd_schedule_vote (vote_pace (add64 v.round 1)) (add64 v.round 1)
                  ∷ [])
                ≡ cmds =
              ground (arith, e, n, m, q) in
            (
              subst (λ c. All (λ w. w ≡ v) (published_votes c)) c ((refl, (refl, tt))),
              ground (arith, e, n, m, q),
              ground (arith, e, n, m, q),
            )
      ]
    ]
  ]

  -- What a step of voting does past round `r`: the votes that leave are of one later round, and the state
  -- is past that one too.
  pub record Sends (r : Round) (s t : State) (cmds : List Command) : Type 0 where
    pub later : All (λ w. r < w.round) (published_votes cmds)
    pub behind : All (λ w. Beyond w.round t) (published_votes cmds)
    pub beyond : Beyond r t

  All-same : (v : Vote) (P : Vote → Type 0) (vs : List Vote) → P v → All (λ w. w ≡ v) vs → All P vs
  All-same v P [] p a = tt
  All-same v P (w ∷ vs) p a = (subst P (sym a.0) p, All-same v P vs p a.1)

  pub send-Sends :
      (r : Round) (s t : State) (v : Vote) (cmds : List Command)
      → r < v.round
      → v.round ≤ s.consensus.safety.highest_vote
      → send_vote_and_reset_timer get_id get_leader vote_pace s v ≡ some (cmds, t)
      → Sends r s t cmds
  send-Sends r s t v cmds l h e =
      let (a, n, sf) = send_lem s t v cmds e in
      let high : t.consensus.safety.highest_vote ≡ s.consensus.safety.highest_vote =
        ap (λ x. x.highest_vote) sf in
      record {
        later = All-same v (λ w. r < w.round) (published_votes cmds) l a;
        behind =
            All-same v (λ w. Beyond w.round t) (published_votes cmds)
              (nothing_waits v.round t (omega (arith, h, high)) n) a;
        beyond = nothing_waits r t (omega (arith, l, h, high)) n;
      }

  -- Kept for its timer, or sent.
  either-Sends :
      (r parent_round : Round) (s t : State) (v : Vote) (cmds : List Command)
      → r < v.round
      → v.round ≡ s.consensus.safety.highest_vote
      → (if add64 parent_round 1 == v.round
          then some (
            [],
            record s { consensus = record s.consensus { scheduled_vote = some (vote_ready v) } },
          )
          else send_vote_and_reset_timer get_id get_leader vote_pace s v)
        ≡ some (cmds, t)
      → Sends r s t cmds
  unfolding published_votes
  either-Sends r parent_round s t v cmds l h e =
      elim (Bool-cases (add64 parent_round 1 == v.round)) [
        | inr p ↦ send-Sends r s t v cmds l (omega (arith, h)) (ground (arith, e, p))
        | inl p ↦
            let kept : State = record s {
              consensus = record s.consensus { scheduled_vote = some (vote_ready v) };
            } in
            let c : [] ≡ cmds = ground (arith, e, p) in
            let q : kept ≡ t = ground (arith, e, p) in
            subst (λ u. Sends r s u cmds) q
              (subst (Sends r s kept) c (record {
                later = tt;
                behind = tt;
                beyond = record { recorded = omega (arith, l, h); waiting = (l, omega (arith, h)) };
              }))
      ]

  -- A vote that has just been recorded is sent or waits.
  pub dispatch-Sends :
      (r parent_round : Round) (s t : State) (v : Vote) (cmds : List Command)
      → r < v.round
      → v.round ≡ s.consensus.safety.highest_vote
      → dispatch_vote get_id get_leader vote_pace s v parent_round ≡ some (cmds, t)
      → Sends r s t cmds
  unfolding dispatch_vote
  dispatch-Sends r parent_round s t v cmds l h e = elim (status-cases s.consensus.scheduled_vote) [
    | inl q ↦ either-Sends r parent_round s t v cmds l h (ground (arith, e, q))
    | inr (inl q) ↦ send-Sends r s t v cmds l (omega (arith, h)) (ground (arith, e, q))
    | inr (inr (w, q)) ↦ elim (Bool-cases (leb v.round w.round)) [
      | inl p ↦ absurd (ground (arith, e, q, p))
      | inr p ↦ either-Sends r parent_round s t v cmds l h (ground (arith, e, q, p))
    ]
  ]
