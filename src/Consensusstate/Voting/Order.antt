-- ===== src/Consensusstate/Voting/Order.antt =====
-- consensusstate/state.go: over any run, vote messages leave in the order of their rounds, one vote for a
-- round.
use monadbft_go.Base.{
  ℕ, ◌<◌, ◌≤◌, ◌≡◌, inl, inr, sym, ap, subst, ◌∙◌, arith, not, ◌||◌, Option, none, some, List, [],
  ◌∷◌, ◌==◌, add64, All, Bool-cases, Option-cases,
}
use monadbft_go.Types.{Round, NodeId, BlockId}
use monadbft_go.Cstypes.Certs.{Vote, TimeoutCertificate, ConsensusTip, ConsensusBlockHeader}
use monadbft_go.BlockTree.{coherent}
use monadbft_go.BlockTree.Queries.{get_timestamp_of_qc, get_block_round_of_qc}
use monadbft_go.Validator.ValidatorSet.{ValidatorSet}
use monadbft_go.Consensus.Safety.{Safety, is_safe_to_vote}
use monadbft_go.Consensus.Safety as SafetyRules
use monadbft_go.Consensus.Safety.Watermarks.{Advances}
use monadbft_go.Consensus.Pacemaker.{get_current_round}
use monadbft_go.Consensusstate.Timestamp.{valid_block_timestamp}
use monadbft_go.Consensusstate.State.{
  State, Command, OutgoingVoteStatus, vote_timer_fired, vote_ready,
}
use monadbft_go.Consensusstate.Voting.{
  u128_of, maybe_record_vote_delay, last_round_tc_tip, handle_vote_timer, approve_vote, try_vote,
}
use monadbft_go.Consensusstate.Voting.Once.{
  published_votes, Beyond, Waits, status-cases, Sends, send-Sends, dispatch-Sends,
}

maybe_record-safety :
    (s : State) (a b : Round)
    → (maybe_record_vote_delay s a b).consensus.safety ≡ s.consensus.safety
unfolding maybe_record_vote_delay
maybe_record-safety s a b = elim (Option-cases s.consensus.vote_delay_timer_start) [
  | inl n ↦ ground (arith, n)
  | inr (timer, n) ↦ elim (Bool-cases (not (timer.round == a) || not (add64 b 1 == a))) [
    | inl q ↦ ground (arith, n, q)
    | inr q ↦ ground (arith, n, q)
  ]
]

-- The safety state votes only past its watermark.
vote-advances :
    (s t : Safety) (round : Round) (tc : Option BlockId) (tip : ConsensusTip)
    → SafetyRules.vote s round tc tip ≡ some t
    → (s.highest_vote < round) × (t.highest_vote ≡ round)
unfolding SafetyRules.vote is_safe_to_vote
vote-advances s t round none tip e = ground (arith, e)
vote-advances s t round (some b) tip e = ground (arith, e)

module _ (get_id : ConsensusBlockHeader → BlockId) (get_leader : Round → ValidatorSet → NodeId)
    (vote_pace : Round → ℕ) where
  idle-Sends :
      (r : Round) (s t : State) (cmds : List Command)
      → Beyond r s
      → ◌≡◌ {A = Option (List Command × State)} (some ([], s)) (some (cmds, t))
      → Sends get_id get_leader vote_pace r s t cmds
  unfolding published_votes
  idle-Sends r s t cmds b e =
      let c : [] ≡ cmds = cc in
      let q : s ≡ t = cc in
      subst (λ u. Sends get_id get_leader vote_pace r s u cmds) q
        (subst (Sends get_id get_leader vote_pace r s s) c
          (record { later = tt; behind = tt; beyond = b }))

  restart-Sends :
      (r : Round) (s u t : State) (cmds : List Command)
      → Sends get_id get_leader vote_pace r u t cmds
      → Sends get_id get_leader vote_pace r s t cmds
  restart-Sends r s u t cmds x = record { later = x.later; behind = x.behind; beyond = x.beyond }

  approve-Sends :
      (r : Round) (s t : State) (tc : Option BlockId) (tip : ConsensusTip) (parent_round : Round)
      (cmds : List Command)
      → Beyond r s
      → approve_vote get_id get_leader vote_pace s tc tip parent_round ≡ some (cmds, t)
      → Sends get_id get_leader vote_pace r s t cmds
  unfolding approve_vote
  approve-Sends r s t tc tip parent_round cmds b e =
      let round = get_current_round s.consensus.pacemaker in
      elim (Bool-cases (is_safe_to_vote s.consensus.safety round tc)) [
        | inr q ↦ idle-Sends r s t cmds b (ground (arith, e, q))
        | inl q ↦ elim (Option-cases (SafetyRules.vote s.consensus.safety round tc tip)) [
          | inl n ↦ absurd (ground (arith, e, q, n))
          | inr (sf, n) ↦
              let (lt, at) = vote-advances s.consensus.safety sf round tc tip n in
              let approved : State = record s { consensus = record s.consensus { safety = sf } } in
              let next = maybe_record_vote_delay approved round parent_round in
              let v : Vote = record {
                id = get_id tip.block_header;
                round = round;
                epoch = s.consensus.pacemaker.current_epoch;
              } in
              restart-Sends r s next t cmds (
                dispatch-Sends get_id get_leader vote_pace r parent_round next t v cmds
                  (omega (arith, lt, b.recorded))
                  (sym at
                    ∙ sym (
                        ap (λ x. x.highest_vote) (maybe_record-safety approved round parent_round)))
                  (ground (arith, e, q, n)))
        ]
      ]

  try_vote-Sends :
      (r : Round) (s t : State) (tc : Option TimeoutCertificate) (tip : ConsensusTip)
      (cmds : List Command)
      → Beyond r s
      → try_vote get_id get_leader vote_pace s tc tip ≡ some (cmds, t)
      → Sends get_id get_leader vote_pace r s t cmds
  unfolding try_vote
  try_vote-Sends r s t tc tip cmds b e =
      let round = get_current_round s.consensus.pacemaker in
      let tree = s.consensus.pending_block_tree in
      let header = tip.block_header in
      elim (Option-cases (get_timestamp_of_qc tree header.qc)) [
        | inl n ↦ idle-Sends r s t cmds b (ground (arith, e, n))
        | inr (ts, n) ↦ elim (Option-cases (get_block_round_of_qc tree header.qc)) [
          | inl m ↦ idle-Sends r s t cmds b (ground (arith, e, n, m))
          | inr (parent_round, m) ↦
              elim (Option-cases (
                valid_block_timestamp s.block_timestamp (u128_of ts) (u128_of header.timestamp_ns)
                  (u128_of (vote_pace round)) (not (round == header.block_round)))) [
                    | inl k ↦ idle-Sends r s t cmds b (ground (arith, e, n, m, k))
                    | inr (adj, k) ↦ elim (Bool-cases (coherent tree (get_id header))) [
                      | inr c ↦ idle-Sends r s t cmds b (ground (arith, e, n, m, k, c))
                      | inl c ↦
                          approve-Sends r s t (last_round_tc_tip get_id tc) tip parent_round cmds b
                            (ground (arith, e, n, m, k, c))
                    ]
                  ]
        ]
      ]

  fired : State → State
  fired s = record s { consensus = record s.consensus { scheduled_vote = some vote_timer_fired } }

  fired-Sends :
      (r : Round) (s t : State) (cmds : List Command)
      → Beyond r s
      → ◌≡◌ {A = Option (List Command × State)} (some ([], fired s)) (some (cmds, t))
      → Sends get_id get_leader vote_pace r s t cmds
  unfolding fired
  fired-Sends r s t cmds b e =
      restart-Sends r s (fired s) t cmds
        (idle-Sends r (fired s) t cmds (record { recorded = b.recorded; waiting = tt }) e)

  timer-Sends :
      (r : Round) (s t : State) (cmds : List Command)
      → Beyond r s
      → handle_vote_timer get_id get_leader vote_pace s ≡ some (cmds, t)
      → Sends get_id get_leader vote_pace r s t cmds
  unfolding handle_vote_timer fired
  timer-Sends r s t cmds b e = elim (status-cases s.consensus.scheduled_vote) [
    | inl q ↦ fired-Sends r s t cmds b (ground (arith, e, q))
    | inr (inl q) ↦ fired-Sends r s t cmds b (ground (arith, e, q))
    | inr (inr (v, q)) ↦
        let (l, h) = subst (Waits r s.consensus.safety.highest_vote) q b.waiting in
        send-Sends get_id get_leader vote_pace r s t v cmds l h (ground (arith, e, q))
  ]

  -- One step of the node: a proposal is voted on, the vote timer fires, or a handler does something else,
  -- which sends no vote message, leaves a waiting vote alone and moves the safety state on. (A timeout message
  -- may carry a vote of its own, which is not counted here.)
  pub data VoteStep (s t : State) (cmds : List Command) : Type 0 where
    tried :
        (tc : Option TimeoutCertificate) (tip : ConsensusTip)
        → try_vote get_id get_leader vote_pace s tc tip ≡ some (cmds, t)
        → VoteStep s t cmds
    timed : handle_vote_timer get_id get_leader vote_pace s ≡ some (cmds, t) → VoteStep s t cmds
    moved :
        published_votes cmds ≡ []
        → t.consensus.scheduled_vote ≡ s.consensus.scheduled_vote
        → Advances s.consensus.safety t.consensus.safety
        → VoteStep s t cmds

  pub data VoteRun (s : State) : State → Type 0 where
    here : VoteRun s s
    next : {t u : State} (cmds : List Command) → VoteRun s t → VoteStep t u cmds → VoteRun s u

  Waits-le : (r m n : Round) (o : Option OutgoingVoteStatus) → m ≤ n → Waits r m o → Waits r n o
  Waits-le r m n none le w = tt
  Waits-le r m n (some vote_timer_fired) le w = tt
  Waits-le r m n (some (vote_ready v)) le w = (w.0, omega (arith, le, w.1))

  step-Sends :
      {s t : State} {cmds : List Command} (r : Round)
      → Beyond r s
      → VoteStep s t cmds
      → Sends get_id get_leader vote_pace r s t cmds
  step-Sends {s} {t} {cmds} r b (tried tc tip e) = try_vote-Sends r s t tc tip cmds b e
  step-Sends {s} {t} {cmds} r b (timed e) = timer-Sends r s t cmds b e
  step-Sends {s} {t} {cmds} r b (moved p k a) = record {
    later = subst (λ vs. All (λ w. r < w.round) vs) (sym p) tt;
    behind = subst (λ vs. All (λ w. Beyond w.round t) vs) (sym p) tt;
    beyond = record {
      recorded = omega (arith, b.recorded, a.votes);
      waiting = subst (Waits r t.consensus.safety.highest_vote) (sym k) (
          Waits-le r s.consensus.safety.highest_vote t.consensus.safety.highest_vote
            s.consensus.scheduled_vote a.votes b.waiting);
    };
  }

  run-Beyond : {s t : State} (r : Round) → Beyond r s → VoteRun s t → Beyond r t
  run-Beyond r b here = b
  run-Beyond r b (next cmds run st) = (step-Sends r (run-Beyond r b run) st).beyond

  All-later :
      {t u w : State} {cmds : List Command} (vs : List Vote)
      → All (λ a. Beyond a.round t) vs
      → VoteRun t u
      → VoteStep u w cmds
      → All (λ a. All (λ b. a.round < b.round) (published_votes cmds)) vs
  All-later [] x run st = tt
  All-later (a ∷ vs) x run st =
      ((step-Sends a.round (run-Beyond a.round x.0 run) st).later, All-later vs x.1 run st)

  -- From a state in which a vote that waits for its timer is of a round past genesis that the safety
  -- state has recorded, every vote that one step publishes as a vote message is of an earlier round than
  -- every vote that any later step publishes so, whatever proposals, timers and other steps that leave a
  -- waiting vote alone come between. The vote that a timeout message may carry is not counted.
  pub votes_in_order :
      {s t u w : State} {first second : List Command}
      → Beyond 0 s
      → VoteStep s t first
      → VoteRun t u
      → VoteStep u w second
      → All (λ a. All (λ b. a.round < b.round) (published_votes second)) (published_votes first)
  votes_in_order {first = first} b x run y =
      All-later (published_votes first) (step-Sends 0 b x).behind run y
