-- ===== src/Consensusstate/Leaders/Upcoming.antt =====
-- consensusstate/state.go: the other leaders of the rounds to come.
use monadbft_go.Base.{
  ℕ, zero, suc, ◌+◌, ◌%◌, ◌^◌, ◌<◌, ◌≡◌, ◌≢◌, ◌⊎◌, ◌↔◌, refl, sym, ap, ◌∙◌, subst, inl, inr, arith,
  true, false, not, ◌||◌, ◌&&◌, Option, some, List, [], ◌∷◌, ◌++◌, ◌==◌, Bool-cases, Option-cases,
  add64,
}
use monadbft_go.Base.Table.{nat_eq, keys}
use monadbft_go.Base.Sets.{contains, IsDistinct, contains-append, append-IsDistinct}
use monadbft_go.Types.{Round, NodeId}
use monadbft_go.Validator.ValidatorSet.{ValidatorSet}
use monadbft_go.Consensus.Pacemaker.{get_current_round}
use monadbft_go.Consensusstate.State.{State}
use monadbft_go.Consensusstate.Leaders.{
  lookup_leader, leader_pairs, others, upcoming_leader_round_pairs, iter_future_other_leaders,
}

zero_or_suc : (k : ℕ) → (k ≡ 0) ⊎ ((m : ℕ) × (k ≡ suc m))
zero_or_suc zero = inl refl
zero_or_suc (suc m) = inr (m, refl)

some_injective : {a b : NodeId} → ◌≡◌ {A = Option NodeId} (some a) (some b) → a ≡ b
some_injective e = cc

module _ (get_leader : Round → ValidatorSet → NodeId) where
  others_lem :
      (id : NodeId) (pairs : List (NodeId × Round)) (out : List NodeId)
      → IsDistinct out
      → contains id out ≡ false
      → IsDistinct (others get_leader id pairs out)
        × ((j : NodeId)
            → contains j (others get_leader id pairs out)
              ≡ (contains j out || (contains j (keys pairs) && not (j == id))))
  unfolding others
  others_lem id [] out d c = (d, λ j. ground arith)
  others_lem id ((leader, round) ∷ pairs) out d c = elim (Bool-cases (leader == id)) [
    | inl q ↦
        let (x, y) = others_lem id pairs out d c in
        (
          ground (arith, q, x),
          λ j. ground (
            arith,
            q,
            y j,
            nat_eq.beq_iff leader id,
            nat_eq.beq_iff leader j,
            nat_eq.beq_iff j id,
          ),
        )
    | inr q ↦ elim (Bool-cases (contains leader out)) [
      | inl p ↦
          let (x, y) = others_lem id pairs out d c in
          (
            ground (arith, q, p, x),
            λ j. elim (Bool-cases (leader == j)) [
              | inl e ↦
                  let r : leader ≡ j = (nat_eq.beq_iff leader j).0 e in
                  ground (arith, q, p, y j, e, r)
              | inr e ↦ ground (arith, q, p, y j, e)
            ],
          )
      | inr p ↦
          let (x, y) =
            others_lem id pairs (out ++ (leader ∷ [])) (append-IsDistinct out leader d p)
              (ground (arith, c, q, contains-append id out (leader ∷ []))) in
          (
            ground (arith, q, p, x),
            λ j. elim (Bool-cases (leader == j)) [
              | inl e ↦
                  let r : leader ≡ j = (nat_eq.beq_iff leader j).0 e in
                  ground (arith, q, p, y j, e, r, contains-append j out (leader ∷ []))
              | inr e ↦ ground (arith, q, p, y j, e, contains-append j out (leader ∷ []))
            ],
          )
    ]
  ]

  -- The node `j` leads one of `n` rounds from `round` on, wrapping at 2 ^ 64.
  abbrev pub Leads : State → ℕ → Round → NodeId → Type 0
  Leads s n round j =
      (k : ℕ) × (k < n) × (lookup_leader get_leader s ((round + k) % 2 ^ 64) ≡ some j)

  leader_pairs-Leads :
      (s : State) (n : ℕ) (round : Round) (pairs : List (NodeId × Round)) (j : NodeId)
      → round < 2 ^ 64
      → leader_pairs get_leader s n round ≡ some pairs
      → contains j (keys pairs) ≡ true
      → Leads s n round j
  unfolding leader_pairs
  leader_pairs-Leads s zero round pairs j h e c = absurd (ground (arith, e, c))
  leader_pairs-Leads s (suc n) round pairs j h e c =
      elim (Option-cases (lookup_leader get_leader s round)) [
        | inl x ↦ absurd (ground (arith, e, x))
        | inr (leader, x) ↦ elim (Option-cases (leader_pairs get_leader s n (add64 round 1))) [
          | inl y ↦ absurd (ground (arith, e, x, y))
          | inr (rest, y) ↦
              let q : (leader, round) ∷ rest ≡ pairs = ground (arith, e, x, y) in
              elim (Bool-cases (leader == j)) [
                | inl z ↦
                    let here : (round + 0) % 2 ^ 64 ≡ round = omega (arith, h) in
                    (
                      0,
                      omega arith,
                      ap (lookup_leader get_leader s) here
                          ∙ x
                          ∙ ap some ((nat_eq.beq_iff leader j).0 z),
                    )
                | inr z ↦
                    let (k, l, f) = leader_pairs-Leads s n (add64 round 1) rest j (omega arith) y (
                      ground (
                        arith,
                        c,
                        z,
                        ap (λ (ps : List (NodeId × Round)). contains j (keys ps)) q,
                      )) in
                    let there : (round + suc k) % 2 ^ 64 ≡ (add64 round 1 + k) % 2 ^ 64 =
                      omega arith in
                    (suc k, omega (arith, l), ap (lookup_leader get_leader s) there ∙ f)
              ]
        ]
      ]

  Leads-leader_pairs :
      (s : State) (n : ℕ) (round : Round) (pairs : List (NodeId × Round)) (j : NodeId) (k : ℕ)
      → round < 2 ^ 64
      → leader_pairs get_leader s n round ≡ some pairs
      → k < n
      → lookup_leader get_leader s ((round + k) % 2 ^ 64) ≡ some j
      → contains j (keys pairs) ≡ true
  unfolding leader_pairs
  Leads-leader_pairs s zero round pairs j k h e l f = absurd (omega arith)
  Leads-leader_pairs s (suc n) round pairs j k h e l f =
      elim (Option-cases (lookup_leader get_leader s round)) [
        | inl x ↦ absurd (ground (arith, e, x))
        | inr (leader, x) ↦ elim (Option-cases (leader_pairs get_leader s n (add64 round 1))) [
          | inl y ↦ absurd (ground (arith, e, x, y))
          | inr (rest, y) ↦
              let q : (leader, round) ∷ rest ≡ pairs = ground (arith, e, x, y) in
              let r = ap (λ (ps : List (NodeId × Round)). contains j (keys ps)) q in
              elim (zero_or_suc k) [
                | inl z ↦
                    let here : (round + k) % 2 ^ 64 ≡ round = omega (arith, h, z) in
                    let same : leader ≡ j =
                      some_injective (sym x ∙ ap (lookup_leader get_leader s) (sym here) ∙ f) in
                    ground (arith, r, (nat_eq.beq_iff leader j).1 same)
                | inr (m, z) ↦
                    let there : (add64 round 1 + m) % 2 ^ 64 ≡ (round + k) % 2 ^ 64 =
                      omega (arith, z) in
                    let c =
                      Leads-leader_pairs s n (add64 round 1) rest j m (omega arith) y
                        (omega (arith, l, z)) (ap (lookup_leader get_leader s) there ∙ f) in
                    ground (arith, r, c)
              ]
        ]
      ]

  -- The future leaders that a node forwards transactions to are named once each, and they are exactly
  -- the leaders of the three rounds after its current round, wrapping at 2 ^ 64, that are not the node
  -- itself.
  pub iter_future_other_leaders_lem :
      (s : State) (out : List NodeId)
      → iter_future_other_leaders get_leader s ≡ some out
      → IsDistinct out
        × ((j : NodeId)
            → (contains j out ≡ true) ↔ (
                Leads s 3 ((get_current_round s.consensus.pacemaker + 1) % 2 ^ 64) j
                × (j ≢ s.node_id)))
  unfolding iter_future_other_leaders upcoming_leader_round_pairs
  iter_future_other_leaders_lem s out e =
      let start = add64 (get_current_round s.consensus.pacemaker) 1 in
      elim (Option-cases (leader_pairs get_leader s 3 start)) [
        | inl n ↦ absurd (ground (arith, e, n))
        | inr (pairs, n) ↦
            let (x, y) = others_lem s.node_id pairs [] tt refl in
            let q : others get_leader s.node_id pairs [] ≡ out = ground (arith, e, n) in
            (
              subst IsDistinct q x,
              λ j.
                  let z : contains j out ≡ (contains j (keys pairs) && not (j == s.node_id)) =
                    subst
                      (λ (o : List NodeId).
                        contains j o ≡ (contains j (keys pairs) && not (j == s.node_id)))
                      q (y j) in
                  (
                    λ c. (
                      leader_pairs-Leads s 3 start pairs j (omega arith) n (ground (arith, z, c)),
                      ground (arith, z, c, nat_eq.beq_iff j s.node_id),
                    ),
                    λ ((k, l, f), d).
                        let m = Leads-leader_pairs s 3 start pairs j k (omega arith) n l f in
                        ground (arith, z, m, d, nat_eq.beq_iff j s.node_id),
                  ),
            )
      ]
