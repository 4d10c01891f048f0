-- ===== src/Cstypes/NewTimeout/Highest.antt =====
-- cstypes/timeout.go: a new timeout certificate extends the highest of what its timeouts extend.
use monadbft_go.Base.{
  ◌≡◌, ◌≢◌, ◌⊎◌, inl, inr, refl, arith, List, [], ◌∷◌, All, subst, ◌∙◌, ℕ, suc, get_elem?, some,
}
use monadbft_go.Base.Outcome.{ok, Outcome-cases}
use monadbft_go.Types.{Epoch, Round, NodeId}
use monadbft_go.Cstypes.Certs.{Timeout, TimeoutCertificate, HighExtend, as_high_extend, genesis_qc}
use monadbft_go.Cstypes.Rank.{rank, cmp, Sign, less, same, more, HighExtendRank}
use monadbft_go.Cstypes.Rank.Order.{cmp-Below, cmp_trans}
use monadbft_go.Validator.Mapping.{ValidatorMapping}
use monadbft_go.Sigcol.Pairing.{Bls}
use monadbft_go.Cstypes.NewTimeout.{
  higher, highest_extend, new_timeout_certificate, collect_groups, group,
}

-- Does not stand above.
abbrev pub UpTo : HighExtend → HighExtend → Type 0
UpTo a b = cmp (rank a) (rank b) ≢ more

Sign-cases : (s : Sign) → (s ≡ less) ⊎ ((s ≡ same) ⊎ (s ≡ more))
Sign-cases less = inl refl
Sign-cases same = inr (inl refl)
Sign-cases more = inr (inr refl)

cmp_flip : (a b : HighExtendRank) → cmp a b ≡ less → cmp b a ≡ more
cmp_flip a b p = ground (arith, cmp-Below a b, cmp-Below b a)

cmp_le_trans : (a b c : HighExtendRank) → cmp a b ≢ more → cmp b c ≢ more → cmp a c ≢ more
cmp_le_trans a b c p q = elim (Sign-cases (cmp a b)) [
  | inl l ↦ elim (Sign-cases (cmp b c)) [
    | inl m ↦ ground (arith, cmp_trans a b c l m)
    | inr (inl m) ↦ ground (arith, l, (cmp-Below b c).2.0 m)
    | inr (inr m) ↦ absurd (q m)
  ]
  | inr (inl l) ↦ ground (arith, q, (cmp-Below a b).2.0 l)
  | inr (inr l) ↦ absurd (p l)
]

UpTo-refl : (a : HighExtend) → UpTo a a
UpTo-refl a = ground (arith, cmp-Below (rank a) (rank a))

higher-UpTo : (a b : HighExtend) → UpTo a (higher a b) × UpTo b (higher a b)
higher-UpTo a b = elim (Sign-cases (cmp (rank a) (rank b))) [
  | inl l ↦ (ground (arith, l), ground (arith, l, UpTo-refl b))
  | inr (inl l) ↦ (ground (arith, l), ground (arith, l, UpTo-refl b))
  | inr (inr l) ↦ (
    ground (arith, l, UpTo-refl a),
    ground (arith, l, cmp-Below (rank a) (rank b), cmp-Below (rank b) (rank a)),
  )
]

-- Some timeout's high extend.
abbrev pub IsFrom : List (NodeId × Timeout) → HighExtend → Type 0
IsFrom tms e =
    (i : ℕ) × (x : NodeId × Timeout) × (get_elem? tms i ≡ some x)
    × (e ≡ as_high_extend x.1.high_extend)

-- The highest stands at or above all, and is one of them.
highest_extend-UpTo :
    (tms : List (NodeId × Timeout)) (h : HighExtend)
    → UpTo h (highest_extend tms h)
      × All (λ x. UpTo (as_high_extend x.1.high_extend) (highest_extend tms h)) tms
unfolding highest_extend
highest_extend-UpTo [] h = (UpTo-refl h, tt)
highest_extend-UpTo ((id, t) ∷ tms) h =
    let a = as_high_extend t.high_extend in
    let top = highest_extend tms (higher a h) in
    let (up, all) = highest_extend-UpTo tms (higher a h) in
    let (x, y) = higher-UpTo a h in
    (
      cmp_le_trans (rank h) (rank (higher a h)) (rank top) y up,
      (cmp_le_trans (rank a) (rank (higher a h)) (rank top) x up, all),
    )

highest_extend-IsFrom :
    (tms : List (NodeId × Timeout)) (h : HighExtend)
    → (highest_extend tms h ≡ h) ⊎ IsFrom tms (highest_extend tms h)
unfolding highest_extend
highest_extend-IsFrom [] h = inl refl
highest_extend-IsFrom ((id, t) ∷ tms) h =
    elim (highest_extend-IsFrom tms (higher (as_high_extend t.high_extend) h)) [
      | inr (i, x, g, e) ↦ inr (suc i, x, g, e)
      | inl e ↦ elim (Sign-cases (cmp (rank (as_high_extend t.high_extend)) (rank h))) [
        | inl l ↦ inl (e ∙ ground (arith, l))
        | inr (inl l) ↦ inl (e ∙ ground (arith, l))
        | inr (inr l) ↦ inr (0, (id, t), refl, e ∙ ground (arith, l))
      ]
    ]

-- A timeout certificate that is made is of the given epoch and round, it extends what one of the
-- timeouts extends or else the genesis certificate, and nothing that a timeout extends ranks higher.
pub new_timeout_certificate_lem :
    (bls : Bls) (epoch : Epoch) (round : Round) (tms : List (NodeId × Timeout))
    (mapping : ValidatorMapping) (tc : TimeoutCertificate)
    → new_timeout_certificate bls epoch round tms mapping ≡ ok tc
    → (tc.epoch ≡ epoch)
      × (tc.round ≡ round)
      × ((tc.high_extend ≡ HighExtend.qc genesis_qc) ⊎ IsFrom tms tc.high_extend)
      × All (λ x. cmp (rank (as_high_extend x.1.high_extend)) (rank tc.high_extend) ≢ more) tms
unfolding new_timeout_certificate
new_timeout_certificate_lem bls epoch round tms mapping tc h =
    elim (Outcome-cases (collect_groups bls mapping (group tms []))) [
      | inl (rounds, e) ↦
          let g = HighExtend.qc genesis_qc in
          let q : highest_extend tms g ≡ tc.high_extend = ground (arith, h, e) in
          (
            ground (arith, h, e),
            ground (arith, h, e),
            subst (λ x. (x ≡ g) ⊎ IsFrom tms x) q (highest_extend-IsFrom tms g),
            subst (λ y. All (λ x. UpTo (as_high_extend x.1.high_extend) y) tms) q
                (highest_extend-UpTo tms g).1,
          )
      | inr (inl (x, e)) ↦ absurd (ground (arith, h, e))
      | inr (inr e) ↦ absurd (ground (arith, h, e))
    ]
