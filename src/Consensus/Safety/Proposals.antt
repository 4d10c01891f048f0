-- ===== src/Consensus/Safety/Proposals.antt =====
-- consensus/safety.go: the bounded cache of handled proposals forgets the oldest round first.
use monadbft_go.Base.{
  suc, ◌≤◌, ◌<◌, ◌≡◌, refl, inl, inr, true, false, some, List, [], ◌∷◌, ◌++◌, arith, ltb,
  if◌then◌else◌, Bool-cases, length, drop, length-append, subst,
}
use monadbft_go.Base.Table.{nat_eq}
use monadbft_go.Base.Sets.{
  contains, IsDistinct, erase, contains-erase, erase-IsDistinct, length-erase, append-IsDistinct,
  contains-append,
}
use monadbft_go.Types.{Round}
use monadbft_go.Consensus.Safety.{
  Safety, handled_proposal_cache_size, is_safe_to_handle_proposal, evict, handle_proposal,
}

-- The set and the order list hold the same rounds, each once, and at most a hundred.
pub record IsCache (handled order : List Round) : Type 0 where
  pub agrees : (r : Round) → contains r handled ≡ contains r order
  pub sizes : length handled ≡ length order
  pub distinct : IsDistinct handled
  pub ordered : IsDistinct order
  pub bounded : length order ≤ handled_proposal_cache_size

evict_small :
    (handled order : List Round)
    → length handled ≤ 100
    → evict handled order ≡ some (handled, order)
unfolding evict
evict_small handled [] h = ground arith
evict_small handled (x ∷ order) h = ground arith

evict_one :
    (handled order : List Round) (x : Round)
    → length handled ≡ 101
    → length (erase x handled) ≤ 100
    → evict handled (x ∷ order) ≡ some (erase x handled, order)
unfolding evict
evict_one handled order x h k = ground (arith, evict_small (erase x handled) order)

-- The order list after a round is added.
abbrev pub latest : List Round → Round → List Round
latest order r =
    if ltb (length order) handled_proposal_cache_size
    then order ++ (r ∷ [])
    else drop 1 order ++ (r ∷ [])

added-IsCache :
    (handled order : List Round) (r : Round)
    → IsCache handled order
    → contains r handled ≡ false
    → length order < 100
    → IsCache (r ∷ handled) (order ++ (r ∷ []))
added-IsCache handled order r c h l = record {
  agrees = λ k. ground (arith, c.agrees k, contains-append k order (r ∷ []));
  sizes = ground (arith, c.sizes, length-append order (r ∷ []));
  distinct = (h, c.distinct);
  ordered = append-IsDistinct order r c.ordered (ground (arith, c.agrees r));
  bounded = ground (arith, length-append order (r ∷ []));
}

evicted-IsCache :
    (handled order : List Round) (x r : Round)
    → IsCache handled (x ∷ order)
    → contains r handled ≡ false
    → length order ≡ 99
    → IsCache (erase x (r ∷ handled)) (order ++ (r ∷ []))
evicted-IsCache handled order x r c h l = record {
  agrees = λ k. ground (
    arith,
    c.agrees k,
    contains-append k order (r ∷ []),
    contains-erase k x (r ∷ handled),
    c.agrees r,
    c.ordered,
  );
  sizes = ground (
    arith,
    c.sizes,
    length-append order (r ∷ []),
    length-erase x (r ∷ handled),
    c.agrees x,
    c.agrees r,
    c.distinct,
  );
  distinct = erase-IsDistinct x (r ∷ handled) (h, c.distinct);
  ordered = append-IsDistinct order r c.ordered.1 (ground (arith, c.agrees r));
  bounded = ground (arith, length-append order (r ∷ []));
}

latest_small :
    (order : List Round) (r : Round) → length order < 100 → order ++ (r ∷ []) ≡ latest order r
latest_small order r l = ground arith

latest_full :
    (x : Round) (order : List Round) (r : Round)
    → length order ≡ 99
    → order ++ (r ∷ []) ≡ latest (x ∷ order) r
latest_full x order r l = ground arith

-- The loop's result on the lists that the handler hands it.
abbrev Evicts : List Round → List Round → Round → Type 0
Evicts handled order r =
    (h : List Round) × (evict (r ∷ handled) (order ++ (r ∷ [])) ≡ some (h, latest order r))
    × IsCache h (latest order r)

no_eviction :
    (handled order : List Round) (r : Round)
    → IsCache handled order
    → contains r handled ≡ false
    → length order < 100
    → Evicts handled order r
no_eviction handled order r c f l =
    subst
      (λ o.
        (h : List Round) × (evict (r ∷ handled) (order ++ (r ∷ [])) ≡ some (h, o)) × IsCache h o)
      (latest_small order r l)
      (r ∷ handled, evict_small _ _ (omega (arith, c.sizes)), added-IsCache handled order r c f l)

one_eviction :
    (handled : List Round) (x : Round) (order : List Round) (r : Round)
    → IsCache handled (x ∷ order)
    → contains r handled ≡ false
    → length order ≡ 99
    → Evicts handled (x ∷ order) r
one_eviction handled x order r c f l =
    subst
      (λ o.
        (h : List Round) × (evict (r ∷ handled) ((x ∷ order) ++ (r ∷ [])) ≡ some (h, o))
        × IsCache h o)
      (latest_full x order r l)
      (
        erase x (r ∷ handled),
        evict_one _ (order ++ (r ∷ [])) x (omega (arith, c.sizes))
            (ground (arith, new.sizes, length-append order (r ∷ []))),
        new,
      )
  where
    new : IsCache (erase x (r ∷ handled)) (order ++ (r ∷ []))
    new = evicted-IsCache handled order x r c f l

evicts :
    (handled order : List Round) (r : Round)
    → IsCache handled order
    → contains r handled ≡ false
    → Evicts handled order r
evicts handled [] r c f = no_eviction handled [] r c f (omega arith)
evicts handled (x ∷ order) r c f = elim (Bool-cases (ltb (suc (length order)) 100)) [
  | inl l ↦ no_eviction handled (x ∷ order) r c f (ground arith)
  | inr l ↦ one_eviction handled x order r c f (ground (arith, c.bounded))
]

latest_has : (order : List Round) (r : Round) → contains r (latest order r) ≡ true
latest_has order r =
    ground (arith, contains-append r order (r ∷ []), contains-append r (drop 1 order) (r ∷ []))

-- Handling a round that is not cached returns; the cache stays well formed, then holds the round, and
-- its order list is that of the hundred last rounds handled.
pub handle_proposal_lem :
    (s : Safety) (r : Round)
    → IsCache s.handled_proposals s.handled_proposals_order
    → is_safe_to_handle_proposal s r ≡ true
    → (t : Safety) × (handle_proposal s r ≡ some t)
      × IsCache t.handled_proposals t.handled_proposals_order
      × (is_safe_to_handle_proposal t r ≡ false)
      × (t.handled_proposals_order ≡ latest s.handled_proposals_order r)
unfolding handle_proposal is_safe_to_handle_proposal
handle_proposal_lem s r c safe =
    let (h, e, k) = evicts s.handled_proposals s.handled_proposals_order r c (ground arith) in
    (
      record s {
        handled_proposals = h;
        handled_proposals_order = latest s.handled_proposals_order r;
      },
      rw (safe, e),
      k,
      ground (arith, k.agrees r, latest_has s.handled_proposals_order r),
      refl,
    )
