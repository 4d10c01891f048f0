-- ===== src/Consensusstate/VoteDelay/Window.antt =====
-- consensusstate/vote_delay.go: what the window holds, and that its gauges exist.
use monadbft_go.Base.{
  ℕ, zero, suc, ◌+◌, ◌-◌, ◌*◌, ◌/◌, ◌%◌, ◌^◌, ◌<◌, ◌≤◌, ◌≡◌, inl, inr, refl, arith, Bool, true,
  false, not, some, List, [], ◌∷◌, map, keep, ltb, leb, if◌then◌else◌, length, get_elem?, add64,
  All, Bool-cases, ◌∙◌, ap,
}
use monadbft_go.Base.Sort.{sort, length-sort}
use monadbft_go.Consensusstate.VoteDelay.{
  TimedVoteDelaySample, cutoff, prune_from, prune, percentile, Gauges, gauges_of, update_metrics,
}

-- Each sample was recorded no later than those behind it.
abbrev pub InOrder : List TimedVoteDelaySample → Type 0
InOrder [] = Unit
InOrder (s ∷ samples) = All (λ x. s.recorded_at_ms ≤ x.recorded_at_ms) samples × InOrder samples

abbrev young : ℕ → TimedVoteDelaySample → Bool
young limit s = not (ltb s.recorded_at_ms limit)

keep-young :
    (limit : ℕ) (samples : List TimedVoteDelaySample)
    → All (λ x. limit ≤ x.recorded_at_ms) samples
    → keep (young limit) samples ≡ samples
keep-young limit [] a = refl
keep-young limit (s ∷ samples) a = ground (arith, a.0, keep-young limit samples a.1)

All-le :
    (m n : ℕ) (samples : List TimedVoteDelaySample)
    → n ≤ m
    → All (λ x. m ≤ x.recorded_at_ms) samples
    → All (λ x. n ≤ x.recorded_at_ms) samples
All-le m n [] h a = tt
All-le m n (s ∷ samples) h a = (omega (arith, h, a.0), All-le m n samples h a.1)

prune_from-keep :
    (limit : ℕ) (samples : List TimedVoteDelaySample) (pruned : Bool)
    → InOrder samples
    → (prune_from limit samples pruned).1 ≡ keep (young limit) samples
unfolding prune_from
prune_from-keep limit [] pruned o = refl
prune_from-keep limit (s ∷ samples) pruned o = elim (Bool-cases (ltb s.recorded_at_ms limit)) [
  | inl q ↦ ground (arith, q, prune_from-keep limit samples true o.1)
  | inr q ↦ ground (
    arith,
    q,
    keep-young limit samples (All-le s.recorded_at_ms limit samples (ground (arith, q)) o.0),
  )
]

keep-window :
    (now : ℕ) (samples : List TimedVoteDelaySample)
    → keep (young (cutoff now)) samples ≡ keep (λ s. leb now (s.recorded_at_ms + 300000)) samples
keep-window now [] = refl
keep-window now (s ∷ samples) = elim (Bool-cases (leb now (s.recorded_at_ms + 300000))) [
  | inl q ↦ ground (arith, q, keep-window now samples)
  | inr q ↦ ground (arith, q, keep-window now samples)
]

length-prune_from :
    (limit : ℕ) (samples : List TimedVoteDelaySample) (pruned : Bool)
    → length (prune_from limit samples pruned).1 ≤ length samples
unfolding prune_from
length-prune_from limit [] pruned = omega arith
length-prune_from limit (s ∷ samples) pruned = elim (Bool-cases (ltb s.recorded_at_ms limit)) [
  | inl q ↦ ground (arith, q, length-prune_from limit samples true)
  | inr q ↦ ground (arith, q)
]

prune_from-flag :
    (limit : ℕ) (samples : List TimedVoteDelaySample) → (prune_from limit samples true).0 ≡ true
unfolding prune_from
prune_from-flag limit [] = refl
prune_from-flag limit (s ∷ samples) = elim (Bool-cases (ltb s.recorded_at_ms limit)) [
  | inl q ↦ ground (arith, q, prune_from-flag limit samples)
  | inr q ↦ ground (arith, q)
]

pruned_some :
    (limit : ℕ) (samples : List TimedVoteDelaySample)
    → (prune_from limit samples false).0
      ≡ ltb (length (prune_from limit samples false).1) (length samples)
unfolding prune_from
pruned_some limit [] = ground arith
pruned_some limit (s ∷ samples) = elim (Bool-cases (ltb s.recorded_at_ms limit)) [
  | inl q ↦ ground (arith, q, prune_from-flag limit samples, length-prune_from limit samples true)
  | inr q ↦ ground (arith, q)
]

-- On samples in the order of their recording, pruning leaves exactly those that were recorded at most
-- 300000 milliseconds, five minutes, ago, and says whether any other was there.
pub prune-keep :
    (now : ℕ) (samples : List TimedVoteDelaySample)
    → InOrder samples
    → ((prune now samples).1 ≡ keep (λ s. leb now (s.recorded_at_ms + 300000)) samples)
      × ((prune now samples).0 ≡ ltb (length (prune now samples).1) (length samples))
unfolding prune
prune-keep now samples o = (
  prune_from-keep (cutoff now) samples false o ∙ keep-window now samples,
  pruned_some (cutoff now) samples,
)

in_range : (xs : List ℕ) (i : ℕ) → i < length xs → (x : ℕ) × (get_elem? xs i ≡ some x)
in_range [] i h = absurd (omega arith)
in_range (x ∷ xs) zero h = (x, refl)
in_range (x ∷ xs) (suc i) h = in_range xs i (omega arith)

rank_in_range :
    (n m : ℕ)
    → 0 < n
    → m ≤ n * 100
    → n * 100 + 99 < 2 ^ 64
    → (if ltb (add64 (m % 2 ^ 64) 99 / 100) 1 then 1 else add64 (m % 2 ^ 64) 99 / 100) - 1 < n
rank_in_range n m h le fits = ground arith

percentile-some :
    (xs : List ℕ) (p : ℕ)
    → 0 < length xs
    → length xs * p ≤ length xs * 100
    → length xs * 100 + 99 < 2 ^ 64
    → (x : ℕ) × (percentile xs p ≡ some x)
unfolding percentile
percentile-some xs p h le fits = in_range xs _ (rank_in_range (length xs) (length xs * p) h le fits)

length-map :
    (f : TimedVoteDelaySample → ℕ) (xs : List TimedVoteDelaySample) → length (map f xs) ≡ length xs
length-map f [] = refl
length-map f (x ∷ xs) = ap suc (length-map f xs)

-- Updating the gauges never indexes out of range, as long as a hundred times the number of samples
-- and 99 more fit 64 bits.
pub update_metrics_returns :
    (samples : List TimedVoteDelaySample)
    → length samples * 100 + 99 < 2 ^ 64
    → (g : Gauges) × (update_metrics samples ≡ some g)
unfolding update_metrics gauges_of
update_metrics_returns [] fits = (_, refl)
update_metrics_returns (s ∷ samples) fits =
    let values = sort (map (λ x. x.ready_after_timer_start_ms) (s ∷ samples)) in
    let n : length values ≡ suc (length samples) =
      length-sort (map (λ x. x.ready_after_timer_start_ms) (s ∷ samples))
      ∙ length-map (λ x. x.ready_after_timer_start_ms) (s ∷ samples) in
    let (a, p) =
      percentile-some values 50 (omega (arith, n)) (omega (arith, n)) (omega (arith, n, fits)) in
    let (b, q) =
      percentile-some values 90 (omega (arith, n)) (omega (arith, n)) (omega (arith, n, fits)) in
    let (c, r) =
      percentile-some values 99 (omega (arith, n)) (omega (arith, n)) (omega (arith, n, fits)) in
    (record { p50 = a; p90 = b; p99 = c }, cc (p, q, r))
