-- ===== src/Validator/ValidatorSet/Quorum.antt =====
-- validator/validator.go: what the vote thresholds promise.
use monadbft_go.Base.{
  ℕ, ◌+◌, ◌*◌, ◌/◌, ◌^◌, ◌≤◌, ◌<◌, ◌≡◌, refl, ◌↔◌, ◌⊎◌, ◌∙◌, ap, Bool, true, false, List, [], ◌∷◌,
  ◌++◌, leb, if◌then◌else◌, arith, All, Option-cases, inl, inr,
}
use monadbft_go.Base.Table.{lookup, nat_eq}
use monadbft_go.Base.Sets.{contains, IsDistinct, both, only_left, keep-IsDistinct, join-IsDistinct}
use monadbft_go.Types.{NodeId, Stake}
use monadbft_go.Validator.ValidatorSet.{
  Result, ok, err, panic, ValidatorSet, stake_add, stake_or_zero, current_stake_loop,
  calculate_current_stake, threshold, stake_from_big, has_threshold_votes, has_super_majority_votes,
  has_honest_vote, ◌>>=◌,
}

-- The stake of a list of addresses, without wrap-around, and the sum of a stake table.
unfoldable pub weight : List (NodeId × Stake) → List NodeId → ℕ
weight m [] = 0
weight m (a ∷ addrs) = stake_or_zero (lookup a m) + weight m addrs

unfoldable pub total : List (NodeId × Stake) → ℕ
total [] = 0
total ((k, s) ∷ m) = s + total m

-- The total is that of the table, and has not wrapped.
pub record IsValid (v : ValidatorSet) : Type 0 where
  pub sums : v.total_stake ≡ total v.stakes
  pub fits : total v.stakes < 2 ^ 256

weight-append :
    (m : List (NodeId × Stake)) (xs ys : List NodeId)
    → weight m (xs ++ ys) ≡ weight m xs + weight m ys
unfolding weight
weight-append m [] ys = omega arith
weight-append m (x ∷ xs) ys = omega (arith, weight-append m xs ys)

weight-split :
    (m : List (NodeId × Stake)) (xs ys : List NodeId)
    → weight m xs ≡ weight m (both xs ys) + weight m (only_left xs ys)
unfolding weight
weight-split m [] ys = omega arith
weight-split m (x ∷ xs) ys = ground (arith, weight-split m xs ys)

-- What one entry of the table adds to a list of distinct addresses.
weight-entry :
    (k : NodeId) (s : Stake) (m : List (NodeId × Stake)) (addrs : List NodeId)
    → IsDistinct addrs
    → weight ((k, s) ∷ m) addrs ≤ (if contains k addrs then s else 0) + weight m addrs
unfolding weight lookup
weight-entry k s m [] d = omega arith
weight-entry k s m (a ∷ addrs) d = ground (arith, weight-entry k s m addrs d.1)

weight_empty : (addrs : List NodeId) → weight [] addrs ≡ 0
unfolding weight lookup
weight_empty [] = refl
weight_empty (a ∷ addrs) = omega (arith, weight_empty addrs)

weight-le-total :
    (m : List (NodeId × Stake)) (addrs : List NodeId) → IsDistinct addrs → weight m addrs ≤ total m
unfolding total
weight-le-total [] addrs d = omega (arith, weight_empty addrs)
weight-le-total ((k, s) ∷ m) addrs d =
    ground (arith, weight-entry k s m addrs d, weight-le-total m addrs d)

-- No address of the list is among those seen.
abbrev Unseen : List NodeId → List NodeId → Type 0
Unseen seen addrs = All (λ a. contains a seen ≡ false) addrs

Unseen-cons :
    (a : NodeId) (seen addrs : List NodeId)
    → contains a addrs ≡ false
    → Unseen seen addrs
    → Unseen (a ∷ seen) addrs
Unseen-cons a seen [] c u = tt
Unseen-cons a seen (x ∷ xs) c u = ground (arith, Unseen-cons a seen xs)

current_stake_loop_lem :
    (v : ValidatorSet) (seen : List NodeId) (sum : Stake) (addrs : List NodeId)
    → IsDistinct addrs
    → Unseen seen addrs
    → sum + weight v.stakes addrs < 2 ^ 256
    → current_stake_loop v seen sum addrs ≡ ok (sum + weight v.stakes addrs)
unfolding current_stake_loop weight
current_stake_loop_lem v seen sum [] d u h = ground arith
current_stake_loop_lem v seen sum (a ∷ addrs) d u h = elim (Option-cases (lookup a v.stakes)) [
  | inl e ↦
      ground
        (arith, Unseen-cons a seen addrs d.0 u.1, current_stake_loop_lem v (a ∷ seen) sum addrs d.1)
  | inr (s, e) ↦ ground (
    arith,
    Unseen-cons a seen addrs d.0 u.1,
    current_stake_loop_lem v (a ∷ seen) (sum + s) addrs d.1,
  )
]

Unseen-uncons :
    (a : NodeId) (seen addrs : List NodeId)
    → Unseen (a ∷ seen) addrs
    → (contains a addrs ≡ false) × Unseen seen addrs
Unseen-uncons a seen [] u = (refl, tt)
Unseen-uncons a seen (x ∷ xs) u = ground (arith, Unseen-uncons a seen xs u.1)

-- A sum comes back only for distinct addresses.
current_stake_loop-IsDistinct :
    (v : ValidatorSet) (seen : List NodeId) (sum r : Stake) (addrs : List NodeId)
    → current_stake_loop v seen sum addrs ≡ ok r
    → IsDistinct addrs × Unseen seen addrs
unfolding current_stake_loop
current_stake_loop-IsDistinct v seen sum r [] e = (tt, tt)
current_stake_loop-IsDistinct v seen sum r (a ∷ addrs) e = elim (Option-cases (lookup a v.stakes)) [
  | inl n ↦
      ground
        (arith, current_stake_loop-IsDistinct v (a ∷ seen) sum r addrs, Unseen-uncons a seen addrs)
  | inr (s, n) ↦ ground (
    arith,
    current_stake_loop-IsDistinct v (a ∷ seen) (stake_add sum s) r addrs,
    Unseen-uncons a seen addrs,
  )
]

All-Unseen_nil : (addrs : List NodeId) → Unseen [] addrs
All-Unseen_nil [] = tt
All-Unseen_nil (a ∷ addrs) = (refl, All-Unseen_nil addrs)

-- The stake of distinct addresses is their exact weight: the sum does not wrap.
pub calculate_current_stake_lem :
    (v : ValidatorSet) (addrs : List NodeId)
    → IsValid v
    → IsDistinct addrs
    → calculate_current_stake v addrs ≡ ok (weight v.stakes addrs)
unfolding calculate_current_stake
calculate_current_stake_lem v addrs w d =
    current_stake_loop_lem v [] 0 addrs d (All-Unseen_nil addrs)
      (omega (arith, weight-le-total v.stakes addrs d, w.fits))
    ∙ ap ok (omega arith)

calculate_current_stake-IsDistinct :
    (v : ValidatorSet) (addrs : List NodeId) {r : Stake}
    → calculate_current_stake v addrs ≡ ok r
    → IsDistinct addrs
unfolding calculate_current_stake
calculate_current_stake-IsDistinct v addrs {r} e =
    (current_stake_loop-IsDistinct v [] 0 r addrs e).0

-- The thresholds fit 32 bytes, so building them never panics.
threshold_fits :
    (t : Stake)
    → t < 2 ^ 256
    → (threshold t 2 3 true ≡ ok (t * 2 / 3 + 1)) × (threshold t 1 3 true ≡ ok (t * 1 / 3 + 1))
unfolding threshold stake_from_big
threshold_fits t h = ground arith

sum-IsDistinct :
    (v : ValidatorSet) (addrs : List NodeId) (thr : Stake) (r : Result Stake) {b : Bool}
    → calculate_current_stake v addrs ≡ r
    → (r >>= (λ sum. ok (leb thr sum))) ≡ ok b
    → IsDistinct addrs
sum-IsDistinct v addrs thr (ok s) e h = calculate_current_stake-IsDistinct v addrs e
sum-IsDistinct v addrs thr (err x) e h = cc
sum-IsDistinct v addrs thr panic e h = cc

votes-IsDistinct :
    (v : ValidatorSet) (addrs : List NodeId)
    → IsValid v
    → (has_super_majority_votes v addrs ≡ ok true) ⊎ (has_honest_vote v addrs ≡ ok true)
    → IsDistinct addrs
unfolding has_super_majority_votes has_honest_vote has_threshold_votes
votes-IsDistinct v addrs w (inl e) =
    let t = threshold_fits v.total_stake (omega (arith, w.sums, w.fits)) in
    sum-IsDistinct v addrs (v.total_stake * 2 / 3 + 1) (calculate_current_stake v addrs) refl
      (rw t.0 at e)
votes-IsDistinct v addrs w (inr e) =
    let t = threshold_fits v.total_stake (omega (arith, w.sums, w.fits)) in
    sum-IsDistinct v addrs (v.total_stake * 1 / 3 + 1) (calculate_current_stake v addrs) refl
      (rw t.1 at e)

abbrev pub Answers : ValidatorSet → List NodeId → Result Bool → ℕ → Type 0
Answers v addrs r num =
    (r ≡ ok true) ↔ (IsDistinct addrs × (v.total_stake * num < 3 * weight v.stakes addrs))

-- In a valid set, with more than two thirds of the stake: `has_super_majority_votes` answers true exactly for distinct
-- addresses that hold more; `has_honest_vote` does the same for one third.
pub has_votes_iff :
    (v : ValidatorSet) (addrs : List NodeId)
    → IsValid v
    → Answers v addrs (has_super_majority_votes v addrs) 2
      × Answers v addrs (has_honest_vote v addrs) 1
unfolding has_super_majority_votes has_honest_vote has_threshold_votes
has_votes_iff v addrs w =
    let t = threshold_fits v.total_stake (omega (arith, w.sums, w.fits)) in
    (
      (
        (λ e.
            let d : IsDistinct addrs = votes-IsDistinct v addrs w (inl e) in
            (d, ground (arith, t, calculate_current_stake_lem v addrs w d))),
        (λ h. ground (arith, t, calculate_current_stake_lem v addrs w h.0)),
      ),
      (
        (λ e.
            let d : IsDistinct addrs = votes-IsDistinct v addrs w (inr e) in
            (d, ground (arith, t, calculate_current_stake_lem v addrs w d))),
        (λ h. ground (arith, t, calculate_current_stake_lem v addrs w h.0)),
      ),
    )

-- In a valid set, where the total is that of the table and has not wrapped, two super-majorities share more than one third of the stake: whoever is in both makes `has_honest_vote`
-- answer true.
pub quorum_intersection :
    (v : ValidatorSet) (xs ys : List NodeId)
    → IsValid v
    → has_super_majority_votes v xs ≡ ok true
    → has_super_majority_votes v ys ≡ ok true
    → has_honest_vote v (both xs ys) ≡ ok true
quorum_intersection v xs ys w p q =
    let (dx, hx) = (has_votes_iff v xs w).0.0 p in
    let (dy, hy) = (has_votes_iff v ys w).0.0 q in
    (has_votes_iff v (both xs ys) w).1.1 (
      keep-IsDistinct (λ x. contains x ys) xs dx,
      omega (
        arith,
        hx,
        hy,
        w.sums,
        weight-split v.stakes xs ys,
        weight-append v.stakes (only_left xs ys) ys,
        weight-le-total v.stakes (only_left xs ys ++ ys) (join-IsDistinct xs ys dx dy),
      ),
    )
