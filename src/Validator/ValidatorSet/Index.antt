-- ===== src/Validator/ValidatorSet/Index.antt =====
-- validator/validator.go: the binary search of Index finds exactly the members.
use monadbft_go.Base.{
  ℕ, zero, suc, ◌+◌, ◌/◌, ◌≤◌, ◌<◌, ◌≡◌, refl, sym, ap, ◌↔◌, some, List, [], ◌∷◌, ◌==◌, ltb, leb,
  arith, subst, ==_iff, ltb→lt, leb→le, Bool-cases, Option-cases, inl, inr, get_elem?, length, All,
}
use monadbft_go.Base.Sort.{IsIncreasing}
use monadbft_go.Types.{NodeId}
use monadbft_go.Validator.ValidatorSet.{ValidatorSet, search, index, index_in}

-- Every entry before `i` is smaller than `id`; every entry from `j` on is not.
abbrev Before : List NodeId → NodeId → ℕ → Type 0
Before ms id i = (k : ℕ) (m : NodeId) → k < i → get_elem? ms k ≡ some m → m < id

abbrev From : List NodeId → NodeId → ℕ → Type 0
From ms id j = (k : ℕ) (m : NodeId) → j ≤ k → get_elem? ms k ≡ some m → id ≤ m

All-at :
    (x : NodeId) (ms : List NodeId) (k m : ℕ)
    → All (λ y. x < y) ms
    → get_elem? ms k ≡ some m
    → x < m
All-at x [] k m a e = cc
All-at x (y ∷ ys) zero m a e = ground arith
All-at x (y ∷ ys) (suc k) m a e = All-at x ys k m a.1 e

increasing_at :
    (ms : List NodeId) (k l a b : ℕ)
    → IsIncreasing ms
    → k < l
    → get_elem? ms k ≡ some a
    → get_elem? ms l ≡ some b
    → a < b
increasing_at [] k l a b i h p q = cc
increasing_at (x ∷ xs) zero zero a b i h p q = absurd (omega arith)
increasing_at (x ∷ xs) zero (suc l) a b i h p q = ground (arith, All-at x xs l b i.0 q)
increasing_at (x ∷ xs) (suc k) zero a b i h p q = absurd (omega arith)
increasing_at (x ∷ xs) (suc k) (suc l) a b i h p q = increasing_at xs k l a b i.1 (omega arith) p q

get_elem?-some :
    (ms : List NodeId) (k : ℕ) → k < length ms → (m : NodeId) × (get_elem? ms k ≡ some m)
get_elem?-some [] k h = absurd (omega arith)
get_elem?-some (x ∷ xs) zero h = (x, refl)
get_elem?-some (x ∷ xs) (suc k) h = get_elem?-some xs k (omega arith)

get_elem?-lt : (ms : List NodeId) (k m : ℕ) → get_elem? ms k ≡ some m → k < length ms
get_elem?-lt [] k m e = cc
get_elem?-lt (x ∷ xs) zero m e = omega arith
get_elem?-lt (x ∷ xs) (suc k) m e = omega (arith, get_elem?-lt xs k m e)

abbrev Splits : List NodeId → NodeId → ℕ → Type 0
Splits ms id r = Before ms id r × From ms id r

-- The three ways a round of the loop goes.
search_stop : (fuel : ℕ) (ms : List NodeId) (id i j : ℕ) → j ≤ i → search (suc fuel) ms id i j ≡ i
unfolding search
search_stop fuel ms id i j h = ground arith

search_down :
    (fuel : ℕ) (ms : List NodeId) (id i j m : ℕ)
    → i < j
    → get_elem? ms ((i + j) / 2) ≡ some m
    → id ≤ m
    → search (suc fuel) ms id i j ≡ search fuel ms id i ((i + j) / 2)
unfolding search
search_down fuel ms id i j m h e l = ground arith

search_up :
    (fuel : ℕ) (ms : List NodeId) (id i j m : ℕ)
    → i < j
    → get_elem? ms ((i + j) / 2) ≡ some m
    → m < id
    → search (suc fuel) ms id i j ≡ search fuel ms id ((i + j) / 2 + 1) j
unfolding search
search_up fuel ms id i j m h e l = ground arith

Before-up :
    (ms : List NodeId) (id h m : ℕ)
    → IsIncreasing ms
    → get_elem? ms h ≡ some m
    → m < id
    → Before ms id (h + 1)
Before-up ms id h m inc e l k x lt p = elim (Bool-cases (k == h)) [
  | inl q ↦ ground (arith, ap (get_elem? ms) ((==_iff k h).0 q))
  | inr q ↦ ground (arith, increasing_at ms k h x m inc)
]

From-down :
    (ms : List NodeId) (id h m : ℕ)
    → IsIncreasing ms
    → get_elem? ms h ≡ some m
    → id ≤ m
    → From ms id h
From-down ms id h m inc e l k x lt p = elim (Bool-cases (k == h)) [
  | inl q ↦ ground (arith, ap (get_elem? ms) ((==_iff k h).0 q))
  | inr q ↦ ground (arith, increasing_at ms h k m x inc)
]

search-Splits :
    (fuel : ℕ) (ms : List NodeId) (id i j : ℕ)
    → IsIncreasing ms
    → i ≤ j
    → j ≤ length ms
    → j < i + fuel
    → Before ms id i
    → From ms id j
    → Splits ms id (search fuel ms id i j)
search-Splits zero ms id i j inc h l f b a = absurd (omega arith)
search-Splits (suc fuel) ms id i j inc h l f b a = elim (Bool-cases (ltb i j)) [
  | inr ge ↦
      subst (Splits ms id) (sym (search_stop fuel ms id i j (ground arith)))
        (b, λ k m p. a k m (ground arith))
  | inl lt ↦
      let lt' : i < j = ltb→lt i j lt in
      let (m, e) = get_elem?-some ms ((i + j) / 2) (omega arith) in
      elim (Bool-cases (leb id m)) [
        | inl le ↦
            let le' : id ≤ m = leb→le id m le in
            subst (Splits ms id) (sym (search_down fuel ms id i j m lt' e le')) (
              search-Splits fuel ms id i ((i + j) / 2) inc (omega arith) (omega arith) (omega arith)
                b (From-down ms id ((i + j) / 2) m inc e le'))
        | inr gt ↦
            let gt' : m < id = ground arith in
            subst (Splits ms id) (sym (search_up fuel ms id i j m lt' e gt')) (
              search-Splits fuel ms id ((i + j) / 2 + 1) j inc (omega arith) (omega arith)
                (omega arith) (Before-up ms id ((i + j) / 2) m inc e gt') a)
      ]
]

-- Where an entry equal to `id` stands, the search ends there.
Splits-at :
    (ms : List NodeId) (id i r : ℕ)
    → IsIncreasing ms
    → Splits ms id r
    → get_elem? ms i ≡ some id
    → r ≡ i
Splits-at ms id i r inc s e = elim (Bool-cases (ltb i r)) [
  | inl lt ↦ absurd (omega (arith, s.0 i id (ltb→lt i r lt) e))
  | inr ge ↦ elim (Bool-cases (r == i)) [
    | inl q ↦ ground arith
    | inr q ↦
        let p : r < i = ground arith in
        let (m, g) = get_elem?-some ms r (omega (arith, get_elem?-lt ms i id e)) in
        absurd (omega (arith, s.1 r m (omega arith) g, increasing_at ms r i m id inc p g e))
  ]
]

-- Both Index methods on ids in increasing order.
pub index_in_lem :
    (ids : List NodeId) (id : NodeId) (i : ℕ)
    → IsIncreasing ids
    → (index_in ids id ≡ some i) ↔ (get_elem? ids i ≡ some id)
unfolding index_in
index_in_lem ids id i inc = (forward, backward)
  where
    r : ℕ
    r = search (suc (length ids)) ids id 0 (length ids)

    splits : Splits ids id r
    splits =
        search-Splits (suc (length ids)) ids id 0 (length ids) inc (omega arith) (omega arith)
          (omega arith) (λ k m h e. absurd (omega arith))
          (λ k m h e. absurd (omega (arith, get_elem?-lt ids k m e)))

    forward : index_in ids id ≡ some i → get_elem? ids i ≡ some id
    forward e = elim (Option-cases (get_elem? ids r)) [
      | inl n ↦ ground (arith, n)
      | inr (m, p) ↦ ground (arith, p)
    ]

    backward : get_elem? ids i ≡ some id → index_in ids id ≡ some i
    backward e = ground (arith, Splits-at ids id i r inc splits e)

-- On the members in increasing order `index` answers a position exactly when the node stands there;
-- so it answers -1 exactly for nodes that are not members.
pub index_lem :
    (v : ValidatorSet) (id : NodeId) (i : ℕ)
    → IsIncreasing v.members
    → (index v id ≡ some i) ↔ (get_elem? v.members i ≡ some id)
unfolding index
index_lem v id i inc = index_in_lem v.members id i inc
