-- ===== src/Base/Sort.antt =====
-- sort.Slice on numbers by `<`, as insertion sort.
use Prim.Native.Nat.{ℕ, suc, ◌<◌}
use mathlib.Core.Path.{◌≡◌, refl, ◌∙◌}
use mathlib.Core.Bool.{false, ◌||◌}
use mathlib.Core.List.{List, [], ◌∷◌}
use native.Mathlib.Omega.{arith}
use monadbft_go.Base.Tests.{if◌then◌else◌, leb, ◌==◌}
use monadbft_go.Base.Lists.{length, All}
use monadbft_go.Base.Table.{nat_eq}
use monadbft_go.Base.Sets.{contains, IsDistinct}

unfoldable pub insert_sorted : ℕ → List ℕ → List ℕ
insert_sorted x [] = x ∷ []
insert_sorted x (y ∷ ys) = if leb x y then x ∷ y ∷ ys else y ∷ insert_sorted x ys

unfoldable pub sort : List ℕ → List ℕ
unfolding insert_sorted
sort [] = []
sort (x ∷ xs) = insert_sorted x (sort xs)

-- Strictly increasing: every later entry is larger.
abbrev pub IsIncreasing : List ℕ → Type 0
IsIncreasing [] = Unit
IsIncreasing (x ∷ xs) = All (λ y. x < y) xs × IsIncreasing xs

pub contains-insert_sorted :
    (k x : ℕ) (xs : List ℕ) → contains k (insert_sorted x xs) ≡ (x == k || contains k xs)
unfolding insert_sorted
contains-insert_sorted k x [] = refl
contains-insert_sorted k x (y ∷ ys) = ground (arith, contains-insert_sorted k x ys)

pub contains-sort : (k : ℕ) (xs : List ℕ) → contains k (sort xs) ≡ contains k xs
unfolding sort
contains-sort k [] = refl
contains-sort k (x ∷ xs) = ground (arith, contains-sort k xs, contains-insert_sorted k x (sort xs))

length-insert_sorted : (x : ℕ) (xs : List ℕ) → length (insert_sorted x xs) ≡ suc (length xs)
unfolding insert_sorted
length-insert_sorted x [] = refl
length-insert_sorted x (y ∷ ys) = ground (arith, length-insert_sorted x ys)

pub length-sort : (xs : List ℕ) → length (sort xs) ≡ length xs
unfolding sort
length-sort [] = refl
length-sort (x ∷ xs) = ground (arith, length-sort xs, length-insert_sorted x (sort xs))

All-lt_trans : (x y : ℕ) (ys : List ℕ) → x < y → All (λ z. y < z) ys → All (λ z. x < z) ys
All-lt_trans x y [] h a = tt
All-lt_trans x y (z ∷ zs) h a = (omega arith, All-lt_trans x y zs h a.1)

insert_sorted-All :
    (b x : ℕ) (xs : List ℕ) → b < x → All (λ z. b < z) xs → All (λ z. b < z) (insert_sorted x xs)
unfolding insert_sorted
insert_sorted-All b x [] h a = (h, tt)
insert_sorted-All b x (y ∷ ys) h a = ground (arith, insert_sorted-All b x ys h a.1)

pub insert_sorted-IsIncreasing :
    (x : ℕ) (xs : List ℕ)
    → contains x xs ≡ false
    → IsIncreasing xs
    → IsIncreasing (insert_sorted x xs)
unfolding insert_sorted
insert_sorted-IsIncreasing x [] c i = (tt, tt)
insert_sorted-IsIncreasing x (y ∷ ys) c i =
    ground (arith, All-lt_trans x y ys, insert_sorted-All y x ys, insert_sorted-IsIncreasing x ys)

pub sort-IsIncreasing : (xs : List ℕ) → IsDistinct xs → IsIncreasing (sort xs)
unfolding sort
sort-IsIncreasing [] d = tt
sort-IsIncreasing (x ∷ xs) d =
    insert_sorted-IsIncreasing x (sort xs) (contains-sort x xs ∙ d.0) (sort-IsIncreasing xs d.1)
