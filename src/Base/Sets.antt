-- ===== src/Base/Sets.antt =====
-- A Go map used as a set, and lists of distinct keys.
use Prim.Native.Nat.{suc, ◌≤◌, ◌<◌}
use mathlib.Core.Path.{◌≡◌, refl}
use mathlib.Core.Logic.{inl, inr}
use mathlib.Core.Bool.{Bool, true, false, not, ◌||◌, ◌&&◌}
use mathlib.Core.List.{List, [], ◌∷◌, ◌++◌}
use native.Mathlib.Omega.{arith}
use monadbft_go.Base.Tests.{if◌then◌else◌, Bool-cases}
use monadbft_go.Base.Lists.{length, keep}
use monadbft_go.Base.Table.{Eq, keys, has, lookup, delete}

module _ {ℓ} {K : Type ℓ} ⦃e : Eq K⦄ where
  abbrev pub contains : K → List K → Bool
  contains k [] = false
  contains k (j ∷ js) = e.beq j k || contains k js

  -- No key stands twice.
  abbrev pub IsDistinct : List K → Type 0
  IsDistinct [] = Unit
  IsDistinct (k ∷ ks) = (contains k ks ≡ false) × IsDistinct ks

  -- delete on the set.
  unfoldable pub erase : K → List K → List K
  erase k [] = []
  erase k (j ∷ js) = let rest = erase k js in if e.beq j k then rest else j ∷ rest

  pub beq_refl : (k : K) → e.beq k k ≡ true
  beq_refl k = (e.beq_iff k k).1 refl

  pub beq_sym : (j k : K) → e.beq j k ≡ e.beq k j
  beq_sym j k = ground (arith, e.beq_iff j k, e.beq_iff k j)

  pub contains-append :
      (k : K) (xs ys : List K) → contains k (xs ++ ys) ≡ (contains k xs || contains k ys)
  contains-append k [] ys = refl
  contains-append k (x ∷ xs) ys = ground (arith, contains-append k xs ys)

  pub contains-erase :
      (j k : K) (xs : List K) → contains j (erase k xs) ≡ (not (e.beq k j) && contains j xs)
  unfolding erase
  contains-erase j k [] = ground arith
  contains-erase j k (x ∷ xs) =
      ground (arith, contains-erase j k xs, e.beq_iff x k, e.beq_iff x j, e.beq_iff k j)

  pub erase-IsDistinct : (k : K) (xs : List K) → IsDistinct xs → IsDistinct (erase k xs)
  unfolding erase
  erase-IsDistinct k [] d = tt
  erase-IsDistinct k (x ∷ xs) d = ground (arith, erase-IsDistinct k xs d.1, contains-erase x k xs)

  pub erase_absent : (k : K) (xs : List K) → contains k xs ≡ false → erase k xs ≡ xs
  unfolding erase
  erase_absent k [] h = refl
  erase_absent k (x ∷ xs) h = ground (arith, erase_absent k xs)

  pub length-erase :
      (k : K) (xs : List K)
      → IsDistinct xs
      → contains k xs ≡ true
      → suc (length (erase k xs)) ≡ length xs
  unfolding erase
  length-erase k [] d h = ground arith
  length-erase k (x ∷ xs) d h =
      ground (arith, length-erase k xs d.1, erase_absent k xs, e.beq_iff x k)

  pub append-IsDistinct :
      (xs : List K) (k : K) → IsDistinct xs → contains k xs ≡ false → IsDistinct (xs ++ (k ∷ []))
  append-IsDistinct [] k d h = (refl, tt)
  append-IsDistinct (x ∷ xs) k d h =
      ground (arith, append-IsDistinct xs k d.1, contains-append x xs (k ∷ []), beq_sym x k)

module _ {ℓ} {K : Type ℓ} ⦃e : Eq K⦄ where
  pub contains-keep :
      (k : K) (p : K → Bool) (xs : List K) → contains k (keep p xs) ≡ (contains k xs && p k)
  contains-keep k p [] = refl
  contains-keep k p (x ∷ xs) = elim (Bool-cases (e.beq x k)) [
    | inl h ↦
        let q : x ≡ k = (e.beq_iff x k).0 h in
        rw (← q) (ground (arith, contains-keep x p xs, beq_refl x))
    | inr h ↦ ground (arith, contains-keep k p xs)
  ]

  pub keep-IsDistinct : (p : K → Bool) (xs : List K) → IsDistinct xs → IsDistinct (keep p xs)
  keep-IsDistinct p [] d = tt
  keep-IsDistinct p (x ∷ xs) d = ground (arith, keep-IsDistinct p xs d.1, contains-keep x p xs)

  -- The keys of both lists, in the order of the first.
  abbrev pub both : List K → List K → List K
  both xs ys = keep (λ x. contains x ys) xs

  abbrev pub only_left : List K → List K → List K
  only_left xs ys = keep (λ x. not (contains x ys)) xs

  pub join-IsDistinct :
      (xs ys : List K) → IsDistinct xs → IsDistinct ys → IsDistinct (only_left xs ys ++ ys)
  join-IsDistinct [] ys dx dy = dy
  join-IsDistinct (x ∷ xs) ys dx dy = ground (
    arith,
    join-IsDistinct xs ys dx.1 dy,
    contains-append x (only_left xs ys) ys,
    contains-keep x (λ (k : K). not (contains k ys)) xs,
  )

module _ {ℓ κ} {K : Type ℓ} ⦃e : Eq K⦄ {V : Type κ} where
  pub contains-keys : (k : K) (m : List (K × V)) → contains k (keys m) ≡ has k m
  unfolding has lookup
  contains-keys k [] = refl
  contains-keys k ((j, v) ∷ m) = ground (arith, contains-keys k m)

  pub delete-le : (k : K) (m : List (K × V)) → length (delete k m) ≤ length m
  unfolding delete
  delete-le k [] = omega arith
  delete-le k ((j, v) ∷ m) = ground (arith, delete-le k m)

  pub delete-lt :
      (k : K) (m : List (K × V)) → contains k (keys m) ≡ true → length (delete k m) < length m
  unfolding delete
  delete-lt k [] h = absurd cc
  delete-lt k ((j, v) ∷ m) h = ground (arith, delete-le k m, delete-lt k m)
