-- ===== src/Validator/EpochManager/Starts.antt =====
-- validator/epoch.go: starts are recorded once, and a round lies in the last epoch that has started.
use monadbft_go.Base.{
  ◌≡◌, ◌≤◌, ◌<◌, ◌⊎◌, inl, inr, refl, true, false, Option, none, some, List, [], ◌∷◌, leb, ◌==◌,
  if◌then◌else◌, arith, All, Bool-cases, Option-cases, ==_iff,
}
use monadbft_go.Base.Table.{lookup, insert, has, nat_eq, lookup-insert}
use monadbft_go.Base.Sets.{contains}
use monadbft_go.Base.Sort.{
  insert_sorted, IsIncreasing, contains-insert_sorted, insert_sorted-IsIncreasing,
}
use monadbft_go.Types.{Round, Epoch}
use monadbft_go.Validator.EpochManager.{
  EpochManager, insert_epoch_start, get_epoch_start, epoch_loop, epoch_at, start_of,
}

-- The sorted list holds the keys of the table.
pub record IsIndexed (em : EpochManager) : Type 0 where
  pub same : (e : Epoch) → contains e em.sorted ≡ has e em.epoch_starts
  pub increasing : IsIncreasing em.sorted

-- Where the sorted list holds the keys of the table, recording a start keeps it so. The same start again changes nothing, another one for the same
-- epoch panics, and a new epoch gets its start while all others keep theirs.
pub insert_epoch_start-IsIndexed :
    (em : EpochManager) (e : Epoch) (r : Round)
    → IsIndexed em
    → ((get_epoch_start em e ≡ some r) × (insert_epoch_start em e r ≡ some em))
      ⊎ (((s : Round) × (get_epoch_start em e ≡ some s)
            × ((s == r) ≡ false)
            × (insert_epoch_start em e r ≡ none))
          ⊎ ((get_epoch_start em e ≡ none)
              × ((u : EpochManager) × (insert_epoch_start em e r ≡ some u)
                  × IsIndexed u
                  × ((k : Epoch)
                      → get_epoch_start u k ≡ (if e == k then some r else get_epoch_start em k)))))
unfolding insert_epoch_start get_epoch_start has
insert_epoch_start-IsIndexed em e r w = elim (Option-cases (lookup e em.epoch_starts)) [
  | inl n ↦ inr (
      inr (
        n,
        (
          record em {
            epoch_starts = insert e r em.epoch_starts;
            sorted = insert_sorted e em.sorted;
          },
          ground (arith, n),
          record {
            same = λ k. ground (
              arith,
              lookup-insert k e r em.epoch_starts,
              contains-insert_sorted k e em.sorted,
              w.same k,
            );
            increasing =
                insert_sorted-IsIncreasing e em.sorted (ground (arith, w.same e, n)) w.increasing;
          },
          λ k. lookup-insert k e r em.epoch_starts,
        ),
      ))
  | inr (s, h) ↦ elim (Bool-cases (s == r)) [
    | inl q ↦ inl (ground arith)
    | inr q ↦ inr (inl (s, h, q, ground (arith, h, q)))
  ]
]

-- Later epochs start no earlier.
abbrev pub IsMonotone : List (Epoch × Round) → List Epoch → Type 0
IsMonotone starts [] = Unit
IsMonotone starts (e ∷ es) =
    All (λ x. start_of starts e ≤ start_of starts x) es × IsMonotone starts es

starts_rise :
    (starts : List (Epoch × Round)) (s r : Round) (es : List Epoch)
    → r < s
    → All (λ x. s ≤ start_of starts x) es
    → All (λ x. r < start_of starts x) es
starts_rise starts s r [] h a = tt
starts_rise starts s r (x ∷ es) h a = (omega (arith, a.0), starts_rise starts s r es h a.1)

-- What stands above the epoch that is found starts later.
abbrev pub Rest : List (Epoch × Round) → Round → Epoch → List Epoch → Type 0
Rest starts r e es = All (λ x. (x ≤ e) ⊎ (r < start_of starts x)) es

starts_ahead :
    (starts : List (Epoch × Round)) (r : Round) (e : Epoch) (es : List Epoch)
    → All (λ x. r < start_of starts x) es
    → Rest starts r e es
starts_ahead starts r e [] a = tt
starts_ahead starts r e (x ∷ es) a = (inr a.0, starts_ahead starts r e es a.1)

above : (e x : Epoch) (es : List Epoch) → All (λ y. e < y) es → contains x es ≡ true → e < x
above e x [] a c = cc
above e x (y ∷ es) a c = elim (Bool-cases (y == x)) [
  | inl q ↦ omega (arith, a.0, (==_iff y x).0 q)
  | inr q ↦ above e x es a.1 (ground (arith, c, q))
]

loop_cases :
    (starts : List (Epoch × Round)) (found : Option Epoch) (es : List Epoch) (r : Round)
    → IsIncreasing es
    → IsMonotone starts es
    → ((epoch_loop starts found es r ≡ found) × All (λ x. r < start_of starts x) es)
      ⊎ ((e : Epoch) × (epoch_loop starts found es r ≡ some e)
          × (contains e es ≡ true)
          × (start_of starts e ≤ r)
          × Rest starts r e es)
unfolding epoch_loop
loop_cases starts found [] r i m = inl (refl, tt)
loop_cases starts found (e ∷ es) r i m = elim (Bool-cases (leb (start_of starts e) r)) [
  | inr q ↦ inl (
    ground (arith, q),
    (ground arith, starts_rise starts (start_of starts e) r es (ground arith) m.0),
  )
  | inl q ↦ elim (loop_cases starts (some e) es r i.1 m.1) [
    | inl (h, a) ↦ inr (
      e,
      ground (arith, q, h),
      ground arith,
      ground arith,
      (inl (omega arith), starts_ahead starts r e es a),
    )
    | inr (x, h, c, s, a) ↦ inr (
      x,
      ground (arith, q, h),
      ground (arith, c),
      s,
      (inl (omega (arith, above e x es i.0 c)), a),
    )
  ]
]

-- Where later epochs start no earlier, a round lies in the last epoch that has started: there is none
-- and all starts lie ahead, or it is a known epoch that has started and every later one starts later.
pub epoch_at_lem :
    (em : EpochManager) (r : Round)
    → IsIndexed em
    → IsMonotone em.epoch_starts em.sorted
    → ((epoch_at em r ≡ none) × All (λ x. r < start_of em.epoch_starts x) em.sorted)
      ⊎ ((e : Epoch) × (epoch_at em r ≡ some e)
          × (contains e em.sorted ≡ true)
          × (start_of em.epoch_starts e ≤ r)
          × Rest em.epoch_starts r e em.sorted)
unfolding epoch_at
epoch_at_lem em r w m = loop_cases em.epoch_starts none em.sorted r w.increasing m
