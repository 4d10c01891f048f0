-- ===== src/Validator/ValidatorSet/Create.antt =====
-- validator/validator.go: what NewValidatorSet builds.
use monadbft_go.Base.{
  ℕ, ◌+◌, ◌^◌, ◌<◌, ◌≡◌, refl, ◌∙◌, subst, false, ◌||◌, List, [], ◌∷◌, ◌++◌, ◌==◌, arith,
}
use monadbft_go.Base.Table.{lookup, insert, has, nat_eq}
use monadbft_go.Base.Sets.{contains, IsDistinct, contains-append, append-IsDistinct}
use monadbft_go.Base.Sort.{sort, IsIncreasing, sort-IsIncreasing, contains-sort}
use monadbft_go.Types.{NodeId, Stake}
use monadbft_go.Validator.ValidatorSet.{
  Result, ok, err, panic, ValidatorData, ValidatorSet, stake_add, add_all, new_validator_set,
  is_member, ◌>>=◌,
}
use monadbft_go.Validator.ValidatorSet.Quorum.{total, IsValid}

-- The exact sum of the entries' stakes.
abbrev pub stake_sum : List ValidatorData → ℕ
stake_sum [] = 0
stake_sum (v ∷ vals) = v.stake + stake_sum vals

-- What the loop keeps.
record Built (vs : ValidatorSet) : Type 0 where
  same : (id : NodeId) → contains id vs.members ≡ has id vs.stakes
  distinct : IsDistinct vs.members
  sums : vs.total_stake ≡ total vs.stakes

has-insert :
    (j k : NodeId) (s : Stake) (m : List (NodeId × Stake))
    → has j (insert k s m) ≡ (k == j || has j m)
unfolding has lookup insert
has-insert j k s [] = ground arith
has-insert j k s ((i, t) ∷ m) = ground (arith, has-insert j k s m)

total-insert :
    (k : NodeId) (s : Stake) (m : List (NodeId × Stake))
    → has k m ≡ false
    → total (insert k s m) ≡ total m + s
unfolding has lookup insert total
total-insert k s [] h = omega arith
total-insert k s ((i, t) ∷ m) h = ground (arith, total-insert k s m)

abbrev extend : ValidatorSet → ValidatorData → ValidatorSet
extend vs v = record {
  members = vs.members ++ (v.node_id ∷ []);
  stakes = insert v.node_id v.stake vs.stakes;
  total_stake = stake_add vs.total_stake v.stake;
}

extend-Built :
    (vs : ValidatorSet) (v : ValidatorData)
    → Built vs
    → has v.node_id vs.stakes ≡ false
    → total vs.stakes + v.stake < 2 ^ 256
    → Built (extend vs v)
extend-Built vs v b h f = record {
  same = λ id. ground (
    arith,
    contains-append id vs.members (v.node_id ∷ []),
    has-insert id v.node_id v.stake vs.stakes,
    b.same id,
  );
  distinct = append-IsDistinct vs.members v.node_id b.distinct (b.same v.node_id ∙ h);
  sums = ground (arith, b.sums, total-insert v.node_id v.stake vs.stakes);
}

add_all_lem :
    (vals : List ValidatorData) (vs w : ValidatorSet)
    → Built vs
    → total vs.stakes + stake_sum vals < 2 ^ 256
    → add_all vals vs ≡ ok w
    → Built w × (total w.stakes ≡ total vs.stakes + stake_sum vals)
unfolding add_all
add_all_lem [] vs w b f e = ground arith
add_all_lem (v ∷ vals) vs w b f e =
    let t : has v.node_id vs.stakes ≡ false = ground arith in
    ground (
      arith,
      extend-Built vs v b t,
      total-insert v.node_id v.stake vs.stakes t,
      add_all_lem vals (extend vs v) w,
    )

-- A set that stands for the entries.
pub record Stands (vals : List ValidatorData) (v : ValidatorSet) : Type 0 where
  pub valid : IsValid v
  pub exact : v.total_stake ≡ stake_sum vals
  pub increasing : IsIncreasing v.members
  pub lists : (id : NodeId) → contains id v.members ≡ is_member v id

abbrev empty : ValidatorSet
empty = record { members = []; stakes = []; total_stake = 0 }

empty-Built : Built empty
unfolding has lookup total
empty-Built = record { same = λ id. refl; distinct = tt; sums = refl }

sorted-Stands :
    (vals : List ValidatorData) (w : ValidatorSet)
    → stake_sum vals < 2 ^ 256
    → add_all vals empty ≡ ok w
    → Stands vals (record w { members = sort w.members })
unfolding is_member total
sorted-Stands vals w f e =
    let (b, t) = add_all_lem vals empty w empty-Built (omega (arith, f)) e in
    record {
      valid = record { sums = b.sums; fits = omega (arith, t) };
      exact = b.sums ∙ t ∙ omega arith;
      increasing = sort-IsIncreasing w.members b.distinct;
      lists = λ id. contains-sort id w.members ∙ b.same id;
    }

built_cases :
    (vals : List ValidatorData) (v : ValidatorSet) (r : Result ValidatorSet)
    → stake_sum vals < 2 ^ 256
    → add_all vals empty ≡ r
    → (r >>= (λ vs. ok (record vs { members = sort vs.members }))) ≡ ok v
    → Stands vals v
built_cases vals v (ok w) f p q = subst (Stands vals) (cc) (sorted-Stands vals w f p)
built_cases vals v (err y) f p q = cc
built_cases vals v panic f p q = cc

-- A set built from entries whose stakes add up below 2 ^ 256 has the exact total, lists its members in
-- strictly increasing order, and lists exactly the nodes that have a stake.
pub new_validator_set-Stands :
    (vals : List ValidatorData) (v : ValidatorSet)
    → stake_sum vals < 2 ^ 256
    → new_validator_set vals ≡ ok v
    → Stands vals v
unfolding new_validator_set
new_validator_set-Stands [] v f e = cc
new_validator_set-Stands (x ∷ vals) v f e = built_cases (x ∷ vals) v _ f refl e
