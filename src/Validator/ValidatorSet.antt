-- ===== src/Validator/ValidatorSet.antt =====
-- validator/validator.go: the validator set and its vote thresholds.
pub mod Create
pub mod Index
pub mod Quorum
mod Examples
use monadbft_go.Base.{
  ℕ, zero, suc, ◌+◌, ◌-◌, ◌*◌, ◌/◌, ◌%◌, ◌^◌, ◌≤◌, ◌<◌, ◌≡◌, Bool, true, false, not, Option, none,
  some, List, [], ◌∷◌, ◌++◌, length, ltb, leb, ◌==◌, if◌then◌else◌, get_elem?, map,
}
use monadbft_go.Base.Outcome.{Outcome}
pub use monadbft_go.Base.Outcome.{ok, err, panic, ◌>>=◌}
use monadbft_go.Base.Table.{lookup, insert, has, nat_eq}
use monadbft_go.Base.Sets.{contains}
use monadbft_go.Base.Sort.{sort}
use monadbft_go.Types.{NodeId, Stake}

pub data Error : Type 0 where
  empty_validator_set : Error
  zero_stake_validator duplicate_validator : NodeId → Error

-- Go's (value, error) pair, or a panic.
abbrev pub Result {ℓ} : Type ℓ → Type ℓ
Result A = Outcome Error A

pub record ValidatorData : Type 0 where
  pub node_id : NodeId
  pub stake : Stake
  pub cert_pub_key : ℕ

pub record ValidatorSet : Type 0 where
  pub members : List NodeId
  pub stakes : List (NodeId × Stake)
  pub total_stake : Stake

-- Stake.Add wraps at 2 ^ 256.
abbrev pub stake_add : Stake → Stake → Stake
stake_add a b = (a + b) % 2 ^ 256

-- The loop of NewValidatorSet over the entries that are left.
pub add_all : List ValidatorData → ValidatorSet → Result ValidatorSet
add_all [] vs = ok vs
add_all (v ∷ vals) vs =
    let rest = add_all vals (record {
      members = vs.members ++ (v.node_id ∷ []);
      stakes = insert v.node_id v.stake vs.stakes;
      total_stake = stake_add vs.total_stake v.stake;
    }) in
    if v.stake == 0
    then err (zero_stake_validator v.node_id)
    else if has v.node_id vs.stakes
    then err (duplicate_validator v.node_id)
    else rest

unfoldable pub new_validator_set : List ValidatorData → Result ValidatorSet
unfolding add_all
new_validator_set [] = err empty_validator_set
new_validator_set (v ∷ vals) = do
  vs ← add_all (v ∷ vals) (record { members = []; stakes = []; total_stake = 0 })
  ok (record vs { members = sort vs.members })

pub is_member : ValidatorSet → NodeId → Bool
is_member v id = has id v.stakes

pub stake_of : ValidatorSet → NodeId → Option Stake
stake_of v id = lookup id v.stakes

-- The map's value, or Go's zero value.
abbrev pub stake_or_zero : Option Stake → Stake
stake_or_zero none = 0
stake_or_zero (some s) = s

-- The loop of CalculateCurrentStake: the addresses seen, the sum so far, the addresses left. A
-- non-member adds nothing.
unfoldable pub current_stake_loop : ValidatorSet → List NodeId → Stake → List NodeId → Result Stake
current_stake_loop v seen sum [] = ok sum
current_stake_loop v seen sum (a ∷ addrs) =
    let rest =
      current_stake_loop v (a ∷ seen)
        (elim (lookup a v.stakes) [ none ↦ sum | some s ↦ stake_add sum s ]) addrs in
    if contains a seen then err (duplicate_validator a) else rest

unfoldable pub calculate_current_stake : ValidatorSet → List NodeId → Result Stake
unfolding current_stake_loop
calculate_current_stake v addrs = current_stake_loop v [] 0 addrs

-- StakeFromBig copies the bytes into an array of 32, and panics on a longer number.
unfoldable pub stake_from_big : ℕ → Result Stake
stake_from_big n = if ltb n (2 ^ 256) then ok n else panic

unfoldable pub threshold : Stake → ℕ → ℕ → Bool → Result Stake
unfolding stake_from_big
threshold total num den plus_one = stake_from_big (total * num / den + (if plus_one then 1 else 0))

unfoldable pub has_threshold_votes : ValidatorSet → List NodeId → Stake → Result Bool
has_threshold_votes v addrs thr = do sum ← calculate_current_stake v addrs; ok (leb thr sum)

unfoldable pub has_super_majority_votes : ValidatorSet → List NodeId → Result Bool
unfolding threshold has_threshold_votes
has_super_majority_votes v addrs = do
  thr ← threshold v.total_stake 2 3 true
  has_threshold_votes v addrs thr

pub has_honest_vote : ValidatorSet → List NodeId → Result Bool
unfolding threshold has_threshold_votes
has_honest_vote v addrs = do thr ← threshold v.total_stake 1 3 true; has_threshold_votes v addrs thr

-- sort.Search on `members[i].Cmp(id) >= 0`, with fuel for its halving loop.
unfoldable pub search : ℕ → List NodeId → NodeId → ℕ → ℕ → ℕ
search zero members id i j = i
search (suc fuel) members id i j =
    let h = (i + j) / 2 in
    let up = search fuel members id (h + 1) j in
    let down = search fuel members id i h in
    if ltb i j
    then elim (get_elem? members h) [ none ↦ up | some m ↦ if leb id m then down else up ]
    else i

-- The body of both Index methods, on sorted ids. -1 is `none`.
unfoldable pub index_in : List NodeId → NodeId → Option ℕ
unfolding search
index_in ids id =
    let i = search (suc (length ids)) ids id 0 (length ids) in
    elim (get_elem? ids i) [ none ↦ none | some m ↦ if m == id then some i else none ]

pub index : ValidatorSet → NodeId → Option ℕ
unfolding index_in
index v id = index_in v.members id
