-- ===== src/Rlp/Panics.antt =====
-- rlp/rlp.go: the only input that makes the decoder panic.
use monadbft_go.Base.{
  ℕ, zero, suc, ◌+◌, ◌-◌, ◌*◌, ◌/◌, ◌%◌, ◌^◌, ◌≤◌, ◌<◌, ◌≡◌, ◌≢◌, ap, arith, Bool, true, false, not,
  List, [], ◌∷◌, length, take, ltb, leb, ◌==◌, if◌then◌else◌, Bool-cases, ◌⊎◌, inl, inr, All,
}
use monadbft_go.Base.Outcome.{ok, err, panic, ◌>>=◌, Outcome-cases}
use monadbft_go.Rlp.{
  RlpError, unexpected_list, unexpected_string, value, long_header, header, header_size, split_at,
  bytes, list,
}

-- A header with eight length bytes whose length is one of the last nine 64-bit numbers.
abbrev pub Overflows : ℕ → List ℕ → Type 0
Overflows code s =
    (bs : List ℕ) × (s ≡ code ∷ bs) × (8 ≤ length bs) × (2 ^ 64 ≤ 9 + value 0 (take 8 bs))

-- What may be spelled so far when `k` bytes of seven are left.
abbrev limit : ℕ → ℕ
limit zero = 2 ^ 56
limit (suc k) = limit k / 256

limit-le : (k : ℕ) → limit k ≤ 2 ^ 56
limit-le zero = omega arith
limit-le (suc k) = omega (arith, limit-le k)

value-lt :
    (k l : ℕ) (cs : List ℕ)
    → All (λ c. c < 256) cs
    → l < limit k
    → length cs ≤ k
    → value l cs < 2 ^ 56
unfolding value
value-lt k l [] a h m = omega (arith, limit-le k)
value-lt zero l (c ∷ cs) a h m = absurd (omega arith)
value-lt (suc k) l (c ∷ cs) a h m =
    value-lt k (l * 256 % 2 ^ 64 + c) cs a.1 (omega (arith, a.0, limit-le k)) (omega arith)

All-take : (n : ℕ) (cs : List ℕ) → All (λ c. c < 256) cs → All (λ c. c < 256) (take n cs)
All-take zero cs a = tt
All-take (suc n) [] a = tt
All-take (suc n) (c ∷ cs) a = (a.0, All-take n cs a.1)

length-take-le : (n : ℕ) (cs : List ℕ) → length (take n cs) ≤ n
length-take-le zero cs = omega arith
length-take-le (suc n) [] = omega arith
length-take-le (suc n) (c ∷ cs) = omega (arith, length-take-le n cs)

short_value : (n : ℕ) (cs : List ℕ) → All (λ c. c < 256) cs → n ≤ 7 → value 0 (take n cs) < 2 ^ 56
short_value n cs a h =
    value-lt 7 0 (take n cs) (All-take n cs a) (omega arith) (omega (arith, length-take-le n cs))

-- A long header that is accepted leaves room for its payload, unless the bounds check wrapped.
long_header-fits :
    (b : Bool) (bs : List ℕ) (n : ℕ) (r : Bool × ℕ)
    → All (λ c. c < 256) bs
    → length bs < 2 ^ 62
    → n ≤ 8
    → long_header b bs n ≡ ok r
    → (r.0 ≡ b)
      × ((n + r.1 ≤ length bs) ⊎ ((n ≡ 8) × (8 ≤ length bs) × (2 ^ 64 ≤ 9 + value 0 (take 8 bs))))
unfolding long_header
long_header-fits b bs n r a h m e = elim (Bool-cases (n == 8)) [
  | inl q ↦ ground arith
  | inr q ↦ ground (arith, short_value n bs a (ground arith))
]

split_at-panic :
    (s : List ℕ) (hs l : ℕ) → hs + l ≤ length s → length s < 2 ^ 63 → split_at s hs l ≢ panic
unfolding split_at
split_at-panic s hs l h m e = ground arith

header-panic : (s : List ℕ) → header s ≢ panic
unfolding header long_header
header-panic [] e = cc
header-panic (b ∷ bs) e = ground (arith, e)

-- A header that is accepted leaves room for its payload, unless the bounds check wrapped.
header-fits :
    (b : ℕ) (bs : List ℕ) (r : Bool × ℕ)
    → All (λ c. c < 256) (b ∷ bs)
    → length bs < 2 ^ 62
    → header (b ∷ bs) ≡ ok r
    → (header_size (b ∷ bs) + r.1 ≤ length (b ∷ bs))
      ⊎ ((b ≡ (if r.0 then 0xFF else 0xBF)) × (8 ≤ length bs) × (2 ^ 64 ≤ 9 + value 0 (take 8 bs)))
unfolding header header_size
header-fits b bs r a h e = elim (Bool-cases (ltb b 0x80)) [
  | inl q ↦ ground arith
  | inr q ↦ elim (Bool-cases (leb b 0xB7)) [
    | inl p ↦ ground arith
    | inr p ↦ elim (Bool-cases (leb 0xF8 b)) [
      | inl o ↦ ground (arith, long_header-fits true bs (b - 0xF7) r a.1 h (ground (arith, a.0)))
      | inr o ↦ elim (Bool-cases (leb b 0xBF)) [
        | inl m ↦ ground (arith, long_header-fits false bs (b - 0xB7) r a.1 h (ground arith))
        | inr m ↦ ground arith
      ]
    ]
  ]
]

abbrev xor : Bool → Bool → Bool
xor true b = not b
xor false b = b

-- What a panic of either decoder says of the header.
decoder-panic :
    (b : ℕ) (bs : List ℕ) (want : Bool) (x : RlpError)
    → All (λ c. c < 256) (b ∷ bs)
    → length bs < 2 ^ 62
    → (header (b ∷ bs)
        >>= (λ h. if xor want h.0 then err x else split_at (b ∷ bs) (header_size (b ∷ bs)) h.1))
      ≡ panic
    → Overflows (if want then 0xFF else 0xBF) (b ∷ bs)
decoder-panic b bs want x a h e = elim (Outcome-cases (header (b ∷ bs))) [
  | inl (r, q) ↦ elim (header-fits b bs r a h q) [
    | inl f ↦
        absurd (
          split_at-panic (b ∷ bs) (header_size (b ∷ bs)) r.1 f (omega arith) (ground (arith, q, e)))
    | inr (p, m, l) ↦ (bs, ap (λ y. y ∷ bs) (ground (arith, q, e, p)), m, l)
  ]
  | inr (inl (y, q)) ↦ absurd (ground (arith, q, e))
  | inr (inr q) ↦ absurd (header-panic (b ∷ bs) q)
]

-- On fewer than 2 ^ 62 bytes, decoding a string or a list panics only on a header whose length overflows the bounds check.
pub decode_panics :
    (s : List ℕ)
    → All (λ c. c < 256) s
    → length s < 2 ^ 62
    → (bytes s ≡ panic) ⊎ (list s ≡ panic)
    → Overflows 0xBF s ⊎ Overflows 0xFF s
unfolding bytes list header
decode_panics [] a h e = absurd (ground (arith, e))
decode_panics (b ∷ bs) a h (inl e) =
    inl (decoder-panic b bs false unexpected_list a (omega arith) e)
decode_panics (b ∷ bs) a h (inr e) =
    inr (decoder-panic b bs true unexpected_string a (omega arith) e)
