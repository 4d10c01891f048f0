-- ===== src/Rlp/Lengths.antt =====
-- rlp/rlp.go: the bytes of a number and what they spell, and the slices of a stream.
use monadbft_go.Base.{
  ℕ, zero, suc, ◌+◌, ◌-◌, ◌/◌, ◌%◌, ◌^◌, ◌≤◌, ◌<◌, ◌≡◌, refl, sym, ap, ◌∙◌, arith, false, List, [],
  ◌∷◌, ◌++◌, length, take, drop, ◌==◌, add64, length-append, Bool-cases, inl, inr,
}
use monadbft_go.Base.Outcome.{ok}
use monadbft_go.Rlp.{big_endian, strip, len_bytes, value, head_is_zero, split_at}

take-append : (xs ys : List ℕ) → take (length xs) (xs ++ ys) ≡ xs
take-append [] ys = refl
take-append (x ∷ xs) ys = ap (λ l. x ∷ l) (take-append xs ys)

drop-append : (xs ys : List ℕ) → drop (length xs) (xs ++ ys) ≡ ys
drop-append [] ys = refl
drop-append (x ∷ xs) ys = drop-append xs ys

pub take_prefix : (n : ℕ) (xs ys : List ℕ) → n ≡ length xs → take n (xs ++ ys) ≡ xs
take_prefix n xs ys e = ap (λ k. take k (xs ++ ys)) e ∙ take-append xs ys

pub drop_prefix : (n : ℕ) (xs ys : List ℕ) → n ≡ length xs → drop n (xs ++ ys) ≡ ys
drop_prefix n xs ys e = ap (λ k. drop k (xs ++ ys)) e ∙ drop-append xs ys

pub append_assoc : (xs ys zs : List ℕ) → (xs ++ ys) ++ zs ≡ xs ++ (ys ++ zs)
append_assoc [] ys zs = refl
append_assoc (x ∷ xs) ys zs = ap (λ l. x ∷ l) (append_assoc xs ys zs)

-- Behind a header of `n` bytes a payload is cut off exactly.
pub split_at-append :
    (n : ℕ) (pre s rest : List ℕ)
    → n ≡ length pre
    → length s < 2 ^ 63
    → n < 16
    → split_at (pre ++ (s ++ rest)) n (length s) ≡ ok (s, rest)
unfolding split_at
split_at-append n pre s rest e hs hn =
    let hi : add64 n (length s) ≡ n + length s = ground arith in
    let two : drop (n + length s) (pre ++ (s ++ rest)) ≡ rest =
      ap (drop (n + length s)) (sym (append_assoc pre s rest))
      ∙ drop_prefix (n + length s) (pre ++ s) rest (omega (arith, length-append pre s)) in
    let one : take (n + length s - n) (drop n (pre ++ (s ++ rest))) ≡ s =
      ap (take (n + length s - n)) (drop_prefix n pre (s ++ rest) e)
      ∙ take_prefix (n + length s - n) s rest (omega arith) in
    ground (arith, hi, one, two, length-append pre (s ++ rest), length-append s rest)

-- The bytes of a length spell the length.
pub value-len_bytes :
    (k v : ℕ) (acc : List ℕ) → v < 256 ^ k → v < 2 ^ 64 → value 0 (len_bytes k v acc) ≡ value v acc
unfolding value len_bytes
value-len_bytes zero v acc h g = ap (λ x. value x acc) (omega arith)
value-len_bytes (suc k) v acc h g = elim (Bool-cases (v == 0)) [
  | inl e ↦ ground arith
  | inr e ↦ ground (arith, value-len_bytes k (v / 256) (v % 256 ∷ acc) (omega arith) (omega arith))
]

pub length-len_bytes : (k v : ℕ) (acc : List ℕ) → length (len_bytes k v acc) ≤ k + length acc
unfolding len_bytes
length-len_bytes zero v acc = omega arith
length-len_bytes (suc k) v acc = ground (arith, length-len_bytes k (v / 256) (v % 256 ∷ acc))

-- They begin with a byte that is not zero.
pub len_bytes_head :
    (k v : ℕ) (acc : List ℕ)
    → v < 256 ^ k
    → (v ≡ 0 → head_is_zero acc ≡ false)
    → head_is_zero (len_bytes k v acc) ≡ false
unfolding len_bytes
len_bytes_head zero v acc h g = g (omega arith)
len_bytes_head (suc k) v acc h g = elim (Bool-cases (v == 0)) [
  | inl e ↦ ground (arith, g)
  | inr e ↦
      ground (arith, len_bytes_head k (v / 256) (v % 256 ∷ acc) (omega arith) (λ z. ground arith))
]

strip-zeros : (k : ℕ) (acc : List ℕ) → strip (big_endian k 0 acc) ≡ strip acc
unfolding strip big_endian
strip-zeros zero acc = refl
strip-zeros (suc k) acc = strip-zeros k (0 ∷ acc)

strip_id : (acc : List ℕ) → head_is_zero acc ≡ false → strip acc ≡ acc
unfolding strip
strip_id [] h = refl
strip_id (b ∷ bs) h = ground arith

-- A full array without its leading zeros is the shortest spelling.
pub strip-big_endian :
    (k v : ℕ) (acc : List ℕ)
    → v < 256 ^ k
    → (v ≡ 0 → head_is_zero acc ≡ false)
    → strip (big_endian k v acc) ≡ len_bytes k v acc
unfolding big_endian len_bytes
strip-big_endian zero v acc h g = strip_id acc (g (omega arith))
strip-big_endian (suc k) v acc h g = elim (Bool-cases (v == 0)) [
  | inl e ↦ ground (arith, strip-zeros (suc k) acc, strip_id acc, g)
  | inr e ↦
      ground (arith, strip-big_endian k (v / 256) (v % 256 ∷ acc) (omega arith) (λ z. ground arith))
]
