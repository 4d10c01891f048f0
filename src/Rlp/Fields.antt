-- ===== src/Rlp/Fields.antt =====
-- rlp/rlp.go: integers behind what is written already, and the size that they take.
use monadbft_go.Base.{
  ℕ, zero, suc, ◌+◌, ◌%◌, ◌/◌, ◌<◌, ◌≤◌, ◌≡◌, inl, inr, arith, List, [], ◌∷◌, ◌++◌, length, ltb,
  ◌==◌, Bool-cases,
}
use monadbft_go.Rlp.{
  append_uint64, append_string, append_string_header, append_len_prefix, empty_string_code,
  big_endian, strip, is_single,
}
use monadbft_go.Rlp.Lengths.{append_assoc}

pub append_string-dst : (dst s : List ℕ) → append_string dst s ≡ dst ++ append_string [] s
unfolding append_string append_string_header
append_string-dst dst s = elim (Bool-cases (is_single s)) [
  | inl q ↦ ground (arith, q)
  | inr q ↦ elim (Bool-cases (ltb (length s) 56)) [
    | inl p ↦ ground (arith, q, p, append_assoc dst ((empty_string_code + length s) % 256 ∷ []) s)
    | inr p ↦ ground (arith, q, p, append_assoc dst (append_len_prefix 0xB7 (length s)) s)
  ]
]

-- What stands in front stays in front.
pub append_uint64-dst : (dst : List ℕ) (v : ℕ) → append_uint64 dst v ≡ dst ++ append_uint64 [] v
unfolding append_uint64
append_uint64-dst dst v = elim (Bool-cases (v == 0)) [
  | inl q ↦ ground (arith, q)
  | inr q ↦ ground (arith, q, append_string-dst dst (strip (big_endian 8 v [])))
]

pub length-big_endian : (k v : ℕ) (acc : List ℕ) → length (big_endian k v acc) ≡ k + length acc
unfolding big_endian
length-big_endian zero v acc = omega arith
length-big_endian (suc k) v acc = omega (arith, length-big_endian k (v / 256) (v % 256 ∷ acc))

length-strip : (bs : List ℕ) → length (strip bs) ≤ length bs
unfolding strip
length-strip [] = omega arith
length-strip (b ∷ bs) = ground (arith, length-strip bs)

pub length-append_string :
    (s : List ℕ) → length s < 56 → length (append_string [] s) ≤ suc (length s)
unfolding append_string append_string_header
length-append_string s h = elim (Bool-cases (is_single s)) [
  | inl q ↦ ground (arith, q)
  | inr q ↦ ground (arith, q)
]

-- An integer takes nine bytes at most.
pub length-append_uint64 : (v : ℕ) → length (append_uint64 [] v) ≤ 9
unfolding append_uint64
length-append_uint64 v =
    let n = length-big_endian 8 v [] in
    let m = length-strip (big_endian 8 v []) in
    elim (Bool-cases (v == 0)) [
      | inl q ↦ ground (arith, q)
      | inr q ↦
          ground
            (arith, q, length-append_string (strip (big_endian 8 v [])) (omega (arith, n, m)), n, m)
    ]
