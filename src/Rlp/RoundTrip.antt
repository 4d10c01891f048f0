-- ===== src/Rlp/RoundTrip.antt =====
-- rlp/rlp.go: decoding gives back what was encoded.
use monadbft_go.Base.{
  ℕ, ◌+◌, ◌^◌, ◌≤◌, ◌<◌, ◌≡◌, refl, sym, ap, subst, ◌∙◌, arith, Bool, true, false, List, [], ◌∷◌,
  ◌++◌, length, take, ltb, ◌==◌, length-append, Bool-cases, inl, inr, ==_iff,
}
use monadbft_go.Base.Outcome.{ok}
use monadbft_go.Rlp.{
  head_is_zero, head_below, is_single, len_bytes, value, append_len_prefix, append_string_header,
  append_list_header, append_string, append_uint64, append_bool, append_list, long_header, header,
  header_size, split_at, bytes, list, left_pad_uint64, uint64, uint8, bool,
}
use monadbft_go.Rlp.Lengths.{
  take_prefix, append_assoc, split_at-append, value-len_bytes, length-len_bytes, len_bytes_head,
  strip-big_endian,
}

-- The header in front of a payload of `l` bytes, as a string or as a list.
abbrev prefix : Bool → ℕ → List ℕ
prefix false l = append_string_header [] l
prefix true l = append_list_header [] l

len_bytes_size :
    (l : ℕ)
    → l < 2 ^ 63
    → 56 ≤ l
    → (0 < length (len_bytes 8 l [])) × (length (len_bytes 8 l []) ≤ 8)
unfolding len_bytes
len_bytes_size l h g = (ground arith, length-len_bytes 8 l [])

head_append :
    (xs ys : List ℕ) → 0 < length xs → head_is_zero xs ≡ false → head_is_zero (xs ++ ys) ≡ false
head_append [] ys h e = absurd (omega arith)
head_append (x ∷ xs) ys h e = e

long_header-prefix :
    (b : Bool) (l : ℕ) (tail : List ℕ)
    → 56 ≤ l
    → l < 2 ^ 63
    → l ≤ length tail
    → length tail < 2 ^ 63
    → long_header b (len_bytes 8 l [] ++ tail) (length (len_bytes 8 l [])) ≡ ok (b, l)
unfolding long_header value
long_header-prefix b l tail h g m t =
    let (p, q) = len_bytes_size l g h in
    let z =
      head_append (len_bytes 8 l []) tail p (len_bytes_head 8 l [] (omega arith) (λ e. refl)) in
    let v : value 0 (take (length (len_bytes 8 l [])) (len_bytes 8 l [] ++ tail)) ≡ l =
      ap (value 0) (take_prefix _ (len_bytes 8 l []) tail refl)
      ∙ value-len_bytes 8 l [] (omega arith) (omega arith) in
    ground (arith, p, q, z, v, length-append (len_bytes 8 l []) tail)

header-prefix :
    (b : Bool) (l : ℕ) (tail : List ℕ)
    → (l ≡ 1 → b ≡ false → head_below tail 0x80 ≡ false)
    → l ≤ length tail
    → length tail < 2 ^ 63
    → (header (prefix b l ++ tail) ≡ ok (b, l))
      × (header_size (prefix b l ++ tail) ≡ length (prefix b l))
unfolding header header_size append_string_header append_list_header append_len_prefix
header-prefix false l tail s m t = elim (Bool-cases (ltb l 56)) [
  | inl e ↦ ground (arith, s)
  | inr e ↦
      let (p, q) = len_bytes_size l (omega arith) (ground arith) in
      ground (arith, p, q, long_header-prefix false l tail (ground arith) (omega arith) m t)
]
header-prefix true l tail s m t = elim (Bool-cases (ltb l 56)) [
  | inl e ↦ ground arith
  | inr e ↦
      let (p, q) = len_bytes_size l (omega arith) (ground arith) in
      ground (arith, p, q, long_header-prefix true l tail (ground arith) (omega arith) m t)
]

length-prefix : (b : Bool) (l : ℕ) → l < 2 ^ 63 → length (prefix b l) < 16
unfolding append_string_header append_list_header append_len_prefix
length-prefix false l h = ground (arith, length-len_bytes 8 l [])
length-prefix true l h = ground (arith, length-len_bytes 8 l [])

-- Behind its header a payload is cut off exactly.
split_at-prefix :
    (b : Bool) (s rest : List ℕ)
    → length s < 2 ^ 63
    → split_at (prefix b (length s) ++ (s ++ rest)) (length (prefix b (length s))) (length s)
      ≡ ok (s, rest)
split_at-prefix b s rest h =
    split_at-append (length (prefix b (length s))) (prefix b (length s)) s rest refl h
      (length-prefix b (length s) h)

not_single :
    (s rest : List ℕ) → is_single s ≡ false → length s ≡ 1 → head_below (s ++ rest) 0x80 ≡ false
not_single [] rest h e = absurd (omega arith)
not_single (b ∷ []) rest h e = h
not_single (b ∷ c ∷ s) rest h e = absurd (omega arith)

encoded_bytes :
    (s rest : List ℕ)
    → is_single s ≡ false
    → length (s ++ rest) < 2 ^ 63
    → bytes (prefix false (length s) ++ (s ++ rest)) ≡ ok (s, rest)
unfolding bytes
encoded_bytes s rest e h =
    let n = length-append s rest in
    let p =
      header-prefix false (length s) (s ++ rest) (λ o z. not_single s rest e o) (omega (arith, n))
        h in
    ground (arith, p, split_at-prefix false s rest (omega (arith, n)))

single_bytes :
    (s rest : List ℕ) → is_single s ≡ true → bytes (append_string [] s ++ rest) ≡ ok (s, rest)
unfolding append_string bytes header header_size split_at
single_bytes [] rest e = absurd cc
single_bytes (b ∷ []) rest e = ground (arith, e)
single_bytes (b ∷ c ∷ s) rest e = absurd cc

long_append_string :
    (s : List ℕ) → is_single s ≡ false → append_string [] s ≡ prefix false (length s) ++ s
unfolding append_string
long_append_string s e = ground (arith, e)

-- In an input shorter than 2 ^ 63 a byte string decodes to itself, and leaves what stands behind it.
pub bytes-append_string :
    (s rest : List ℕ)
    → length (s ++ rest) < 2 ^ 63
    → bytes (append_string [] s ++ rest) ≡ ok (s, rest)
unfolding bytes
bytes-append_string s rest h = elim (Bool-cases (is_single s)) [
  | inl e ↦ single_bytes s rest e
  | inr e ↦
      ap (λ x. bytes (x ++ rest)) (long_append_string s e)
      ∙ ap bytes (append_assoc (prefix false (length s)) s rest)
      ∙ encoded_bytes s rest e h
]

-- In an input shorter than 2 ^ 63 a list decodes to the stream of its payload, and leaves what stands behind it.
pub list-append_list :
    (build : List ℕ → List ℕ) (rest : List ℕ)
    → length (build [] ++ rest) < 2 ^ 63
    → list (append_list [] build ++ rest) ≡ ok (build [], rest)
unfolding append_list list
list-append_list build rest h =
    let n = length-append (build []) rest in
    let p =
      header-prefix true (length (build [])) (build [] ++ rest) (λ o z. absurd cc)
        (omega (arith, n)) h in
    ap list (append_assoc (prefix true (length (build []))) (build []) rest)
    ∙ ground (arith, p, split_at-prefix true (build []) rest (omega (arith, n)))

-- So with a payload known by another name.
pub list-payload :
    (build : List ℕ → List ℕ) (p rest : List ℕ)
    → build [] ≡ p
    → length p < 2 ^ 32
    → length rest < 2 ^ 62
    → list (append_list [] build ++ rest) ≡ ok (p, rest)
list-payload build p rest e l h =
    let n = length-append (build []) rest in
    let m = ap length e in
    list-append_list build rest (omega (arith, l, h, n, m)) ∙ ap (λ x. ok (x, rest)) e

pub append_string_size :
    (s : List ℕ) → length s < 2 ^ 63 → length (append_string [] s) ≤ 16 + length s
unfolding append_string
append_string_size s h = elim (Bool-cases (is_single s)) [
  | inl e ↦ ground (arith, e)
  | inr e ↦ omega (
    arith,
    ap length (long_append_string s e),
    length-append (prefix false (length s)) s,
    length-prefix false (length s) h,
  )
]

left_pad_uint64-len_bytes : (v : ℕ) → v < 2 ^ 64 → left_pad_uint64 (len_bytes 8 v []) ≡ ok v
unfolding left_pad_uint64 value
left_pad_uint64-len_bytes v h = ground (
  arith,
  length-len_bytes 8 v [],
  len_bytes_head 8 v [] (omega arith) (λ e. refl),
  value-len_bytes 8 v [] (omega arith) h,
)

encoded_uint64 : (v : ℕ) → v < 2 ^ 64 → append_uint64 [] v ≡ append_string [] (len_bytes 8 v [])
unfolding append_uint64 append_string append_string_header len_bytes
encoded_uint64 v h = elim (Bool-cases (v == 0)) [
  | inl e ↦
      subst (λ x. append_uint64 [] x ≡ append_string [] (len_bytes 8 x [])) (sym ((==_iff v 0).0 e))
        refl
  | inr e ↦ ground (arith, strip-big_endian 8 v [] (omega arith) (λ z. refl))
]

-- Before fewer than 2 ^ 62 bytes a 64-bit integer decodes to itself, and leaves what stands behind it.
pub uint64-append_uint64 :
    (v : ℕ) (rest : List ℕ)
    → v < 2 ^ 64
    → length rest < 2 ^ 62
    → uint64 (append_uint64 [] v ++ rest) ≡ ok (v, rest)
unfolding uint64
uint64-append_uint64 v rest h g =
    let n = length-append (len_bytes 8 v []) rest in
    let m = length-len_bytes 8 v [] in
    ap (λ e. uint64 (e ++ rest)) (encoded_uint64 v h)
    ∙ ground (
      arith,
      bytes-append_string (len_bytes 8 v []) rest (omega (arith, n, m)),
      left_pad_uint64-len_bytes v h,
    )

-- So does a truth value.
pub bool-append_bool :
    (v : Bool) (rest : List ℕ)
    → length rest < 2 ^ 62
    → bool (append_bool [] v ++ rest) ≡ ok (v, rest)
unfolding bool uint8 append_bool
bool-append_bool true rest g = ground (arith, uint64-append_uint64 1 rest (omega arith) g)
bool-append_bool false rest g = ground (arith, uint64-append_uint64 0 rest (omega arith) g)
