-- ===== src/Rlp.antt =====
-- rlp/rlp.go: the encoder and the stream decoder. Bytes are numbers below 256, a stream is the list of
-- bytes that are left; a decoder answers its value and the stream behind it. An `int` stands as its
-- 64-bit pattern, so a negative one is at least 2 ^ 63 and beyond every length.
pub mod Lengths
pub mod RoundTrip
pub mod Panics
pub mod Fields
mod Examples
use monadbft_go.Base.{
  ℕ, zero, suc, ◌+◌, ◌-◌, ◌*◌, ◌/◌, ◌%◌, ◌^◌, ◌≡◌, Bool, true, false, not, ◌&&◌, ◌||◌, List, [],
  ◌∷◌, ◌++◌, length, take, drop, ltb, leb, ◌==◌, if◌then◌else◌, add64, sub64,
}
use monadbft_go.Base.Outcome.{Outcome, ok, err, panic, ◌>>=◌}

pub data RlpError : Type 0 where
  input_too_short input_too_long non_canonical_single_byte non_canonical_size leading_zero
        overflow :
      RlpError
  unexpected_string unexpected_list unexpected_length custom : RlpError

abbrev pub empty_string_code : ℕ
empty_string_code = 0x80

abbrev pub empty_list_code : ℕ
empty_list_code = 0xC0

-- An array of `k` bytes filled from its end: `b[i] = byte(v); v >>= 8`.
unfoldable pub big_endian : ℕ → ℕ → List ℕ → List ℕ
big_endian zero v acc = acc
big_endian (suc k) v acc = big_endian k (v / 256) (v % 256 ∷ acc)

-- `for b[i] == 0 { i++ }`, then b[i:].
pub strip : List ℕ → List ℕ
strip [] = []
strip (b ∷ bs) = let rest = strip bs in if b == 0 then rest else b ∷ bs

-- The bytes of a length, without leading zeros; a length is an `int`, so eight bytes are enough.
pub len_bytes : ℕ → ℕ → List ℕ → List ℕ
len_bytes zero v acc = acc
len_bytes (suc k) v acc =
    let rest = len_bytes k (v / 256) (v % 256 ∷ acc) in if v == 0 then acc else rest

pub append_len_prefix : ℕ → ℕ → List ℕ
unfolding len_bytes
append_len_prefix base l = let bytes = len_bytes 8 l [] in (base + length bytes) % 256 ∷ bytes

pub append_string_header : List ℕ → ℕ → List ℕ
append_string_header dst l =
    if ltb l 56
    then dst ++ ((empty_string_code + l) % 256 ∷ [])
    else dst ++ append_len_prefix 0xB7 l

pub append_list_header : List ℕ → ℕ → List ℕ
append_list_header dst l =
    if ltb l 56 then dst ++ ((empty_list_code + l) % 256 ∷ []) else dst ++ append_len_prefix 0xF7 l

-- A single byte below 0x80 is its own encoding.
abbrev pub is_single : List ℕ → Bool
is_single (b ∷ []) = ltb b empty_string_code
is_single _ = false

pub append_string : List ℕ → List ℕ → List ℕ
append_string dst s = if is_single s then dst ++ s else append_string_header dst (length s) ++ s

pub append_uint64 : List ℕ → ℕ → List ℕ
append_uint64 dst v =
    if v == 0
    then dst ++ (empty_string_code ∷ [])
    else append_string dst (strip (big_endian 8 v []))

pub append_uint8 : List ℕ → ℕ → List ℕ
append_uint8 dst v = append_uint64 dst v

pub append_uint16 : List ℕ → ℕ → List ℕ
append_uint16 dst v = append_uint64 dst v

unfoldable pub append_uint32 : List ℕ → ℕ → List ℕ
append_uint32 dst v = append_uint64 dst v

pub append_bool : List ℕ → Bool → List ℕ
append_bool dst v = if v then append_uint64 dst 1 else append_uint64 dst 0

-- The low half fills the last eight bytes, the high half the first eight.
pub append_uint128 : List ℕ → ℕ → ℕ → List ℕ
append_uint128 dst hi lo =
    if hi == 0
    then append_uint64 dst lo
    else append_string dst (strip (big_endian 8 hi (big_endian 8 lo [])))

pub append_list : List ℕ → (List ℕ → List ℕ) → List ℕ
append_list dst build = let payload = build [] in append_list_header dst (length payload) ++ payload

-- `l = l<<8 | uint64(c)` over the bytes.
pub value : ℕ → List ℕ → ℕ
value l [] = l
value l (c ∷ cs) = value (l * 256 % 2 ^ 64 + c) cs

abbrev pub head_is_zero : List ℕ → Bool
head_is_zero [] = false
head_is_zero (b ∷ bs) = b == 0

abbrev pub head_below : List ℕ → ℕ → Bool
head_below [] c = false
head_below (b ∷ bs) c = ltb b c

-- Behind a long-form prefix byte: the bytes that follow it, and how many of them hold the length. The
-- sum `1 + lenOfLen + l` is one of 64-bit numbers.
pub long_header : Bool → List ℕ → ℕ → Outcome RlpError (Bool × ℕ)
long_header list bs len_of_len =
    let l = value 0 (take len_of_len bs) in
    if ltb (length bs) len_of_len
    then err input_too_short
    else if head_is_zero bs
    then err leading_zero
    else if ltb l 56
    then err non_canonical_size
    else if ltb (length bs + 1) (add64 (1 + len_of_len) l)
    then err input_too_short
    else ok (list, l)

-- Whether the item is a list, and the length of its payload.
pub header : List ℕ → Outcome RlpError (Bool × ℕ)
header [] = err input_too_short
header (b ∷ bs) =
    if ltb b empty_string_code
    then ok (false, 1)
    else if leb b 0xB7
    then (let l = b - empty_string_code in
        if ltb (length bs + 1) (1 + l)
        then err input_too_short
        else if (l == 1) && head_below bs empty_string_code
        then err non_canonical_single_byte
        else ok (false, l))
    else if (leb 0xB8 b && leb b 0xBF) || leb 0xF8 b
    then long_header (leb 0xF8 b) bs (if leb 0xF8 b then b - 0xF7 else b - 0xB7)
    else (let l = b - empty_list_code in
        if ltb (length bs + 1) (1 + l) then err input_too_short else ok (true, l))

pub header_size : List ℕ → ℕ
header_size [] = 0
header_size (b ∷ bs) =
    if ltb b empty_string_code
    then 0
    else if leb b 0xB7 || (leb 0xC0 b && leb b 0xF7)
    then 1
    else if leb 0xF8 b
    then 1 + (b - 0xF7)
    else 1 + (b - 0xB7)

-- s.b[hs : hs+l] and s.b[hs+l:], which panic out of bounds.
pub split_at : List ℕ → ℕ → ℕ → Outcome RlpError (List ℕ × List ℕ)
split_at s hs l =
    let hi = add64 hs l in
    if ltb hi hs || ltb (length s) hi then panic else ok (take (hi - hs) (drop hs s), drop hi s)

pub bytes : List ℕ → Outcome RlpError (List ℕ × List ℕ)
bytes s = header s >>= (λ h. if h.0 then err unexpected_list else split_at s (header_size s) h.1)

pub list : List ℕ → Outcome RlpError (List ℕ × List ℕ)
list s =
    header s >>= (λ h. if not h.0 then err unexpected_string else split_at s (header_size s) h.1)

pub left_pad_uint64 : List ℕ → Outcome RlpError ℕ
left_pad_uint64 b =
    if ltb 8 (length b)
    then err overflow
    else if head_is_zero b
    then err leading_zero
    else ok (value 0 b)

pub uint64 : List ℕ → Outcome RlpError (ℕ × List ℕ)
uint64 s = do r ← bytes s; v ← left_pad_uint64 r.0; ok (v, r.1)

-- The narrower integers check the range of a decoded uint64.
abbrev pub at_most : ℕ → (ℕ × List ℕ) → Outcome RlpError (ℕ × List ℕ)
at_most top r = if ltb top r.0 then err overflow else ok r

pub uint8 : List ℕ → Outcome RlpError (ℕ × List ℕ)
uint8 s = uint64 s >>= at_most 0xff

pub uint16 : List ℕ → Outcome RlpError (ℕ × List ℕ)
uint16 s = uint64 s >>= at_most 0xffff

pub uint32 : List ℕ → Outcome RlpError (ℕ × List ℕ)
uint32 s = uint64 s >>= at_most 0xffffffff

pub bool : List ℕ → Outcome RlpError (Bool × List ℕ)
bool s = uint8 s >>= (λ r. if ltb 1 r.0 then err custom else ok (r.0 == 1, r.1))

-- `copy(v[16-len(b):], b)`: zeros in front.
abbrev pad_to : ℕ → List ℕ → List ℕ
pad_to zero bs = bs
pad_to (suc k) bs = 0 ∷ pad_to k bs

pub uint128 : List ℕ → Outcome RlpError ((ℕ × ℕ) × List ℕ)
uint128 s = bytes s >>= (λ r.
    let v = pad_to (16 - length r.0) r.0 in
    if ltb 16 (length r.0)
    then err overflow
    else if head_is_zero r.0
    then err leading_zero
    else ok ((value 0 (take 8 v), value 0 (drop 8 v)), r.1))

unfoldable pub fixed_bytes : ℕ → List ℕ → Outcome RlpError (List ℕ × List ℕ)
fixed_bytes n s = bytes s >>= (λ r. if length r.0 == n then ok r else err unexpected_length)

unfoldable pub done : List ℕ → Outcome RlpError (List ℕ)
done s = if length s == 0 then ok s else err unexpected_length

pub decode_exact {ℓ} :
    {A : Type ℓ} → List ℕ → (List ℕ → Outcome RlpError (A × List ℕ)) → Outcome RlpError A
decode_exact b fn = fn b >>= (λ r. if length r.1 == 0 then ok r.0 else err input_too_long)
