-- ===== src/Sigcol/Codec/Bits.antt =====
-- sigcol/sigcol.go: the bits of a byte, and the bits of a map in its bytes.
use monadbft_go.Base.{
  ℕ, zero, suc, ◌+◌, ◌-◌, ◌*◌, ◌/◌, ◌%◌, ◌<◌, ◌≤◌, ◌≡◌, refl, sym, ap, ◌∙◌, arith, Bool, true,
  false, List, [], ◌∷◌, length, ◌==◌,
}
use monadbft_go.Sigcol.Codec.{or_bit, test_bit, or_at, test_at, zeros, write_bits, read_bits}

halved : (y b : ℕ) → b < 2 → (y * 2 + b) / 2 ≡ y
halved y b h = omega arith

test_bit-or_bit : (x k : ℕ) → test_bit (or_bit x k) k ≡ true
unfolding test_bit or_bit
test_bit-or_bit x zero = ground arith
test_bit-or_bit x (suc k) =
    ap (λ y. test_bit y k) (halved (or_bit (x / 2) k) (x % 2) (omega arith))
    ∙ test_bit-or_bit (x / 2) k

other_bit : (x k m : ℕ) → ¬ (k ≡ m) → test_bit (or_bit x k) m ≡ test_bit x m
unfolding test_bit or_bit
other_bit x zero zero h = absurd (h refl)
other_bit x zero (suc m) h = ap (λ y. test_bit y m) (halved (x / 2) 1 (omega arith))
other_bit x (suc k) zero h = ap (λ y. y == 1) (omega arith)
other_bit x (suc k) (suc m) h =
    ap (λ y. test_bit y m) (halved (or_bit (x / 2) k) (x % 2) (omega arith))
    ∙ other_bit (x / 2) k m (λ e. h (omega (arith, e)))

test_at-or_at : (i k : ℕ) (buf : List ℕ) → i < length buf → test_at i k (or_at i k buf) ≡ true
unfolding test_at or_at
test_at-or_at i k [] h = absurd (omega arith)
test_at-or_at zero k (x ∷ xs) h = test_bit-or_bit x k
test_at-or_at (suc i) k (x ∷ xs) h = test_at-or_at i k xs (omega arith)

other_byte :
    (i k j m : ℕ) (buf : List ℕ)
    → (i ≡ j → ¬ (k ≡ m))
    → test_at j m (or_at i k buf) ≡ test_at j m buf
unfolding test_at or_at
other_byte i k j m [] h = refl
other_byte zero k zero m (x ∷ xs) h = other_bit x k m (h refl)
other_byte zero k (suc j) m (x ∷ xs) h = refl
other_byte (suc i) k zero m (x ∷ xs) h = refl
other_byte (suc i) k (suc j) m (x ∷ xs) h = other_byte i k j m xs (λ e. h (ap suc e))

length-or_at : (i k : ℕ) (buf : List ℕ) → length (or_at i k buf) ≡ length buf
unfolding or_at
length-or_at i k [] = refl
length-or_at zero k (x ∷ xs) = refl
length-or_at (suc i) k (x ∷ xs) = omega (arith, length-or_at i k xs)

pub length-write_bits :
    (n : ℕ) (bits : List Bool) (buf : List ℕ) → length (write_bits n bits buf) ≡ length buf
unfolding write_bits
length-write_bits n [] buf = refl
length-write_bits n (false ∷ bs) buf = length-write_bits n bs buf
length-write_bits n (true ∷ bs) buf =
    length-or_at (n - 1 - length bs / 8) (length bs % 8) (write_bits n bs buf)
    ∙ length-write_bits n bs buf

pub length-zeros : (n : ℕ) → length (zeros n) ≡ n
unfolding zeros
length-zeros zero = refl
length-zeros (suc n) = omega (arith, length-zeros n)

-- Two places of a map are not the same bit of the same byte.
apart : (n j m : ℕ) → m < j → j < n * 8 → n - 1 - j / 8 ≡ n - 1 - m / 8 → ¬ (j % 8 ≡ m % 8)
apart n j m h g e f = omega (arith, h, g, e, f)

read_below :
    (n j k : ℕ) (buf : List ℕ)
    → k ≤ j
    → j < n * 8
    → read_bits n k (or_at (n - 1 - j / 8) (j % 8) buf) ≡ read_bits n k buf
unfolding read_bits
read_below n j zero buf h g = refl
read_below n j (suc k) buf h g =
    let a = other_byte (n - 1 - j / 8) (j % 8) (n - 1 - k / 8) (k % 8) buf (apart n j k h g) in
    let b = read_below n j k buf (omega arith) g in
    ap (λ x. x ∷ read_bits n k (or_at (n - 1 - j / 8) (j % 8) buf)) a
    ∙ ap (λ x. test_at (n - 1 - k / 8) (k % 8) buf ∷ x) b

test_bit-zero : (k : ℕ) → test_bit 0 k ≡ false
unfolding test_bit
test_bit-zero zero = refl
test_bit-zero (suc k) = test_bit-zero k

test_at-zeros : (i k n : ℕ) → test_at i k (zeros n) ≡ false
unfolding test_at zeros
test_at-zeros i k zero = refl
test_at-zeros zero k (suc n) = test_bit-zero k
test_at-zeros (suc i) k (suc n) = test_at-zeros i k n

-- A place that no bit of the map is written to is still empty.
unwritten :
    (n : ℕ) (bits : List Bool) (j : ℕ)
    → length bits ≤ j
    → j < n * 8
    → test_at (n - 1 - j / 8) (j % 8) (write_bits n bits (zeros n)) ≡ false
unfolding write_bits
unwritten n [] j h g = test_at-zeros (n - 1 - j / 8) (j % 8) n
unwritten n (false ∷ bs) j h g = unwritten n bs j (omega arith) g
unwritten n (true ∷ bs) j h g =
    other_byte (n - 1 - length bs / 8) (length bs % 8) (n - 1 - j / 8) (j % 8)
      (write_bits n bs (zeros n)) (λ e f. apart n j (length bs) h g (sym e) (sym f))
    ∙ unwritten n bs j (omega arith) g

-- Bytes enough for a map hold the map.
pub read_bits-write_bits :
    (n : ℕ) (bits : List Bool)
    → length bits ≤ n * 8
    → read_bits n (length bits) (write_bits n bits (zeros n)) ≡ bits
unfolding read_bits write_bits
read_bits-write_bits n [] h = refl
read_bits-write_bits n (false ∷ bs) h =
    let e = unwritten n bs (length bs) (omega arith) (omega arith) in
    let r = read_bits-write_bits n bs (omega arith) in cc
read_bits-write_bits n (true ∷ bs) h =
    let w = write_bits n bs (zeros n) in
    let l = length-write_bits n bs (zeros n) ∙ length-zeros n in
    let e = test_at-or_at (n - 1 - length bs / 8) (length bs % 8) w (omega (arith, l, h)) in
    let b = read_below n (length bs) (length bs) w (omega arith) (omega arith) in
    let r = read_bits-write_bits n bs (omega arith) in cc
