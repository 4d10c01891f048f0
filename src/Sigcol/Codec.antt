-- ===== src/Sigcol/Codec.antt =====
-- sigcol/sigcol.go: the wire form of a bit map of signers, the count of its bits and their bytes; the last
-- bit of the map is the lowest bit of the last byte. No index runs out of range, since the code makes or
-- checks the length of the bytes first; out of range the model reads false and writes nothing.
pub mod Bits
pub mod RoundTrip
mod Examples
use monadbft_go.Base.{
  ℕ, zero, suc, ◌+◌, ◌-◌, ◌*◌, ◌/◌, ◌%◌, ◌^◌, Bool, true, false, List, [], ◌∷◌, length, ltb, ◌==◌,
  if◌then◌else◌,
}
use monadbft_go.Base.Outcome.{Outcome, ok, err, panic, ◌>>=◌}
use monadbft_go.Rlp.{
  RlpError, custom, unexpected_length, append_uint32, append_string, append_list, list, uint64,
  bytes,
}
use monadbft_go.Rlp as Streams
use monadbft_go.Sigcol.{max_signers_len}

-- `x | 1<<k` on a byte, one place at a time.
pub or_bit : ℕ → ℕ → ℕ
or_bit x zero = x / 2 * 2 + 1
or_bit x (suc k) = or_bit (x / 2) k * 2 + x % 2

-- `x>>k&1 == 1`
pub test_bit : ℕ → ℕ → Bool
test_bit x zero = x % 2 == 1
test_bit x (suc k) = test_bit (x / 2) k

-- `buf[i] |= 1<<k`
pub or_at : ℕ → ℕ → List ℕ → List ℕ
or_at i k [] = []
or_at zero k (x ∷ xs) = or_bit x k ∷ xs
or_at (suc i) k (x ∷ xs) = x ∷ or_at i k xs

-- `buf[i]>>k&1 == 1`
pub test_at : ℕ → ℕ → List ℕ → Bool
test_at i k [] = false
test_at zero k (x ∷ xs) = test_bit x k
test_at (suc i) k (x ∷ xs) = test_at i k xs

pub zeros : ℕ → List ℕ
zeros zero = []
zeros (suc n) = 0 ∷ zeros n

-- The loop over the bits from the last, which `j` counts, into `n` bytes.
pub write_bits : ℕ → List Bool → List ℕ → List ℕ
write_bits n [] buf = buf
write_bits n (b ∷ bs) buf =
    let done = write_bits n bs buf in
    let j = length bs in if b then or_at (n - 1 - j / 8) (j % 8) done else done

-- The loop over the first bits of the map to its last, with `k` more behind.
pub read_bits : ℕ → ℕ → List ℕ → List Bool
read_bits n zero buf = []
read_bits n (suc k) buf = test_at (n - 1 - k / 8) (k % 8) buf ∷ read_bits n k buf

pub encode_signer_map : List ℕ → List Bool → List ℕ
encode_signer_map dst bits =
    let n = (length bits + 7) / 8 in
    let buf = write_bits n bits (zeros n) in
    append_list dst (λ p. append_string (append_uint32 p (length bits % 2 ^ 32)) buf)

pub decode_signer_map : List ℕ → Outcome RlpError (List Bool × List ℕ)
decode_signer_map s = do
  l ← list s
  bits ← uint64 l.0
  _ ← if ltb max_signers_len bits.0 then err custom else ok bits.0
  buf ← bytes bits.1
  _ ← if length buf.0 == (bits.0 + 7) / 8 then ok bits.0 else err unexpected_length
  _ ← Streams.done buf.1
  ok (read_bits ((bits.0 + 7) / 8) bits.0 buf.0, l.1)
