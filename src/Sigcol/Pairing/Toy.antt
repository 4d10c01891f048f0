-- ===== src/Sigcol/Pairing/Toy.antt =====
-- A toy in place of the BLS library for tests: a signature is its key, and sums are sums.
use monadbft_go.Base.{ℕ, ◌+◌, ◌≡◌, ◌≢◌, refl, arith, Bool, true, not, ◌&&◌, List, [], ◌∷◌, ◌==◌}
use monadbft_go.Sigcol.Pairing.{Bls, IsBls, AllVerify, sum_keys, sum_sigs}

abbrev pub toy_verify : List ℕ → List ℕ → ℕ → ℕ → Bool
toy_verify domain msg key sig = (key == sig) && not (sig == 0)

abbrev pub toy : Bls
toy = record {
  add_sig = λ x y. x + y;
  infinity_sig = 0;
  add_key = λ x y. x + y;
  infinity_key = 0;
  is_point = λ x. true;
  verify = toy_verify;
  verify_sum = toy_verify;
}

same_sums :
    (domain msg : List ℕ) (pairs : List (ℕ × ℕ))
    → AllVerify toy domain msg pairs
    → sum_keys toy pairs ≡ sum_sigs toy pairs
unfolding sum_keys sum_sigs
same_sums domain msg [] h = refl
same_sums domain msg ((key, sig) ∷ pairs) h = ground (arith, h.0, same_sums domain msg pairs h.1)

toy_verify_sum :
    (domain msg : List ℕ) (key sig : ℕ) (pairs : List (ℕ × ℕ))
    → AllVerify toy domain msg ((key, sig) ∷ pairs)
    → sum_keys toy ((key, sig) ∷ pairs) ≢ 0
    → toy_verify domain msg (sum_keys toy ((key, sig) ∷ pairs)) (sum_sigs toy ((key, sig) ∷ pairs))
      ≡ true
toy_verify_sum domain msg key sig pairs h n =
    ground (arith, same_sums domain msg ((key, sig) ∷ pairs) h, n)

pub toy-IsBls : IsBls toy
toy-IsBls = record {
  add_key_comm = λ x y. omega arith;
  add_key_assoc = λ x y z. omega arith;
  add_key_infinity = λ x. omega arith;
  add_sig_point = λ x y. refl;
  verify_sum-infinity = λ domain msg key. ground arith;
  verify_sum_lem = toy_verify_sum;
}
