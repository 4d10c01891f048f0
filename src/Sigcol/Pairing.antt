-- ===== src/Sigcol/Pairing.antt =====
-- What the code takes of the BLS library behind crypto/bls.go, over numbers that spell compressed
-- points, and what it relies on.
pub mod Toy
use monadbft_go.Base.{ℕ, ◌≡◌, ◌≢◌, Bool, true, false, List, [], ◌∷◌}

-- Sums of signatures and of keys, whether bytes are a point, and the two pairing checks: of one
-- signature with its key validated, and of a sum with a key that was summed up before.
pub record Bls : Type 0 where
  pub add_sig : ℕ → ℕ → ℕ
  pub infinity_sig : ℕ
  pub add_key : ℕ → ℕ → ℕ
  pub infinity_key : ℕ
  pub is_point : ℕ → Bool
  pub verify : List ℕ → List ℕ → ℕ → ℕ → Bool
  pub verify_sum : List ℕ → List ℕ → ℕ → ℕ → Bool

unfoldable pub sum_keys : Bls → List (ℕ × ℕ) → ℕ
sum_keys b [] = b.infinity_key
sum_keys b ((key, sig) ∷ pairs) = b.add_key key (sum_keys b pairs)

unfoldable pub sum_sigs : Bls → List (ℕ × ℕ) → ℕ
sum_sigs b [] = b.infinity_sig
sum_sigs b ((key, sig) ∷ pairs) = b.add_sig sig (sum_sigs b pairs)

abbrev pub AllVerify : Bls → List ℕ → List ℕ → List (ℕ × ℕ) → Type 0
AllVerify b domain msg [] = Unit
AllVerify b domain msg ((key, sig) ∷ pairs) =
    (b.verify domain msg key sig ≡ true) × AllVerify b domain msg pairs

-- Keys form a commutative monoid. Sums of signatures are points. The identity never
-- verifies. Signatures that verify on one message verify as a sum, unless their keys cancel out.
pub record IsBls (b : Bls) : Type 0 where
  pub add_key_comm : (x y : ℕ) → b.add_key x y ≡ b.add_key y x
  pub add_key_assoc : (x y z : ℕ) → b.add_key (b.add_key x y) z ≡ b.add_key x (b.add_key y z)
  pub add_key_infinity : (x : ℕ) → b.add_key b.infinity_key x ≡ x
  pub add_sig_point : (x y : ℕ) → b.is_point (b.add_sig x y) ≡ true
  pub verify_sum-infinity :
      (domain msg : List ℕ) (key : ℕ) → b.verify_sum domain msg key b.infinity_sig ≡ false
  pub verify_sum_lem :
      (domain msg : List ℕ) (key sig : ℕ) (pairs : List (ℕ × ℕ))
      → AllVerify b domain msg ((key, sig) ∷ pairs)
      → sum_keys b ((key, sig) ∷ pairs) ≢ b.infinity_key
      → b.verify_sum domain msg (sum_keys b ((key, sig) ∷ pairs)) (sum_sigs b ((key, sig) ∷ pairs))
        ≡ true
