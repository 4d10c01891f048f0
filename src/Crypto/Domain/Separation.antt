-- ===== src/Crypto/Domain/Separation.antt =====
-- crypto/domain.go: what is signed in one domain is never what is signed in another.
use monadbft_go.Base.{ℕ, ◌≡◌, refl, sym, ap, ◌∙◌, List, [], ◌∷◌, ◌++◌, length, arith}
use monadbft_go.Crypto.Domain.{
  Domain, domain_bytes, with_domain, consensus_message, tip, vote, timeout, no_endorsement,
  round_signature, name_record, tcp_auth, raptorcast_app_msg, raptorcast_chunk,
}

-- The number of a domain, by its length byte.
code_of : Domain → ℕ
code_of consensus_message = 0x1a
code_of tip = 0x0c
code_of vote = 0x0d
code_of timeout = 0x10
code_of no_endorsement = 0x17
code_of round_signature = 0x18
code_of name_record = 0x14
code_of tcp_auth = 0x11
code_of raptorcast_app_msg = 0x1f
code_of raptorcast_chunk = 0x19

code_of-eq : (d e : Domain) → code_of d ≡ code_of e → d ≡ e
unfolding code_of
code_of-eq d e h = ground arith

-- The first byte is the length of the rest.
head_is_length :
    (d : Domain) → (rest : List ℕ) × (domain_bytes d ≡ code_of d ∷ rest) × (length rest ≡ code_of d)
unfolding domain_bytes code_of
head_is_length consensus_message = (_, refl, refl)
head_is_length tip = (_, refl, refl)
head_is_length vote = (_, refl, refl)
head_is_length timeout = (_, refl, refl)
head_is_length no_endorsement = (_, refl, refl)
head_is_length round_signature = (_, refl, refl)
head_is_length name_record = (_, refl, refl)
head_is_length tcp_auth = (_, refl, refl)
head_is_length raptorcast_app_msg = (_, refl, refl)
head_is_length raptorcast_chunk = (_, refl, refl)

append_cancel :
    (xs ys ms ns : List ℕ) → length xs ≡ length ys → xs ++ ms ≡ ys ++ ns → (xs ≡ ys) × (ms ≡ ns)
append_cancel [] [] ms ns l e = (refl, e)
append_cancel [] (y ∷ ys) ms ns l e = absurd (omega arith)
append_cancel (x ∷ xs) [] ms ns l e = absurd (omega arith)
append_cancel (x ∷ xs) (y ∷ ys) ms ns l e =
    ground (arith, append_cancel xs ys ms ns (omega arith) (cc))

-- Bytes that are signed in two domains are the same only if the domain and the message are.
pub with_domain_separates :
    (d e : Domain) (m n : List ℕ)
    → with_domain (domain_bytes d) m ≡ with_domain (domain_bytes e) n
    → (d ≡ e) × (m ≡ n)
unfolding with_domain
with_domain_separates d e m n h =
    let (xs, p, k) = head_is_length d in
    let (ys, q, l) = head_is_length e in
    let whole : code_of d ∷ (xs ++ m) ≡ code_of e ∷ (ys ++ n) =
      sym (ap (λ x. x ++ m) p) ∙ h ∙ ap (λ x. x ++ n) q in
    let heads : code_of d ≡ code_of e = cc in
    (code_of-eq d e heads, (append_cancel xs ys m n (omega arith) (cc)).1)
