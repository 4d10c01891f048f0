-- ===== src/Crypto/Domain/Examples.antt =====
-- crypto/domain.go: one message in one domain.
use monadbft_go.Base.{ℕ, ◌≡◌, refl, List, [], ◌∷◌}
use monadbft_go.Crypto.Domain.{Domain, vote}
use monadbft_go.Crypto.Domain.Separation.{with_domain_separates}

with_domain_separates_example :
    ◌≡◌ {A = Domain} vote vote × (◌≡◌ {A = List ℕ} (1 ∷ 2 ∷ []) (1 ∷ 2 ∷ []))
with_domain_separates_example = with_domain_separates vote vote (1 ∷ 2 ∷ []) (1 ∷ 2 ∷ []) refl
