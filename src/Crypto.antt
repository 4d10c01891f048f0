-- ===== src/Crypto.antt =====
-- crypto/: the signing domains. The curves themselves are libraries.
pub mod Domain
