-- ===== src/Keys/CryptoAlgorithm.antt =====
-- hardening.py: `CryptoAlgorithm`, an enumeration of texts.
use reg_agent_ops.Base.{
  Bool, Eq, String, arith, eqb, nat_eq, string_eq, texts_eq, true, ℕ, ◌↔◌, ◌≡◌,
}

pub data CryptoAlgorithm : Type 0 where
  ed25519 aes_256_gcm : CryptoAlgorithm

-- `.value`
unfoldable pub value : CryptoAlgorithm → String
value ed25519 = "Ed25519"
value aes_256_gcm = "AES-256-GCM"

-- the place in the declaration
abbrev pub rank : CryptoAlgorithm → ℕ
rank ed25519 = 0
rank aes_256_gcm = 1

abbrev is : CryptoAlgorithm → CryptoAlgorithm → Bool
is a b = eqb (rank a) (rank b)

pub is_iff : (a b : CryptoAlgorithm) → (is a b ≡ true) ↔ (a ≡ b)
is_iff a b = (λ h. ground arith, λ h. ground arith)

instance abbrev pub crypto_algorithm_eq : Eq CryptoAlgorithm
crypto_algorithm_eq = record { beq = is; beq_iff = is_iff }
