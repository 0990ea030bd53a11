-- ===== src/Keys/CryptoKeyPurpose.antt =====
-- hardening.py: `CryptoKeyPurpose`, an enumeration of texts.
use reg_agent_ops.Base.{
  Bool, Eq, String, arith, eqb, nat_eq, string_eq, texts_eq, true, ℕ, ◌↔◌, ◌≡◌,
}

pub data CryptoKeyPurpose : Type 0 where
  config_signing evidence_encryption : CryptoKeyPurpose

-- `.value`
unfoldable pub value : CryptoKeyPurpose → String
value config_signing = "config_signing"
value evidence_encryption = "evidence_encryption"

-- the place in the declaration
abbrev pub rank : CryptoKeyPurpose → ℕ
rank config_signing = 0
rank evidence_encryption = 1

abbrev is : CryptoKeyPurpose → CryptoKeyPurpose → Bool
is a b = eqb (rank a) (rank b)

pub is_iff : (a b : CryptoKeyPurpose) → (is a b ≡ true) ↔ (a ≡ b)
is_iff a b = (λ h. ground arith, λ h. ground arith)

instance abbrev pub crypto_key_purpose_eq : Eq CryptoKeyPurpose
crypto_key_purpose_eq = record { beq = is; beq_iff = is_iff }
