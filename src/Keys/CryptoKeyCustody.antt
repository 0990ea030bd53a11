-- ===== src/Keys/CryptoKeyCustody.antt =====
-- hardening.py: `CryptoKeyCustody`, an enumeration of texts.
use reg_agent_ops.Base.{
  Bool, Eq, String, arith, eqb, nat_eq, string_eq, texts_eq, true, ℕ, ◌↔◌, ◌≡◌,
}

pub data CryptoKeyCustody : Type 0 where
  kms hsm : CryptoKeyCustody

-- `.value`
unfoldable pub value : CryptoKeyCustody → String
value kms = "kms"
value hsm = "hsm"

-- the place in the declaration
abbrev pub rank : CryptoKeyCustody → ℕ
rank kms = 0
rank hsm = 1

abbrev is : CryptoKeyCustody → CryptoKeyCustody → Bool
is a b = eqb (rank a) (rank b)

pub is_iff : (a b : CryptoKeyCustody) → (is a b ≡ true) ↔ (a ≡ b)
is_iff a b = (λ h. ground arith, λ h. ground arith)

instance abbrev pub crypto_key_custody_eq : Eq CryptoKeyCustody
crypto_key_custody_eq = record { beq = is; beq_iff = is_iff }
