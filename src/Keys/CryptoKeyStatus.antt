-- ===== src/Keys/CryptoKeyStatus.antt =====
-- hardening.py: `CryptoKeyStatus`, an enumeration of texts.
use reg_agent_ops.Base.{
  Bool, Eq, String, arith, eqb, nat_eq, string_eq, texts_eq, true, ℕ, ◌↔◌, ◌≡◌,
}

pub data CryptoKeyStatus : Type 0 where
  active retired disabled : CryptoKeyStatus

-- `.value`
unfoldable pub value : CryptoKeyStatus → String
value active = "active"
value retired = "retired"
value disabled = "disabled"

-- the place in the declaration
abbrev pub rank : CryptoKeyStatus → ℕ
rank active = 0
rank retired = 1
rank disabled = 2

abbrev is : CryptoKeyStatus → CryptoKeyStatus → Bool
is a b = eqb (rank a) (rank b)

pub is_iff : (a b : CryptoKeyStatus) → (is a b ≡ true) ↔ (a ≡ b)
is_iff a b = (λ h. ground arith, λ h. ground arith)

instance abbrev pub crypto_key_status_eq : Eq CryptoKeyStatus
crypto_key_status_eq = record { beq = is; beq_iff = is_iff }
