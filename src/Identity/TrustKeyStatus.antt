-- ===== src/Identity/TrustKeyStatus.antt =====
-- identity_models.py: `TrustKeyStatus`, an enumeration of texts.
use reg_agent_ops.Base.{
  Bool, Eq, String, arith, eqb, nat_eq, string_eq, texts_eq, true, ℕ, ◌↔◌, ◌≡◌,
}

pub data TrustKeyStatus : Type 0 where
  active retired disabled : TrustKeyStatus

-- `.value`
unfoldable pub value : TrustKeyStatus → String
value active = "active"
value retired = "retired"
value disabled = "disabled"

-- the place in the declaration
abbrev pub rank : TrustKeyStatus → ℕ
rank active = 0
rank retired = 1
rank disabled = 2

abbrev is : TrustKeyStatus → TrustKeyStatus → Bool
is a b = eqb (rank a) (rank b)

pub is_iff : (a b : TrustKeyStatus) → (is a b ≡ true) ↔ (a ≡ b)
is_iff a b = (λ h. ground arith, λ h. ground arith)

instance abbrev pub trust_key_status_eq : Eq TrustKeyStatus
trust_key_status_eq = record { beq = is; beq_iff = is_iff }
