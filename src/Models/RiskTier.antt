-- ===== src/Models/RiskTier.antt =====
-- models.py: `RiskTier`, an enumeration of texts.
use reg_agent_ops.Base.{Bool, Eq, String, arith, eqb, nat_eq, string_eq, true, ℕ, ◌↔◌, ◌≡◌}

pub data RiskTier : Type 0 where
  low moderate high critical : RiskTier

-- `.value`
unfoldable pub value : RiskTier → String
value low = "low"
value moderate = "moderate"
value high = "high"
value critical = "critical"

-- the place in the declaration
abbrev pub rank : RiskTier → ℕ
rank low = 0
rank moderate = 1
rank high = 2
rank critical = 3

abbrev is : RiskTier → RiskTier → Bool
is a b = eqb (rank a) (rank b)

pub is_iff : (a b : RiskTier) → (is a b ≡ true) ↔ (a ≡ b)
is_iff a b = (λ h. ground arith, λ h. ground arith)

instance abbrev pub risk_tier_eq : Eq RiskTier
risk_tier_eq = record { beq = is; beq_iff = is_iff }
