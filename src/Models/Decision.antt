-- ===== src/Models/Decision.antt =====
-- models.py: `Decision`, an enumeration of texts.
use reg_agent_ops.Base.{Bool, Eq, String, arith, eqb, nat_eq, string_eq, true, ℕ, ◌↔◌, ◌≡◌}

pub data Decision : Type 0 where
  allow deny require_human_approval allow_with_constraints : Decision

-- `.value`
unfoldable pub value : Decision → String
value allow = "ALLOW"
value deny = "DENY"
value require_human_approval = "REQUIRE_HUMAN_APPROVAL"
value allow_with_constraints = "ALLOW_WITH_CONSTRAINTS"

-- the place in the declaration
abbrev pub rank : Decision → ℕ
rank allow = 0
rank deny = 1
rank require_human_approval = 2
rank allow_with_constraints = 3

abbrev is : Decision → Decision → Bool
is a b = eqb (rank a) (rank b)

pub is_iff : (a b : Decision) → (is a b ≡ true) ↔ (a ≡ b)
is_iff a b = (λ h. ground arith, λ h. ground arith)

instance abbrev pub decision_eq : Eq Decision
decision_eq = record { beq = is; beq_iff = is_iff }
