-- ===== src/Execution/ExecutionKeyStatus.antt =====
-- execution.py: `ExecutionKeyStatus`, an enumeration of texts.
use reg_agent_ops.Base.{
  Bool, Eq, String, arith, eqb, nat_eq, string_eq, texts_eq, true, ℕ, ◌↔◌, ◌≡◌,
}

pub data ExecutionKeyStatus : Type 0 where
  active disabled : ExecutionKeyStatus

-- `.value`
unfoldable pub value : ExecutionKeyStatus → String
value active = "active"
value disabled = "disabled"

-- the place in the declaration
abbrev pub rank : ExecutionKeyStatus → ℕ
rank active = 0
rank disabled = 1

abbrev is : ExecutionKeyStatus → ExecutionKeyStatus → Bool
is a b = eqb (rank a) (rank b)

pub is_iff : (a b : ExecutionKeyStatus) → (is a b ≡ true) ↔ (a ≡ b)
is_iff a b = (λ h. ground arith, λ h. ground arith)

instance abbrev pub execution_key_status_eq : Eq ExecutionKeyStatus
execution_key_status_eq = record { beq = is; beq_iff = is_iff }
