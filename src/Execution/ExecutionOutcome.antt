-- ===== src/Execution/ExecutionOutcome.antt =====
-- execution.py: `ExecutionOutcome`, an enumeration of texts.
use reg_agent_ops.Base.{
  Bool, Eq, String, arith, eqb, nat_eq, string_eq, texts_eq, true, ℕ, ◌↔◌, ◌≡◌,
}

pub data ExecutionOutcome : Type 0 where
  succeeded failed : ExecutionOutcome

-- `.value`
unfoldable pub value : ExecutionOutcome → String
value succeeded = "SUCCEEDED"
value failed = "FAILED"

-- the place in the declaration
abbrev pub rank : ExecutionOutcome → ℕ
rank succeeded = 0
rank failed = 1

abbrev is : ExecutionOutcome → ExecutionOutcome → Bool
is a b = eqb (rank a) (rank b)

pub is_iff : (a b : ExecutionOutcome) → (is a b ≡ true) ↔ (a ≡ b)
is_iff a b = (λ h. ground arith, λ h. ground arith)

instance abbrev pub execution_outcome_eq : Eq ExecutionOutcome
execution_outcome_eq = record { beq = is; beq_iff = is_iff }
