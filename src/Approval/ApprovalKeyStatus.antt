-- ===== src/Approval/ApprovalKeyStatus.antt =====
-- approval_signature.py: `ApprovalKeyStatus`, an enumeration of texts.
use reg_agent_ops.Base.{
  Bool, Eq, String, arith, eqb, nat_eq, string_eq, texts_eq, true, ℕ, ◌↔◌, ◌≡◌,
}

pub data ApprovalKeyStatus : Type 0 where
  active disabled : ApprovalKeyStatus

-- `.value`
unfoldable pub value : ApprovalKeyStatus → String
value active = "active"
value disabled = "disabled"

-- the place in the declaration
abbrev pub rank : ApprovalKeyStatus → ℕ
rank active = 0
rank disabled = 1

abbrev is : ApprovalKeyStatus → ApprovalKeyStatus → Bool
is a b = eqb (rank a) (rank b)

pub is_iff : (a b : ApprovalKeyStatus) → (is a b ≡ true) ↔ (a ≡ b)
is_iff a b = (λ h. ground arith, λ h. ground arith)

instance abbrev pub approval_key_status_eq : Eq ApprovalKeyStatus
approval_key_status_eq = record { beq = is; beq_iff = is_iff }
