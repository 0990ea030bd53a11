-- ===== src/Approval/ApprovalVote.antt =====
-- approval_models.py: `ApprovalVote`, an enumeration of texts.
use reg_agent_ops.Base.{
  Bool, Eq, String, arith, eqb, nat_eq, string_eq, texts_eq, true, ℕ, ◌↔◌, ◌≡◌,
}

pub data ApprovalVote : Type 0 where
  approve deny : ApprovalVote

-- `.value`
unfoldable pub value : ApprovalVote → String
value approve = "APPROVE"
value deny = "DENY"

-- the place in the declaration
abbrev pub rank : ApprovalVote → ℕ
rank approve = 0
rank deny = 1

abbrev is : ApprovalVote → ApprovalVote → Bool
is a b = eqb (rank a) (rank b)

pub is_iff : (a b : ApprovalVote) → (is a b ≡ true) ↔ (a ≡ b)
is_iff a b = (λ h. ground arith, λ h. ground arith)

instance abbrev pub approval_vote_eq : Eq ApprovalVote
approval_vote_eq = record { beq = is; beq_iff = is_iff }
