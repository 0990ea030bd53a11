-- ===== src/Approval/GrantType.antt =====
-- approval_models.py: `GrantType`, an enumeration of texts.
use reg_agent_ops.Base.{
  Bool, Eq, String, arith, eqb, nat_eq, string_eq, texts_eq, true, ℕ, ◌↔◌, ◌≡◌,
}

pub data GrantType : Type 0 where
  direct delegated : GrantType

-- `.value`
unfoldable pub value : GrantType → String
value direct = "direct"
value delegated = "delegated"

-- the place in the declaration
abbrev pub rank : GrantType → ℕ
rank direct = 0
rank delegated = 1

abbrev is : GrantType → GrantType → Bool
is a b = eqb (rank a) (rank b)

pub is_iff : (a b : GrantType) → (is a b ≡ true) ↔ (a ≡ b)
is_iff a b = (λ h. ground arith, λ h. ground arith)

instance abbrev pub grant_type_eq : Eq GrantType
grant_type_eq = record { beq = is; beq_iff = is_iff }
