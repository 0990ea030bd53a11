-- ===== src/Models/Environment.antt =====
-- models.py: `Environment`, an enumeration of texts.
use reg_agent_ops.Base.{Bool, Eq, String, arith, eqb, nat_eq, string_eq, true, ℕ, ◌↔◌, ◌≡◌}

pub data Environment : Type 0 where
  sandbox development test staging production : Environment

-- `.value`
unfoldable pub value : Environment → String
value sandbox = "sandbox"
value development = "development"
value test = "test"
value staging = "staging"
value production = "production"

-- the place in the declaration
abbrev pub rank : Environment → ℕ
rank sandbox = 0
rank development = 1
rank test = 2
rank staging = 3
rank production = 4

abbrev is : Environment → Environment → Bool
is a b = eqb (rank a) (rank b)

pub is_iff : (a b : Environment) → (is a b ≡ true) ↔ (a ≡ b)
is_iff a b = (λ h. ground arith, λ h. ground arith)

instance abbrev pub environment_eq : Eq Environment
environment_eq = record { beq = is; beq_iff = is_iff }
