-- ===== src/Models/DataClassification.antt =====
-- models.py: `DataClassification`, an enumeration of texts.
use reg_agent_ops.Base.{Bool, Eq, String, arith, eqb, nat_eq, string_eq, true, ℕ, ◌↔◌, ◌≡◌}

pub data DataClassification : Type 0 where
  public internal confidential restricted : DataClassification

-- `.value`
unfoldable pub value : DataClassification → String
value public = "public"
value internal = "internal"
value confidential = "confidential"
value restricted = "restricted"

-- the place in the declaration
abbrev pub rank : DataClassification → ℕ
rank public = 0
rank internal = 1
rank confidential = 2
rank restricted = 3

abbrev is : DataClassification → DataClassification → Bool
is a b = eqb (rank a) (rank b)

pub is_iff : (a b : DataClassification) → (is a b ≡ true) ↔ (a ≡ b)
is_iff a b = (λ h. ground arith, λ h. ground arith)

instance abbrev pub data_classification_eq : Eq DataClassification
data_classification_eq = record { beq = is; beq_iff = is_iff }
