-- ===== src/Approval/Replay.antt =====
-- approval_replay.py: the ledger of redeemed requirements. The table's PRIMARY KEY and UNIQUE
-- constraint refuse a row, and a refused transaction is rolled back.
use reg_agent_ops.Base.{
  Bool, List, String, any, false, if◌then◌else◌, length, nat_eq, string_eq, texts_eq, true, ℕ, ◌==◌,
  ◌||◌, ◌∷◌,
}
use reg_agent_ops.Models.DataClassification.{data_classification_eq}
use reg_agent_ops.Models.Decision.{decision_eq}
use reg_agent_ops.Models.Environment.{environment_eq}
use reg_agent_ops.Models.RiskTier.{risk_tier_eq}

pub record Redemption : Type 0 where
  pub requirement_digest : String
  pub approval_package_digest : String
  pub institution_id : String
  pub request_digest : String
  pub redeemed_at : String

abbrev pub ApprovalReplayLedger : Type 0
ApprovalReplayLedger = List Redemption

-- Does the row violate the PRIMARY KEY or the UNIQUE constraint of the table?
unfoldable pub violates : Redemption → ApprovalReplayLedger → Bool
violates row rows =
    any
      (λ old.
        old.requirement_digest == row.requirement_digest
        || old.approval_package_digest == row.approval_package_digest)
      rows

unfoldable pub consume : ApprovalReplayLedger → Redemption → Bool × ApprovalReplayLedger
consume rows row = if violates row rows then (false, rows) else (true, row ∷ rows)

unfoldable pub redemption_count : ApprovalReplayLedger → ℕ
redemption_count rows = length rows
