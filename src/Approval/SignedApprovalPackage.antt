-- ===== src/Approval/SignedApprovalPackage.antt =====
-- approval_engine.py: `SignedApprovalPackage`, with `__post_init__` as `post_init`.
use reg_agent_ops.Approval.ApprovalRequirement
use reg_agent_ops.Approval.SignedApprovalStatement
use reg_agent_ops.Approval.ApprovalRequirement.{ApprovalRequirement}
use reg_agent_ops.Approval.SignedApprovalStatement.{SignedApprovalStatement}
use reg_agent_ops.Base.{
  List, Result, String, [], length, ltb, map, nat_eq, not, raise_if, string_eq, texts_eq, unique,
  value_error, ◌>>◌, ◌∷◌,
}
use reg_agent_ops.Models.DataClassification.{data_classification_eq}
use reg_agent_ops.Models.Decision.{decision_eq}
use reg_agent_ops.Models.Environment.{environment_eq}
use reg_agent_ops.Models.RiskTier.{risk_tier_eq}
use reg_agent_ops.Models.Value.{Platform, Value, array_of, dict, digest_artifact, text}

pub record SignedApprovalPackage : Type 0 where
  pub requirement : ApprovalRequirement
  pub approvals : List SignedApprovalStatement
  pub schema_version : String

-- `asdict`, with the members of enumerations as their values
unfoldable pub encode : SignedApprovalPackage → Value
encode r = dict (
    ("requirement", ApprovalRequirement.encode r.requirement)
    ∷ ("approvals", array_of SignedApprovalStatement.encode r.approvals)
    ∷ ("schema_version", text r.schema_version)
    ∷ [])

module _ ⦃p : Platform⦄ where
  unfoldable pub artifact_digest : SignedApprovalPackage → String
  artifact_digest r = digest_artifact (encode r)

  unfoldable pub post_init : SignedApprovalPackage → Result (Unit {0})
  post_init r = do
    raise_if (ltb 5 (length r.approvals))
        (value_error "approval package cannot contain more than five approvals")
    raise_if (not (unique (map (λ item. item.statement.approval_id) r.approvals)))
        (value_error "approval package contains duplicate approval ids")
