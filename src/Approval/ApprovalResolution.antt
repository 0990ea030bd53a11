-- ===== src/Approval/ApprovalResolution.antt =====
-- approval_models.py: `ApprovalResolution`, with `__post_init__` as `post_init`.
use reg_agent_ops.Approval.Checks.{bounded_text, digests, timestamp}
use reg_agent_ops.Base.{
  Bool, List, Result, String, [], is_empty, nat_eq, not, raise_if, string_eq, texts_eq, unique,
  value_error, ◌&&◌, ◌>>=◌, ◌>>◌, ◌||◌, ◌∷◌,
}
use reg_agent_ops.Models.DataClassification.{data_classification_eq}
use reg_agent_ops.Models.Decision.{decision_eq}
use reg_agent_ops.Models.Environment.{environment_eq}
use reg_agent_ops.Models.RiskTier.{risk_tier_eq}
use reg_agent_ops.Models.Value.{Platform, Value, dict, digest_artifact, flag, text, texts}

pub record ApprovalResolution : Type 0 where
  pub institution_id : String
  pub requirement_digest : String
  pub request_digest : String
  pub approval_package_digest : String
  pub approval_satisfied : Bool
  pub replay_consumed : Bool
  pub approved_by : List String
  pub denied_by : List String
  pub reason_codes : List String
  pub authorization_continuation_permitted : Bool
  pub evaluated_at : String
  pub schema_version : String

-- `asdict`, with the members of enumerations as their values
unfoldable pub encode : ApprovalResolution → Value
encode r = dict (
    ("institution_id", text r.institution_id)
    ∷ ("requirement_digest", text r.requirement_digest)
    ∷ ("request_digest", text r.request_digest)
    ∷ ("approval_package_digest", text r.approval_package_digest)
    ∷ ("approval_satisfied", flag r.approval_satisfied)
    ∷ ("replay_consumed", flag r.replay_consumed)
    ∷ ("approved_by", texts r.approved_by)
    ∷ ("denied_by", texts r.denied_by)
    ∷ ("reason_codes", texts r.reason_codes)
    ∷ ("authorization_continuation_permitted", flag r.authorization_continuation_permitted)
    ∷ ("evaluated_at", text r.evaluated_at)
    ∷ ("schema_version", text r.schema_version)
    ∷ [])

module _ ⦃p : Platform⦄ where
  unfoldable pub artifact_digest : ApprovalResolution → String
  artifact_digest r = digest_artifact (encode r)

  unfoldable pub post_init : ApprovalResolution → Result (Unit {0})
  post_init r = do
    bounded_text "institution_id" r.institution_id 256
    digests (
        ("requirement_digest", r.requirement_digest)
        ∷ ("request_digest", r.request_digest)
        ∷ ("approval_package_digest", r.approval_package_digest)
        ∷ [])
    _ ← timestamp "evaluated_at" r.evaluated_at
    raise_if (not (unique r.approved_by) || not (unique r.denied_by))
        (value_error "approval resolution principal lists must be unique")
    raise_if
        (r.authorization_continuation_permitted
          && not (r.approval_satisfied && r.replay_consumed && is_empty r.denied_by))
        (value_error "continuation requires satisfied, consumed approvals without denial")
