-- ===== src/Approval/ApprovalEscalationPolicy.antt =====
-- approval_models.py: `ApprovalEscalationPolicy`, with `__post_init__` as `post_init`.
use reg_agent_ops.Approval.Checks.{bounded_text}
use reg_agent_ops.Base.{
  Result, String, [], for_each, leb, ltb, not, raise_if, value_error, ℕ, ◌&&◌, ◌+++◌, ◌>>◌, ◌||◌,
  ◌∷◌,
}
use reg_agent_ops.Models.Value.{Platform, Value, dict, digest_artifact, num, text}

pub record ApprovalEscalationPolicy : Type 0 where
  pub institution_id : String
  pub policy_approval_minimum : ℕ
  pub high_risk_minimum : ℕ
  pub critical_risk_minimum : ℕ
  pub max_requirement_lifetime_seconds : ℕ
  pub schema_version : String

-- `asdict`, with the members of enumerations as their values
unfoldable pub encode : ApprovalEscalationPolicy → Value
encode r = dict (
    ("institution_id", text r.institution_id)
    ∷ ("policy_approval_minimum", num r.policy_approval_minimum)
    ∷ ("high_risk_minimum", num r.high_risk_minimum)
    ∷ ("critical_risk_minimum", num r.critical_risk_minimum)
    ∷ ("max_requirement_lifetime_seconds", num r.max_requirement_lifetime_seconds)
    ∷ ("schema_version", text r.schema_version)
    ∷ [])

module _ ⦃p : Platform⦄ where
  unfoldable pub artifact_digest : ApprovalEscalationPolicy → String
  artifact_digest r = digest_artifact (encode r)

  unfoldable pub post_init : ApprovalEscalationPolicy → Result (Unit {0})
  post_init r = do
    bounded_text "institution_id" r.institution_id 256
    for_each {A = String × ℕ}
        (("policy_approval_minimum", r.policy_approval_minimum)
          ∷ ("high_risk_minimum", r.high_risk_minimum)
          ∷ ("critical_risk_minimum", r.critical_risk_minimum)
          ∷ [])
        (λ e. raise_if (ltb e.1 1 || ltb 5 e.1) (value_error (e.0 +++ " must be between 1 and 5")))
    raise_if (ltb r.critical_risk_minimum r.high_risk_minimum)
        (value_error "critical risk approval minimum cannot be lower than high risk")
    raise_if
        (not (
          leb 60 r.max_requirement_lifetime_seconds && leb r.max_requirement_lifetime_seconds 1800))
        (value_error "approval requirement lifetime must be between 60 and 1800 seconds")
