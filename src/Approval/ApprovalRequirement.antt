-- ===== src/Approval/ApprovalRequirement.antt =====
-- approval_models.py: `ApprovalRequirement`, with `__post_init__` as `post_init`.
use reg_agent_ops.Models.Environment
use reg_agent_ops.Models.RiskTier
use reg_agent_ops.Approval.Checks.{bounded_texts, digests, timestamp}
use reg_agent_ops.Base.{
  Bool, Result, String, [], leb, not, raise_if, value_error, ℕ, ◌&&◌, ◌>>=◌, ◌>>◌, ◌∷◌,
}
use reg_agent_ops.Models.Checks.{raise_unless_less}
use reg_agent_ops.Models.Environment.{Environment}
use reg_agent_ops.Models.RiskTier.{RiskTier}
use reg_agent_ops.Models.Value.{Platform, Value, dict, digest_artifact, flag, num, text}

pub record ApprovalRequirement : Type 0 where
  pub requirement_id : String
  pub institution_id : String
  pub request_digest : String
  pub authenticated_authorization_digest : String
  pub identity_context_digest : String
  pub requester_id : String
  pub tool_id : String
  pub action : String
  pub environment : Environment
  pub risk_tier : RiskTier
  pub min_approvals : ℕ
  pub requester_separation_required : Bool
  pub escalation_policy_digest : String
  pub issued_at : String
  pub expires_at : String
  pub schema_version : String

-- `asdict`, with the members of enumerations as their values
unfoldable pub encode : ApprovalRequirement → Value
encode r = dict (
    ("requirement_id", text r.requirement_id)
    ∷ ("institution_id", text r.institution_id)
    ∷ ("request_digest", text r.request_digest)
    ∷ ("authenticated_authorization_digest", text r.authenticated_authorization_digest)
    ∷ ("identity_context_digest", text r.identity_context_digest)
    ∷ ("requester_id", text r.requester_id)
    ∷ ("tool_id", text r.tool_id)
    ∷ ("action", text r.action)
    ∷ ("environment", text (Environment.value r.environment))
    ∷ ("risk_tier", text (RiskTier.value r.risk_tier))
    ∷ ("min_approvals", num r.min_approvals)
    ∷ ("requester_separation_required", flag r.requester_separation_required)
    ∷ ("escalation_policy_digest", text r.escalation_policy_digest)
    ∷ ("issued_at", text r.issued_at)
    ∷ ("expires_at", text r.expires_at)
    ∷ ("schema_version", text r.schema_version)
    ∷ [])

module _ ⦃p : Platform⦄ where
  unfoldable pub artifact_digest : ApprovalRequirement → String
  artifact_digest r = digest_artifact (encode r)

  unfoldable pub post_init : ApprovalRequirement → Result (Unit {0})
  post_init r = do
    bounded_texts (
        ("requirement_id", r.requirement_id)
        ∷ ("institution_id", r.institution_id)
        ∷ ("requester_id", r.requester_id)
        ∷ ("tool_id", r.tool_id)
        ∷ ("action", r.action)
        ∷ [])
    digests (
        ("request_digest", r.request_digest)
        ∷ ("authenticated_authorization_digest", r.authenticated_authorization_digest)
        ∷ ("identity_context_digest", r.identity_context_digest)
        ∷ ("escalation_policy_digest", r.escalation_policy_digest)
        ∷ [])
    raise_if (not (leb 1 r.min_approvals && leb r.min_approvals 5))
        (value_error "min_approvals must be between 1 and 5")
    issued ← timestamp "issued_at" r.issued_at
    expires ← timestamp "expires_at" r.expires_at
    raise_unless_less r.issued_at r.expires_at issued expires
        (value_error "approval requirement must expire after issuance")
