-- ===== src/Execution/ApprovalChain.antt =====
-- execution.py, `ExecutionGate._validate_approval_chain`: the approval that a lease rests on.
use reg_agent_ops.Approval.ApprovalRequirement
use reg_agent_ops.Approval.ApprovalResolution
use reg_agent_ops.Models.AgentActionEnvelope
use reg_agent_ops.Models.AuthenticatedAuthorizationDecision
use reg_agent_ops.Approval.ApprovalRequirement.{ApprovalRequirement}
use reg_agent_ops.Approval.ApprovalResolution.{ApprovalResolution}
use reg_agent_ops.Approval.Gate.{resolution}
use reg_agent_ops.Base.{
  Option, Result, String, err, if◌then◌else◌, is_some, nat_eq, none, not, ok, raise_if, some,
  string_eq, texts_eq, value_error, ◌!=◌, ◌>>=◌, ◌>>◌, ◌||◌,
}
use reg_agent_ops.Mcp.McpPolicyEnforcementOutcome.{McpPolicyEnforcementOutcome}
use reg_agent_ops.Models.AgentActionEnvelope.{AgentActionEnvelope}
use reg_agent_ops.Models.AuthenticatedAuthorizationDecision.{AuthenticatedAuthorizationDecision}
use reg_agent_ops.Models.Checks.{raise_if_less, raise_unless_less, utc_timestamp}
use reg_agent_ops.Models.DataClassification.{data_classification_eq}
use reg_agent_ops.Models.Decision.{decision_eq}
use reg_agent_ops.Models.Environment.{environment_eq}
use reg_agent_ops.Models.RiskTier.{risk_tier_eq}
use reg_agent_ops.Models.Value.{Platform}

module _ ⦃p : Platform⦄ where
  -- the checks of `_validate_approval_chain` that compare digests and scopes
  unfoldable pub approval_scope :
      McpPolicyEnforcementOutcome
      → AuthenticatedAuthorizationDecision
      → ApprovalRequirement
      → Result (Unit {0})
  approval_scope outcome authorization requirement = do
    raise_if (requirement.institution_id != outcome.request.institution_id)
        (value_error "approval requirement institution mismatch")
    raise_if (requirement.request_digest != AgentActionEnvelope.artifact_digest outcome.request)
        (value_error "approval requirement request mismatch")
    raise_if
        (requirement.authenticated_authorization_digest
          != AuthenticatedAuthorizationDecision.artifact_digest authorization)
        (value_error "approval requirement authorization mismatch")
    raise_if (requirement.identity_context_digest != authorization.identity_context_digest)
        (value_error "approval requirement identity-context mismatch")
    raise_if
        (requirement.requester_id != outcome.request.human_owner_id
          || requirement.tool_id != outcome.request.tool_id
          || requirement.action != outcome.request.action
          || requirement.environment != outcome.request.environment
          || requirement.risk_tier != outcome.request.risk_tier)
        (value_error "approval requirement scope mismatch")

  -- and those on the resolution
  unfoldable pub approval_resolved :
      McpPolicyEnforcementOutcome → ApprovalRequirement → ApprovalResolution → Result (Unit {0})
  approval_resolved outcome requirement resolution = do
    raise_if
        (resolution.institution_id != outcome.request.institution_id
          || resolution.request_digest != AgentActionEnvelope.artifact_digest outcome.request)
        (value_error "approval resolution request scope mismatch")
    raise_if (resolution.requirement_digest != ApprovalRequirement.artifact_digest requirement)
        (value_error "approval resolution is bound to a different requirement")
    raise_if (not resolution.authorization_continuation_permitted)
        (value_error "approval resolution does not permit authorization continuation")

  -- `_validate_approval_chain` where an approval is required and both artifacts are given
  unfoldable pub approval_chain :
      McpPolicyEnforcementOutcome
      → AuthenticatedAuthorizationDecision
      → ApprovalRequirement
      → ApprovalResolution
      → String
      → Result (Unit {0})
  approval_chain outcome authorization requirement resolution at = do
    at_dt ← utc_timestamp "lease issue time" at
    requirement_start ← utc_timestamp "approval requirement issued_at" requirement.issued_at
    requirement_end ← utc_timestamp "approval requirement expires_at" requirement.expires_at
    resolution_time ← utc_timestamp "approval evaluated_at" resolution.evaluated_at
    approval_scope outcome authorization requirement
    raise_if_less at requirement.issued_at at_dt requirement_start
        (value_error "approval requirement is expired or not yet valid at execution lease issuance")
    raise_unless_less at requirement.expires_at at_dt requirement_end
        (value_error "approval requirement is expired or not yet valid at execution lease issuance")
    raise_if_less resolution.evaluated_at requirement.issued_at resolution_time requirement_start
        (value_error "approval resolution falls outside the approval requirement validity window")
    raise_unless_less resolution.evaluated_at requirement.expires_at resolution_time requirement_end
        (value_error "approval resolution falls outside the approval requirement validity window")
    raise_if_less at resolution.evaluated_at at_dt resolution_time
        (value_error "approval resolution cannot postdate execution lease issuance")
    approval_resolved outcome requirement resolution

  unfoldable pub validate_approval_chain :
      McpPolicyEnforcementOutcome
      → AuthenticatedAuthorizationDecision
      → Option ApprovalRequirement
      → Option ApprovalResolution
      → String
      → Result (Option String × Option String)
  validate_approval_chain outcome authorization requirement resolution at =
      if not outcome.result.human_approval_required
      then (do
        raise_if (is_some requirement || is_some resolution) (
            value_error "approval artifacts must not be attached when no approval gate is required")
        raise_if (not outcome.result.execution_permitted)
            (value_error "non-approved execution path is not permitted by the MCP policy result")
        ok (none, none))
      else elim requirement [
        | none ↦
            err
              (value_error "approval-required execution needs the exact requirement and resolution")
        | some q ↦ elim resolution [
          | none ↦
              err (
                value_error
                  "approval-required execution needs the exact requirement and resolution")
          | some r ↦ (do
            approval_chain outcome authorization q r at
            ok (
              some (ApprovalRequirement.artifact_digest q),
              some (ApprovalResolution.artifact_digest r),
            ))
        ]
      ]
