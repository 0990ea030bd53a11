-- ===== src/Mcp/McpPolicyEnforcementOutcome.antt =====
-- mcp.py: `McpPolicyEnforcementOutcome`, with `__post_init__` as `post_init`.
use reg_agent_ops.Models.AgentActionEnvelope
use reg_agent_ops.Models.AuthenticatedAuthorizationDecision
use reg_agent_ops.Base.{
  Bool, Option, Result, false, if◌then◌else◌, is_some, nat_eq, none, not, raise_if, same_flag,
  same_optional, some, string_eq, texts_eq, value_error, ◌!=◌, ◌&&◌, ◌==◌, ◌>>◌, ◌||◌,
}
use reg_agent_ops.Mcp.McpPolicyEnforcementResult.{McpPolicyEnforcementResult, high_impact}
use reg_agent_ops.Models.AgentActionEnvelope.{AgentActionEnvelope}
use reg_agent_ops.Models.AuthenticatedAuthorizationDecision.{
  AuthenticatedAuthorizationDecision, decision,
}
use reg_agent_ops.Models.DataClassification.{data_classification_eq}
use reg_agent_ops.Models.Decision.{Decision, decision_eq}
use reg_agent_ops.Models.Environment.{environment_eq}
use reg_agent_ops.Models.RiskTier.{RiskTier, risk_tier_eq}
use reg_agent_ops.Models.Value.{Platform}

pub record McpPolicyEnforcementOutcome : Type 0 where
  pub request : AgentActionEnvelope
  pub result : McpPolicyEnforcementResult
  pub authorization : Option AuthenticatedAuthorizationDecision

-- `_approval_gate_required`
unfoldable pub approval_gate_required : Decision → RiskTier → Bool → Bool
approval_gate_required decision risk policy_requires_approval =
    if decision == Decision.deny then false else policy_requires_approval || high_impact risk

module _ ⦃p : Platform⦄ where
  -- the checks against the authorization, where there is one
  unfoldable pub authorization_consistent :
      McpPolicyEnforcementOutcome → AuthenticatedAuthorizationDecision → Result (Unit {0})
  authorization_consistent r authorization = do
    let expected_gate =
        approval_gate_required (AuthenticatedAuthorizationDecision.decision authorization)
          r.request.risk_tier authorization.authorization.human_approval_required
    raise_if
        (not (
          same_optional r.result.authenticated_authorization_digest
            (some (AuthenticatedAuthorizationDecision.artifact_digest authorization))))
        (value_error "MCP result is bound to a different authenticated authorization")
    raise_if (authorization.request_digest != r.result.request_digest)
        (value_error "MCP result and authenticated authorization must bind the same request")
    raise_if (AuthenticatedAuthorizationDecision.decision authorization != r.result.decision)
        (value_error "MCP result and authenticated authorization decisions must match")
    raise_if (authorization.authorization.constraints != r.result.constraints)
        (value_error "MCP result constraints must match authenticated authorization")
    raise_if (not (same_flag r.result.human_approval_required expected_gate))
        (value_error "MCP result approval gate state does not match authorization and request risk")
    raise_if
        (not (
          same_flag r.result.execution_permitted
            (authorization.authorization.policy_permits_execution && not expected_gate)))
        (value_error "MCP result continuation permission does not match approval gate state")

  unfoldable pub post_init : McpPolicyEnforcementOutcome → Result (Unit {0})
  post_init r = do
    raise_if (AgentActionEnvelope.artifact_digest r.request != r.result.request_digest)
        (value_error "MCP result is bound to a different request")
    raise_if (r.request.risk_tier != r.result.risk_tier)
        (value_error "MCP result risk tier does not match the bound request")
    elim r.authorization [
      | none ↦ (do
        raise_if (is_some r.result.authenticated_authorization_digest)
            (value_error "missing authorization object for represented authorization digest")
        raise_if (r.result.decision != Decision.deny)
            (value_error "MCP precondition failure without authorization must be DENY"))
      | some authorization ↦ authorization_consistent r authorization
    ]
