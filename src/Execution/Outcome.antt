-- ===== src/Execution/Outcome.antt =====
-- execution.py, `ExecutionGate`: what must hold of an enforcement outcome before anything is executed.
use reg_agent_ops.Mcp.McpToolDescriptor
use reg_agent_ops.Base.{
  Result, err, is_none, nat_eq, none, not, ok, raise_if, same_optional, some, string_eq, texts_eq,
  value_error, ◌!=◌, ◌==◌, ◌>>=◌, ◌>>◌, ◌||◌,
}
use reg_agent_ops.Mcp.McpPolicyEnforcementOutcome.{McpPolicyEnforcementOutcome}
use reg_agent_ops.Mcp.McpToolDescriptor.{McpToolDescriptor}
use reg_agent_ops.Mcp.Registry.{McpGovernanceRegistry}
use reg_agent_ops.Mcp.Registry.Current.{
  assert_binding_current, current_binding_for_tool, snapshot_digest,
}
use reg_agent_ops.Models.AuthenticatedAuthorizationDecision.{AuthenticatedAuthorizationDecision}
use reg_agent_ops.Models.DataClassification.{data_classification_eq}
use reg_agent_ops.Models.Decision.{Decision, decision_eq}
use reg_agent_ops.Models.Environment.{environment_eq}
use reg_agent_ops.Models.RiskTier.{risk_tier_eq}
use reg_agent_ops.Models.Value.{Platform}

-- `_validate_outcome`; it returns the authorization that the callers read next
unfoldable pub validate_outcome :
    McpPolicyEnforcementOutcome → Result AuthenticatedAuthorizationDecision
validate_outcome outcome = do
  authorization ← elim outcome.authorization [
    | none ↦ err (value_error "execution requires verified authenticated authorization")
    | some authorization ↦ ok authorization
  ]
  raise_if (not authorization.identity_verified)
      (value_error "execution requires verified authenticated authorization")
  raise_if (outcome.result.decision == Decision.deny)
      (value_error "DENY decisions cannot produce an execution lease")
  raise_if outcome.result.execution_performed
      (value_error "MCP policy-enforcement result must remain non-executing")
  raise_if
      (is_none outcome.result.server_registration_digest
        || is_none outcome.result.tool_snapshot_digest
        || is_none outcome.result.tool_descriptor_digest
        || is_none outcome.result.authenticated_authorization_digest)
      (value_error "execution requires complete governed MCP and authorization evidence")
  ok authorization

module _ ⦃p : Platform⦄ where
  -- `_assert_current_governance`
  unfoldable pub assert_current_governance :
      McpGovernanceRegistry → McpPolicyEnforcementOutcome → Result (Unit {0})
  assert_current_governance mcp outcome = do
    raise_if
        (snapshot_digest mcp outcome.request.institution_id
          != outcome.result.mcp_registry_snapshot_digest)
        (value_error "MCP governance state changed after policy enforcement")
    binding ← current_binding_for_tool mcp outcome.request.institution_id outcome.request.tool_id
    descriptor ← assert_binding_current mcp binding
    raise_if
        (not (
          same_optional (some binding.server_registration_digest)
            outcome.result.server_registration_digest))
        (value_error "MCP server registration changed after policy enforcement")
    raise_if
        (not
          (same_optional (some binding.tool_snapshot_digest) outcome.result.tool_snapshot_digest))
        (value_error "MCP tool snapshot changed after policy enforcement")
    raise_if
        (not (
          same_optional (some (McpToolDescriptor.artifact_digest descriptor))
            outcome.result.tool_descriptor_digest))
        (value_error "MCP tool descriptor changed after policy enforcement")
