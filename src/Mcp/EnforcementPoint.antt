-- ===== src/Mcp/EnforcementPoint.antt =====
-- mcp.py, `McpPolicyEnforcementPoint`: what the governance state and the policy say of a request.
pub mod Enforced
use reg_agent_ops.Mcp.McpPolicyEnforcementOutcome
use reg_agent_ops.Mcp.McpPolicyEnforcementResult
use reg_agent_ops.Mcp.McpToolDescriptor
use reg_agent_ops.Mcp.Registry.Current
use reg_agent_ops.Models.AgentActionEnvelope
use reg_agent_ops.Models.AuthenticatedAuthorizationDecision
use reg_agent_ops.Base.{
  Error, Option, Result, String, [], approval_authority_error, approval_gate_error,
  approval_signature_error, err, false, fuel_exhausted, identity_binding_error,
  identity_signature_error, if◌then◌else◌, index_error, nat_eq, none, not, ok, overflow_error,
  raise_if, receipt_signature_error, some, starts_with, string_eq, texts_eq, type_error,
  value_error, workload_identity_error, ◌!=◌, ◌&&◌, ◌>>=◌, ◌>>◌, ◌∷◌,
}
use reg_agent_ops.Identity.WorkloadIdentityTrustBundle.{WorkloadIdentityTrustBundle}
use reg_agent_ops.Mcp.Checks.{mcp_tool_action}
use reg_agent_ops.Mcp.McpPolicyEnforcementOutcome.{
  McpPolicyEnforcementOutcome, approval_gate_required,
}
use reg_agent_ops.Mcp.McpPolicyEnforcementResult.{McpPolicyEnforcementResult}
use reg_agent_ops.Mcp.McpToolBinding.{McpToolBinding}
use reg_agent_ops.Mcp.McpToolDescriptor.{McpToolDescriptor}
use reg_agent_ops.Mcp.Registry.{McpGovernanceRegistry}
use reg_agent_ops.Mcp.Registry.Current.{
  assert_binding_current, current_binding_for_tool, current_tool_registry, is_value_error,
}
use reg_agent_ops.Models.AgentActionEnvelope.{AgentActionEnvelope}
use reg_agent_ops.Models.AuthenticatedAuthorizationDecision.{
  AuthenticatedAuthorizationDecision, decision,
}
use reg_agent_ops.Models.DataClassification.{data_classification_eq}
use reg_agent_ops.Models.Decision.{Decision, decision_eq}
use reg_agent_ops.Models.Environment.{environment_eq}
use reg_agent_ops.Models.RiskTier.{risk_tier_eq}
use reg_agent_ops.Models.Value.{Platform}
use reg_agent_ops.Policy.Authenticated.{
  IdentityArgument, authenticated_engine, evaluate_authenticated,
}
use reg_agent_ops.Policy.PolicyBundle.{PolicyBundle}
use reg_agent_ops.Registry.AgentRegistry.{AgentRegistry}
use reg_agent_ops.Registry.ToolRegistry.{ToolRegistry}

pub record McpPolicyEnforcementPoint : Type 0 where
  pub agents : AgentRegistry
  pub mcp : McpGovernanceRegistry

-- The digests that `evaluate` has set when an exception is raised.
pub record Evidence : Type 0 where
  pub server_digest : Option String
  pub snapshot_digest : Option String
  pub descriptor_digest : Option String

-- `str(exc)`
abbrev pub message : Error → String
message (value_error m) = m
message (approval_gate_error m) = m
message (approval_authority_error m) = m
message (approval_signature_error m) = m
message (receipt_signature_error m) = m
message (identity_signature_error m) = m
message (workload_identity_error m) = m
message (identity_binding_error m) = m
message (overflow_error m) = m
message (index_error m) = m
message (type_error m) = m
message fuel_exhausted = ""

-- the reason code of a precondition that failed
unfoldable pub precondition_reason : Error → String
precondition_reason e =
    if starts_with (message e) "mcp_" then message e else "mcp_governance_precondition_failed"

abbrev pub no_evidence : Evidence
no_evidence = record { server_digest = none; snapshot_digest = none; descriptor_digest = none }

module _ ⦃p : Platform⦄ where
  -- the statements of the `try` before the digests are set
  unfoldable pub governed_binding :
      McpPolicyEnforcementPoint → AgentActionEnvelope → Result (McpToolBinding × McpToolDescriptor)
  governed_binding point request = do
    raise_if (request.action != mcp_tool_action) (value_error "mcp_action_not_governed")
    binding ← current_binding_for_tool point.mcp request.institution_id request.tool_id
    descriptor ← assert_binding_current point.mcp binding
    ok (binding, descriptor)

  abbrev pub evidence_of : McpToolBinding → McpToolDescriptor → Evidence
  evidence_of binding descriptor = record {
    server_digest = some binding.server_registration_digest;
    snapshot_digest = some binding.tool_snapshot_digest;
    descriptor_digest = some (McpToolDescriptor.artifact_digest descriptor);
  }

  -- the body of the `try`: the digests it has set, and the tools or the exception
  unfoldable pub preconditions :
      McpPolicyEnforcementPoint → AgentActionEnvelope → Evidence × Result ToolRegistry
  preconditions point request = elim (governed_binding point request) [
    | err e ↦ (no_evidence, err e)
    | ok (binding, descriptor) ↦
        (evidence_of binding descriptor, current_tool_registry point.mcp request.institution_id)
  ]

  -- the result of a precondition that failed
  unfoldable pub denied_result :
      AgentActionEnvelope → String → Evidence → String → String → McpPolicyEnforcementResult
  denied_result request registry_digest evidence reason evaluated_at = record {
    institution_id = request.institution_id;
    request_digest = AgentActionEnvelope.artifact_digest request;
    mcp_registry_snapshot_digest = registry_digest;
    server_registration_digest = evidence.server_digest;
    tool_snapshot_digest = evidence.snapshot_digest;
    tool_descriptor_digest = evidence.descriptor_digest;
    authenticated_authorization_digest = none;
    identity_verified = false;
    risk_tier = request.risk_tier;
    decision = Decision.deny;
    constraints = [];
    reason_codes = reason ∷ [];
    human_approval_required = false;
    execution_permitted = false;
    execution_performed = false;
    evaluated_at = evaluated_at;
    schema_version = "regagentops.mcp-policy-enforcement-result.v1";
  }

  -- the result of an authorization
  unfoldable pub authorized_result :
      AgentActionEnvelope
      → String
      → Evidence
      → AuthenticatedAuthorizationDecision
      → String
      → McpPolicyEnforcementResult
  authorized_result request registry_digest evidence authorization evaluated_at =
      let approval_required =
        approval_gate_required (AuthenticatedAuthorizationDecision.decision authorization)
          request.risk_tier authorization.authorization.human_approval_required in
      record {
        institution_id = request.institution_id;
        request_digest = AgentActionEnvelope.artifact_digest request;
        mcp_registry_snapshot_digest = registry_digest;
        server_registration_digest = evidence.server_digest;
        tool_snapshot_digest = evidence.snapshot_digest;
        tool_descriptor_digest = evidence.descriptor_digest;
        authenticated_authorization_digest =
            some (AuthenticatedAuthorizationDecision.artifact_digest authorization);
        identity_verified = authorization.identity_verified;
        risk_tier = request.risk_tier;
        decision = AuthenticatedAuthorizationDecision.decision authorization;
        constraints = authorization.authorization.constraints;
        reason_codes = authorization.authorization.reason_codes;
        human_approval_required = approval_required;
        execution_permitted =
            authorization.authorization.policy_permits_execution && not approval_required;
        execution_performed = false;
        evaluated_at = evaluated_at;
        schema_version = "regagentops.mcp-policy-enforcement-result.v1";
      }

  -- the two constructors' calls that end both branches
  unfoldable pub enforcement_outcome :
      AgentActionEnvelope
      → McpPolicyEnforcementResult
      → Option AuthenticatedAuthorizationDecision
      → Result McpPolicyEnforcementOutcome
  enforcement_outcome request result authorization = do
    McpPolicyEnforcementResult.post_init result
    let outcome : McpPolicyEnforcementOutcome = record {
      request = request;
      result = result;
      authorization = authorization;
    }
    McpPolicyEnforcementOutcome.post_init outcome
    ok outcome

  -- `evaluate`, once the `try` has ended
  unfoldable pub after_preconditions :
      McpPolicyEnforcementPoint
      → AgentActionEnvelope
      → PolicyBundle
      → IdentityArgument
      → WorkloadIdentityTrustBundle
      → String
      → Evidence × Result ToolRegistry
      → Result McpPolicyEnforcementOutcome
  after_preconditions point request policy identity trust_bundle evaluated_at (evidence, err e) =
      if is_value_error e
      then enforcement_outcome request
          (denied_result request (Current.snapshot_digest point.mcp request.institution_id) evidence
            (precondition_reason e) evaluated_at)
          none
      else err e
  after_preconditions point request policy identity trust_bundle evaluated_at (evidence, ok tools) =
      do
        authorization ←
            evaluate_authenticated (authenticated_engine point.agents tools) request policy identity
              trust_bundle evaluated_at
        enforcement_outcome request
            (authorized_result request (Current.snapshot_digest point.mcp request.institution_id)
              evidence authorization evaluated_at)
            (some authorization)

  unfoldable pub enforce :
      McpPolicyEnforcementPoint
      → AgentActionEnvelope
      → PolicyBundle
      → IdentityArgument
      → WorkloadIdentityTrustBundle
      → String
      → Result McpPolicyEnforcementOutcome
  enforce point request policy identity trust_bundle evaluated_at =
      after_preconditions point request policy identity trust_bundle evaluated_at
        (preconditions point request)
