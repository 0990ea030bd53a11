-- ===== src/Execution/Gate.antt =====
-- execution.py, `ExecutionGate`: leases are issued, redeemed once and answered by receipts.
pub mod Redemption
pub mod Receipted
pub mod Issue
use reg_agent_ops.Execution.EmergencyStopState
use reg_agent_ops.Execution.ExecutionLease
use reg_agent_ops.Execution.ExecutionLeaseConsumption
use reg_agent_ops.Mcp.McpPolicyEnforcementResult
use reg_agent_ops.Models.AgentActionEnvelope
use reg_agent_ops.Models.AuthenticatedAuthorizationDecision
use reg_agent_ops.Models.AuthorizationDecision
use reg_agent_ops.Approval.ApprovalRequirement.{ApprovalRequirement}
use reg_agent_ops.Approval.ApprovalResolution.{ApprovalResolution}
use reg_agent_ops.Approval.Checks.{digests}
use reg_agent_ops.Approval.Gate.{resolution}
use reg_agent_ops.Base.{
  Option, Result, String, err, is_some, ltb, nat_eq, not, ok, raise_if, same_flag, string_eq,
  texts_eq, value_error, ℕ, ◌!=◌, ◌*◌, ◌-◌, ◌>>=◌, ◌>>◌,
}
use reg_agent_ops.Execution.ApprovalChain.{validate_approval_chain}
use reg_agent_ops.Execution.EmergencyStopState.{EmergencyStopState}
use reg_agent_ops.Execution.EmergencyStops.{EmergencyStopRegistry, current}
use reg_agent_ops.Execution.ExecutionLease.{ExecutionLease}
use reg_agent_ops.Execution.ExecutionLeaseConsumption.{ExecutionLeaseConsumption}
use reg_agent_ops.Execution.Ledger.{ExecutionLeaseLedger, consume_lease}
use reg_agent_ops.Execution.Outcome.{assert_current_governance, validate_outcome}
use reg_agent_ops.Mcp.McpPolicyEnforcementOutcome.{McpPolicyEnforcementOutcome}
use reg_agent_ops.Mcp.McpPolicyEnforcementResult.{McpPolicyEnforcementResult}
use reg_agent_ops.Mcp.Registry.{McpGovernanceRegistry}
use reg_agent_ops.Mcp.Registry.Current.{snapshot_digest}
use reg_agent_ops.Models.AgentActionEnvelope.{AgentActionEnvelope}
use reg_agent_ops.Models.AuthenticatedAuthorizationDecision.{AuthenticatedAuthorizationDecision}
use reg_agent_ops.Models.AuthorizationDecision.{AuthorizationDecision}
use reg_agent_ops.Models.Checks.{
  default_limit, raise_if_less, raise_unless_less, require_text, utc_timestamp,
}
use reg_agent_ops.Models.DataClassification.{data_classification_eq}
use reg_agent_ops.Models.Decision.{decision_eq}
use reg_agent_ops.Models.Environment.{environment_eq}
use reg_agent_ops.Models.RiskTier.{risk_tier_eq}
use reg_agent_ops.Models.Value.{Platform}

pub record ExecutionGate : Type 0 where
  pub mcp : McpGovernanceRegistry
  pub stops : EmergencyStopRegistry

-- EXECUTION_AUTHORIZATION_MAX_AGE_SECONDS
abbrev pub max_authorization_age_seconds : ℕ
max_authorization_age_seconds = 120

module _ ⦃p : Platform⦄ where
  -- the emergency-stop checks of issue and redemption: the current state, in force and not halted
  unfoldable pub running_state :
      EmergencyStopRegistry → String → String → ℕ → String → Result EmergencyStopState
  running_state stops institution_id at now halted_message = do
    stop ← current stops institution_id
    effective ← utc_timestamp "emergency-stop effective_at" stop.effective_at
    raise_if_less at stop.effective_at now effective
        (value_error "current emergency-stop state is not yet effective")
    raise_if stop.halted (value_error halted_message)
    ok stop

  unfoldable pub lease_record :
      McpPolicyEnforcementOutcome
      → AuthenticatedAuthorizationDecision
      → String
      → String
      → String
      → String
      → EmergencyStopState
      → Option String × Option String
      → ExecutionLease
  lease_record outcome authorization lease_id executor_id issued_at expires_at stop digests =
      record {
        lease_id = lease_id;
        institution_id = outcome.request.institution_id;
        executor_id = executor_id;
        request_digest = AgentActionEnvelope.artifact_digest outcome.request;
        authenticated_authorization_digest =
            AuthenticatedAuthorizationDecision.artifact_digest authorization;
        policy_decision_digest = AuthorizationDecision.decision_digest authorization.authorization;
        mcp_policy_enforcement_result_digest =
            McpPolicyEnforcementResult.artifact_digest outcome.result;
        mcp_registry_snapshot_digest = outcome.result.mcp_registry_snapshot_digest;
        approval_requirement_digest = digests.0;
        approval_resolution_digest = digests.1;
        emergency_stop_state_digest = EmergencyStopState.artifact_digest stop;
        issued_at = issued_at;
        expires_at = expires_at;
        schema_version = "regagentops.execution-lease.v1";
      }

  unfoldable pub issue_lease :
      ExecutionGate
      → McpPolicyEnforcementOutcome
      → String
      → String
      → String
      → String
      → Option ApprovalRequirement
      → Option ApprovalResolution
      → Result ExecutionLease
  issue_lease gate outcome lease_id executor_id issued_at expires_at requirement resolution = do
    authorization ← validate_outcome outcome
    assert_current_governance gate.mcp outcome
    require_text "executor_id" executor_id default_limit
    issue_time ← utc_timestamp "issued_at" issued_at
    evaluated_at ← utc_timestamp "policy evaluated_at" outcome.result.evaluated_at
    raise_if_less issued_at outcome.result.evaluated_at issue_time evaluated_at
        (value_error "execution lease cannot predate policy enforcement")
    raise_if (ltb (max_authorization_age_seconds * 1000000) (issue_time - evaluated_at))
        (value_error "authenticated authorization is too old for execution lease issuance")
    stop ←
        running_state gate.stops outcome.request.institution_id issued_at issue_time
          "emergency stop is active; execution lease issuance denied"
    digests ← validate_approval_chain outcome authorization requirement resolution issued_at
    let lease =
        lease_record outcome authorization lease_id executor_id issued_at expires_at stop digests
    ExecutionLease.post_init lease
    ok lease

  -- `_validate_lease_linkage`
  unfoldable pub validate_lease_linkage :
      ExecutionLease → McpPolicyEnforcementOutcome → Result AuthenticatedAuthorizationDecision
  validate_lease_linkage lease outcome = do
    authorization ← validate_outcome outcome
    raise_if (lease.institution_id != outcome.request.institution_id)
        (value_error "execution lease institution mismatch")
    raise_if (lease.request_digest != AgentActionEnvelope.artifact_digest outcome.request)
        (value_error "execution lease request mismatch")
    raise_if
        (lease.authenticated_authorization_digest
          != AuthenticatedAuthorizationDecision.artifact_digest authorization)
        (value_error "execution lease authorization mismatch")
    raise_if
        (lease.policy_decision_digest
          != AuthorizationDecision.decision_digest authorization.authorization)
        (value_error "execution lease policy-decision mismatch")
    raise_if
        (lease.mcp_policy_enforcement_result_digest
          != McpPolicyEnforcementResult.artifact_digest outcome.result)
        (value_error "execution lease MCP result mismatch")
    raise_if (lease.mcp_registry_snapshot_digest != outcome.result.mcp_registry_snapshot_digest)
        (value_error "execution lease MCP registry snapshot mismatch")
    raise_if
        (not (
          same_flag outcome.result.human_approval_required
            (is_some lease.approval_resolution_digest)))
        (value_error "execution lease approval linkage is inconsistent with the policy result")
    ok authorization

  unfoldable pub consumption_record :
      ExecutionLease → String → EmergencyStopState → String → ExecutionLeaseConsumption
  consumption_record lease registry stop consumed_at = record {
    institution_id = lease.institution_id;
    executor_id = lease.executor_id;
    lease_digest = ExecutionLease.artifact_digest lease;
    request_digest = lease.request_digest;
    mcp_registry_snapshot_digest = registry;
    emergency_stop_state_digest = EmergencyStopState.artifact_digest stop;
    consumed_at = consumed_at;
    schema_version = "regagentops.execution-lease-consumption.v1";
  }

  -- `redeem_lease` up to the call of the ledger
  unfoldable pub prepare_redemption :
      ExecutionGate
      → ExecutionLease
      → McpPolicyEnforcementOutcome
      → String
      → String
      → Result ExecutionLeaseConsumption
  prepare_redemption gate lease outcome executor_id consumed_at = do
    _ ← validate_lease_linkage lease outcome
    require_text "executor_id" executor_id default_limit
    raise_if (executor_id != lease.executor_id)
        (value_error "execution lease is bound to a different executor")
    assert_current_governance gate.mcp outcome
    consumed ← utc_timestamp "consumed_at" consumed_at
    issued ← utc_timestamp "issued_at" lease.issued_at
    raise_if_less consumed_at lease.issued_at consumed issued
        (value_error "execution lease is expired or not yet valid")
    expires ← utc_timestamp "expires_at" lease.expires_at
    raise_unless_less consumed_at lease.expires_at consumed expires
        (value_error "execution lease is expired or not yet valid")
    stop ←
        running_state gate.stops lease.institution_id consumed_at consumed
          "emergency stop is active; execution lease redemption denied"
    raise_if (EmergencyStopState.artifact_digest stop != lease.emergency_stop_state_digest)
        (value_error "emergency-stop state changed after execution lease issuance")
    raise_if (snapshot_digest gate.mcp lease.institution_id != lease.mcp_registry_snapshot_digest)
        (value_error "MCP governance state changed after execution lease issuance")
    let consumption =
        consumption_record lease (snapshot_digest gate.mcp lease.institution_id) stop consumed_at
    ExecutionLeaseConsumption.post_init consumption
    ok consumption

  unfoldable pub redeem_lease :
      ExecutionGate
      → ExecutionLease
      → McpPolicyEnforcementOutcome
      → String
      → String
      → ExecutionLeaseLedger
      → Result ExecutionLeaseConsumption × ExecutionLeaseLedger
  redeem_lease gate lease outcome executor_id consumed_at rows =
      elim (prepare_redemption gate lease outcome executor_id consumed_at) [
        | err e ↦ (err e, rows)
        | ok consumption ↦
            let (recorded, rows') = consume_lease rows consumption in
            elim recorded [ err e ↦ (err e, rows') | ok _ ↦ (ok consumption, rows') ]
      ]
