-- ===== src/Examples/Executions.antt =====
-- The execution of the approved payment: emergency stop, lease, redemption and receipt.
use reg_agent_ops.Approval.ApprovalEscalationPolicy
use reg_agent_ops.Approval.ApprovalRequirement
use reg_agent_ops.Approval.ApprovalResolution
use reg_agent_ops.Approval.ApprovalStatement
use reg_agent_ops.Approval.SignedApprovalPackage
use reg_agent_ops.Approval.SignedApprovalStatement
use reg_agent_ops.Execution.EmergencyStopState
use reg_agent_ops.Execution.ExecutionLease
use reg_agent_ops.Execution.ExecutionLeaseConsumption
use reg_agent_ops.Execution.Gate.Receipted
use reg_agent_ops.Execution.ToolExecutionReceipt
use reg_agent_ops.Mcp.McpPolicyEnforcementOutcome
use reg_agent_ops.Mcp.McpPolicyEnforcementResult
use reg_agent_ops.Models.AgentActionEnvelope
use reg_agent_ops.Models.AuthenticatedAuthorizationDecision
use reg_agent_ops.Models.AuthorizationDecision
use reg_agent_ops.Policy.PolicyBundle
use reg_agent_ops.Policy.PolicyRule
use reg_agent_ops.Approval.ApprovalEscalationPolicy.{ApprovalEscalationPolicy}
use reg_agent_ops.Approval.ApprovalRequirement.{ApprovalRequirement}
use reg_agent_ops.Approval.ApprovalResolution.{ApprovalResolution}
use reg_agent_ops.Approval.ApprovalStatement.{ApprovalStatement}
use reg_agent_ops.Approval.Checks.{decode}
use reg_agent_ops.Approval.Gate.{
  format_time, minimum_approvals, requirement_identifier, requirement_record, resolution_record,
  separation,
}
use reg_agent_ops.Approval.SignedApprovalPackage.{SignedApprovalPackage}
use reg_agent_ops.Approval.SignedApprovalStatement.{SignedApprovalStatement}
use reg_agent_ops.Base.{
  Bool, Error, [], arith, codes, contains_code, drop_last, ends_with_z, err, false, inl, is_blank,
  is_hex, is_hex_64, is_space, len, nat_eq, none, ok, refl, replace_skip, select, some, string_eq,
  take_text, texts_eq, true, unique, utc_suffix, ℕ, ◌&&◌, ◌==◌, ◌∷◌, ◌≡◌, ◌≢◌, ◌⊎◌,
}
use reg_agent_ops.Base.Sort.{text_le}
use reg_agent_ops.Examples.Approvals.{continuing, requirement}
use reg_agent_ops.Examples.Clock.{
  clock, even_digest, example_platform, first_of_fields, first_text, odd_digest, parity_digest,
}
use reg_agent_ops.Examples.Governance.{
  binding-current, binding_for_tool, descriptor_digest, governed, governed_digest,
}
use reg_agent_ops.Examples.Requests.{authorization, request}
use reg_agent_ops.Execution.ApprovalChain.{
  approval_chain, approval_resolved, approval_scope, validate_approval_chain,
}
use reg_agent_ops.Execution.EmergencyStopState.{EmergencyStopState}
use reg_agent_ops.Execution.EmergencyStops.{
  EmergencyStopRegistry, current, history, not_before, register, version,
}
use reg_agent_ops.Execution.EmergencyStops.Contiguity.{
  Extends, IsContiguous, current-register, register-Extends, register-IsContiguous,
}
use reg_agent_ops.Execution.ExecutionKeyStatus.{ExecutionKeyStatus, execution_key_status_eq}
use reg_agent_ops.Execution.ExecutionLease.{ExecutionLease}
use reg_agent_ops.Execution.ExecutionLeaseConsumption.{ExecutionLeaseConsumption}
use reg_agent_ops.Execution.ExecutionOutcome.{ExecutionOutcome, execution_outcome_eq}
use reg_agent_ops.Execution.ExecutionTrustBundle.{ExecutionTrustBundle}
use reg_agent_ops.Execution.ExecutionTrustKey.{ExecutionTrustKey}
use reg_agent_ops.Execution.Gate.{
  ExecutionGate, consumption_record, issue_lease, lease_record, prepare_redemption, redeem_lease,
  running_state, validate_lease_linkage,
}
use reg_agent_ops.Execution.Gate.Issue.{IsIssued, issue_lease-IsIssued}
use reg_agent_ops.Execution.Gate.Receipted.{
  IsReceipted, build_receipt-recorded, leases_of, redeem, redeem-once,
}
use reg_agent_ops.Execution.Gate.Redemption.{
  IsRedeemable, redeem_lease-IsRedeemable, redeem_lease-stopped,
}
use reg_agent_ops.Execution.Ledger.{assert_recorded, conflicts, consume_lease, row_of}
use reg_agent_ops.Execution.Outcome.{assert_current_governance, validate_outcome}
use reg_agent_ops.Execution.Receipts.{
  Report, build_receipt, check_receipt_signature, consumption_linked,
  execution_receipt_signing_document, receipt_record, times_linked, verify_receipt_with_key,
  verify_signed_tool_execution_receipt,
}
use reg_agent_ops.Execution.Receipts.Verified.{
  IsVerifiedReceipt, verify_signed_tool_execution_receipt-IsVerifiedReceipt,
}
use reg_agent_ops.Execution.SignedToolExecutionReceipt.{SignedToolExecutionReceipt}
use reg_agent_ops.Execution.ToolExecutionReceipt.{ToolExecutionReceipt}
use reg_agent_ops.Mcp.McpPolicyEnforcementOutcome.{McpPolicyEnforcementOutcome}
use reg_agent_ops.Mcp.McpPolicyEnforcementResult.{McpPolicyEnforcementResult}
use reg_agent_ops.Models.AgentActionEnvelope.{AgentActionEnvelope}
use reg_agent_ops.Models.AuthenticatedAuthorizationDecision.{
  AuthenticatedAuthorizationDecision, decision,
}
use reg_agent_ops.Models.AuthorizationDecision.{AuthorizationDecision}
use reg_agent_ops.Models.Checks.{
  is_aware, less, raise_if_less, raise_unless_less, require_digest, require_digests,
  require_optional_digest, require_positive, require_text, require_texts, require_utc_timestamp,
  utc_timestamp,
}
use reg_agent_ops.Models.DataClassification.{data_classification_eq}
use reg_agent_ops.Models.Decision.{Decision, decision_eq}
use reg_agent_ops.Models.Environment.{environment_eq}
use reg_agent_ops.Models.RiskTier.{RiskTier, risk_tier_eq}
use reg_agent_ops.Models.Value.{
  canonical, canonical_fields, canonical_items, canonical_json, digest_artifact, insert_field,
}
use reg_agent_ops.Policy.Engine.{decision_record}
use reg_agent_ops.Policy.PolicyBundle.{PolicyBundle}
use reg_agent_ops.Policy.PolicyRule.{PolicyRule}

abbrev stop : ℕ → Bool → EmergencyStopState
stop version halted = record {
  institution_id = "bank";
  state_version = version;
  halted = halted;
  reason_digest = none;
  effective_at = "2026-01-01T00:00:00Z";
  schema_version = "regagentops.emergency-stop-state.v1";
}

abbrev running : EmergencyStopRegistry
running = record { states = stop 1 false ∷ [] }

running-IsContiguous : IsContiguous running
running-IsContiguous = record { in_order = λ institution_id. ground arith }

register-IsContiguous_example : IsContiguous (register running (stop 2 true)).1
register-IsContiguous_example = register-IsContiguous running (stop 2 true) running-IsContiguous

register-Extends_example :
    ((register running (stop 2 true)).1 ≡ running)
    ⊎ Extends running (register running (stop 2 true)).1 (stop 2 true)
register-Extends_example = register-Extends running (stop 2 true) running-IsContiguous

halting : (register running (stop 2 true)).0 ≡ ok even_digest
unfolding codes is_space is_blank len ends_with_z drop_last is_hex is_hex_64 clock first_text
    first_of_fields parity_digest canonical canonical_items canonical_fields insert_field text_le
    canonical_json digest_artifact register history not_before utc_timestamp require_text
    EmergencyStopState.encode EmergencyStopState.artifact_digest raise_if_less raise_unless_less
    less is_aware
halting = refl

current-register_example : current (register running (stop 2 true)).1 "bank" ≡ ok (stop 2 true)
current-register_example = current-register running (stop 2 true) running-IsContiguous refl halting

abbrev gate : ExecutionGate
gate = record { mcp = governed; stops = running }

abbrev outcome : McpPolicyEnforcementOutcome
outcome = record {
  request = request;
  result = record {
    institution_id = "bank";
    request_digest = AgentActionEnvelope.artifact_digest request;
    mcp_registry_snapshot_digest = even_digest;
    server_registration_digest = some even_digest;
    tool_snapshot_digest = some even_digest;
    tool_descriptor_digest = some even_digest;
    authenticated_authorization_digest =
        some (AuthenticatedAuthorizationDecision.artifact_digest authorization);
    identity_verified = true;
    risk_tier = RiskTier.high;
    decision = Decision.require_human_approval;
    constraints = [];
    reason_codes = "human_approval_required_by_policy" ∷ [];
    human_approval_required = true;
    execution_permitted = false;
    execution_performed = false;
    evaluated_at = "2026-01-01T00:01:00Z";
    schema_version = "regagentops.mcp-policy-enforcement-result.v1";
  };
  authorization = some authorization;
}

outcome-valid : McpPolicyEnforcementOutcome.post_init outcome ≡ ok tt
unfolding McpPolicyEnforcementOutcome.post_init McpPolicyEnforcementOutcome.approval_gate_required
    McpPolicyEnforcementOutcome.authorization_consistent codes is_space is_blank len ends_with_z
    drop_last is_hex is_hex_64 clock first_text first_of_fields parity_digest canonical
    canonical_items canonical_fields insert_field text_le canonical_json digest_artifact
    AgentActionEnvelope.encode AgentActionEnvelope.artifact_digest PolicyRule.encode
    PolicyBundle.encode PolicyBundle.artifact_digest AuthorizationDecision.encode
    AuthorizationDecision.decision_digest AuthenticatedAuthorizationDecision.encode
    AuthenticatedAuthorizationDecision.artifact_digest decision_record raise_if_less
    raise_unless_less less is_aware
outcome-valid = refl

outcome-governed : assert_current_governance governed outcome ≡ ok tt
unfolding assert_current_governance
outcome-governed =
    rw (governed_digest, assert_current_governance)
      (rw (binding_for_tool, assert_current_governance)
        (rw (binding-current, assert_current_governance)
          (rw (descriptor_digest, assert_current_governance) refl)))

abbrev lease : ExecutionLease
lease =
    lease_record outcome authorization "lease" "executor" "2026-01-01T00:02:00Z"
      "2026-01-01T00:03:00Z" (stop 1 false)
      (
        some (ApprovalRequirement.artifact_digest requirement),
        some (ApprovalResolution.artifact_digest continuing),
      )

lease-issued :
    issue_lease gate outcome "lease" "executor" "2026-01-01T00:02:00Z" "2026-01-01T00:03:00Z"
      (some requirement)
      (some continuing)
    ≡ ok lease
unfolding issue_lease validate_approval_chain approval_chain approval_scope approval_resolved
    ExecutionLease.post_init validate_outcome running_state current history lease_record
    EmergencyStopState.encode EmergencyStopState.artifact_digest McpPolicyEnforcementResult.encode
    McpPolicyEnforcementResult.artifact_digest require_text require_texts utc_timestamp
    require_utc_timestamp require_digest require_digests require_optional_digest require_positive
    codes is_space is_blank len ends_with_z drop_last is_hex is_hex_64 clock first_text
    first_of_fields parity_digest canonical canonical_items canonical_fields insert_field text_le
    canonical_json digest_artifact AgentActionEnvelope.encode AgentActionEnvelope.artifact_digest
    PolicyRule.encode PolicyBundle.encode PolicyBundle.artifact_digest AuthorizationDecision.encode
    AuthorizationDecision.decision_digest AuthenticatedAuthorizationDecision.encode
    AuthenticatedAuthorizationDecision.artifact_digest decision_record requirement_record
    requirement_identifier take_text format_time utc_suffix replace_skip minimum_approvals
    separation ApprovalEscalationPolicy.encode ApprovalEscalationPolicy.artifact_digest
    ApprovalRequirement.encode ApprovalRequirement.artifact_digest resolution_record
    ApprovalResolution.encode ApprovalResolution.artifact_digest SignedApprovalPackage.encode
    SignedApprovalPackage.artifact_digest SignedApprovalStatement.encode ApprovalStatement.encode
    raise_if_less raise_unless_less less is_aware
lease-issued = rw (outcome-governed, issue_lease) refl

issue_lease-IsIssued_example : IsIssued gate outcome (some requirement) (some continuing) lease
unfolding lease_record
issue_lease-IsIssued_example =
    issue_lease-IsIssued gate outcome "lease" "executor" "2026-01-01T00:02:00Z"
      "2026-01-01T00:03:00Z" (some requirement) (some continuing) lease-issued

abbrev consumption : ExecutionLeaseConsumption
consumption = consumption_record lease even_digest (stop 1 false) "2026-01-01T00:02:00Z"

lease-redeemed :
    (redeem_lease gate lease outcome "executor" "2026-01-01T00:02:00Z" []).0 ≡ ok consumption
unfolding redeem_lease prepare_redemption validate_lease_linkage consumption_record
    ExecutionLeaseConsumption.post_init ExecutionLeaseConsumption.encode
    ExecutionLeaseConsumption.artifact_digest ExecutionLease.encode ExecutionLease.artifact_digest
    consume_lease conflicts row_of validate_outcome running_state current history lease_record
    EmergencyStopState.encode EmergencyStopState.artifact_digest McpPolicyEnforcementResult.encode
    McpPolicyEnforcementResult.artifact_digest require_text require_texts utc_timestamp
    require_utc_timestamp require_digest require_digests require_optional_digest require_positive
    codes is_space is_blank len ends_with_z drop_last is_hex is_hex_64 clock first_text
    first_of_fields parity_digest canonical canonical_items canonical_fields insert_field text_le
    canonical_json digest_artifact AgentActionEnvelope.encode AgentActionEnvelope.artifact_digest
    PolicyRule.encode PolicyBundle.encode PolicyBundle.artifact_digest AuthorizationDecision.encode
    AuthorizationDecision.decision_digest AuthenticatedAuthorizationDecision.encode
    AuthenticatedAuthorizationDecision.artifact_digest decision_record requirement_record
    requirement_identifier take_text format_time utc_suffix replace_skip minimum_approvals
    separation ApprovalEscalationPolicy.encode ApprovalEscalationPolicy.artifact_digest
    ApprovalRequirement.encode ApprovalRequirement.artifact_digest resolution_record
    ApprovalResolution.encode ApprovalResolution.artifact_digest SignedApprovalPackage.encode
    SignedApprovalPackage.artifact_digest SignedApprovalStatement.encode ApprovalStatement.encode
    raise_if_less raise_unless_less less is_aware
lease-redeemed = rw (outcome-governed, redeem_lease) (rw (governed_digest, redeem_lease) refl)

redeem_lease-IsRedeemable_example :
    IsRedeemable gate lease "executor" "2026-01-01T00:02:00Z" consumption
    × (conflicts (row_of consumption) [] ≡ false)
    × ((redeem_lease gate lease outcome "executor" "2026-01-01T00:02:00Z" []).1
        ≡ row_of consumption ∷ [])
redeem_lease-IsRedeemable_example =
    redeem_lease-IsRedeemable gate lease outcome "executor" "2026-01-01T00:02:00Z" [] lease-redeemed

-- the same gate once the institution has halted
abbrev halted_gate : ExecutionGate
halted_gate = record { mcp = gate.mcp; stops = record { states = stop 1 false ∷ stop 2 true ∷ [] } }

halted_gate-current : current halted_gate.stops lease.institution_id ≡ ok (stop 2 true)
unfolding current history lease_record
halted_gate-current = refl

redeem_lease-stopped_example :
    (e : Error) × (redeem_lease halted_gate lease outcome "executor" "2026-01-01T00:02:00Z" []
      ≡ (err e, []))
redeem_lease-stopped_example =
    redeem_lease-stopped halted_gate lease outcome "executor" "2026-01-01T00:02:00Z" []
      (stop 2 true) halted_gate-current (inl refl)

abbrev redemption : Receipted.Attempt
redemption = record {
  gate = gate;
  lease = lease;
  outcome = outcome;
  executor_id = "executor";
  consumed_at = "2026-01-01T00:02:00Z";
}

redeem-once_example :
    (unique (leases_of (Receipted.run (redemption ∷ []) (redeem redemption []).1)) ≡ true)
    × (assert_recorded (Receipted.run (redemption ∷ []) (redeem redemption []).1) consumption
        ≡ ok tt)
    × ((b : Receipted.Attempt) (d : ExecutionLeaseConsumption)
        → d.lease_digest ≡ consumption.lease_digest
        → (redeem b (Receipted.run (redemption ∷ []) (redeem redemption []).1)).0 ≢ ok d)
redeem-once_example = redeem-once redemption (redemption ∷ []) [] refl lease-redeemed

abbrev report : Report
report = record {
  receipt_id = "receipt";
  executor_id = "executor";
  result_digest = even_digest;
  execution_outcome = ExecutionOutcome.succeeded;
  started_at = "2026-01-01T00:02:00Z";
  completed_at = "2026-01-01T00:09:00Z";
}

abbrev receipt : ToolExecutionReceipt
receipt = receipt_record request outcome authorization lease consumption report

receipt-built :
    build_receipt request outcome lease consumption report (row_of consumption ∷ []) ≡ ok receipt
unfolding build_receipt consumption_linked times_linked assert_recorded receipt_record
    ToolExecutionReceipt.post_init redeem_lease prepare_redemption validate_lease_linkage
    consumption_record ExecutionLeaseConsumption.post_init ExecutionLeaseConsumption.encode
    ExecutionLeaseConsumption.artifact_digest ExecutionLease.encode ExecutionLease.artifact_digest
    consume_lease conflicts row_of validate_outcome assert_current_governance running_state current
    history lease_record EmergencyStopState.encode EmergencyStopState.artifact_digest
    McpPolicyEnforcementResult.encode McpPolicyEnforcementResult.artifact_digest require_text
    require_texts utc_timestamp require_utc_timestamp require_digest require_digests
    require_optional_digest require_positive codes is_space is_blank len ends_with_z drop_last
    is_hex is_hex_64 clock first_text first_of_fields parity_digest canonical canonical_items
    canonical_fields insert_field text_le canonical_json digest_artifact AgentActionEnvelope.encode
    AgentActionEnvelope.artifact_digest PolicyRule.encode PolicyBundle.encode
    PolicyBundle.artifact_digest AuthorizationDecision.encode AuthorizationDecision.decision_digest
    AuthenticatedAuthorizationDecision.encode AuthenticatedAuthorizationDecision.artifact_digest
    decision_record requirement_record requirement_identifier take_text format_time utc_suffix
    replace_skip minimum_approvals separation ApprovalEscalationPolicy.encode
    ApprovalEscalationPolicy.artifact_digest ApprovalRequirement.encode
    ApprovalRequirement.artifact_digest resolution_record ApprovalResolution.encode
    ApprovalResolution.artifact_digest SignedApprovalPackage.encode
    SignedApprovalPackage.artifact_digest SignedApprovalStatement.encode ApprovalStatement.encode
    raise_if_less raise_unless_less less is_aware
receipt-built = refl

build_receipt-recorded_example :
    IsReceipted lease consumption report (row_of consumption ∷ []) receipt
unfolding receipt_record
build_receipt-recorded_example =
    build_receipt-recorded request outcome lease consumption report (row_of consumption ∷ [])
      receipt-built

abbrev executor_trust : ExecutionTrustBundle
executor_trust = record {
  institution_id = "bank";
  keys =
      record {
        institution_id = "bank";
        executor_id = "executor";
        key_id = "key";
        public_key_base64url = "key";
        not_before = "2026-01-01T00:00:00Z";
        not_after = "2026-01-01T00:09:00Z";
        status = ExecutionKeyStatus.active;
        algorithm = "Ed25519";
      }
      ∷ [];
  schema_version = "regagentops.execution-trust-bundle.v1";
}

abbrev signed_receipt : SignedToolExecutionReceipt
signed_receipt = record {
  receipt = record receipt { completed_at = "2026-01-01T00:03:00Z" };
  key_id = "key";
  algorithm = "Ed25519";
  signature_base64url = "signature";
  signing_document_digest = odd_digest;
  schema_version = "regagentops.signed-tool-execution-receipt.v1";
}

receipt-verified :
    verify_signed_tool_execution_receipt signed_receipt executor_trust "2026-01-01T00:09:00Z"
    ≡ ok signed_receipt.receipt
unfolding verify_signed_tool_execution_receipt verify_receipt_with_key check_receipt_signature
    execution_receipt_signing_document decode contains_code ToolExecutionReceipt.encode
    ToolExecutionReceipt.artifact_digest receipt_record redeem_lease prepare_redemption
    validate_lease_linkage consumption_record ExecutionLeaseConsumption.post_init
    ExecutionLeaseConsumption.encode ExecutionLeaseConsumption.artifact_digest ExecutionLease.encode
    ExecutionLease.artifact_digest consume_lease conflicts row_of validate_outcome
    assert_current_governance running_state current history lease_record EmergencyStopState.encode
    EmergencyStopState.artifact_digest McpPolicyEnforcementResult.encode
    McpPolicyEnforcementResult.artifact_digest require_text require_texts utc_timestamp
    require_utc_timestamp require_digest require_digests require_optional_digest require_positive
    codes is_space is_blank len ends_with_z drop_last is_hex is_hex_64 clock first_text
    first_of_fields parity_digest canonical canonical_items canonical_fields insert_field text_le
    canonical_json digest_artifact AgentActionEnvelope.encode AgentActionEnvelope.artifact_digest
    PolicyRule.encode PolicyBundle.encode PolicyBundle.artifact_digest AuthorizationDecision.encode
    AuthorizationDecision.decision_digest AuthenticatedAuthorizationDecision.encode
    AuthenticatedAuthorizationDecision.artifact_digest decision_record requirement_record
    requirement_identifier take_text format_time utc_suffix replace_skip minimum_approvals
    separation ApprovalEscalationPolicy.encode ApprovalEscalationPolicy.artifact_digest
    ApprovalRequirement.encode ApprovalRequirement.artifact_digest resolution_record
    ApprovalResolution.encode ApprovalResolution.artifact_digest SignedApprovalPackage.encode
    SignedApprovalPackage.artifact_digest SignedApprovalStatement.encode ApprovalStatement.encode
    raise_if_less raise_unless_less less is_aware
receipt-verified = refl

verify_signed_tool_execution_receipt-IsVerifiedReceipt_example :
    (key : ExecutionTrustKey) × (select
        (λ k. k.executor_id == signed_receipt.receipt.executor_id && k.key_id == "key")
        executor_trust.keys
      ≡ key ∷ [])
    × IsVerifiedReceipt key signed_receipt "2026-01-01T00:09:00Z" signed_receipt.receipt
verify_signed_tool_execution_receipt-IsVerifiedReceipt_example =
    verify_signed_tool_execution_receipt-IsVerifiedReceipt signed_receipt executor_trust
      "2026-01-01T00:09:00Z" receipt-verified
