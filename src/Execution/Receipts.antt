-- ===== src/Execution/Receipts.antt =====
-- execution.py: `ExecutionGate.build_receipt`, and the signing and verification of receipts.
pub mod Verified
use reg_agent_ops.Execution.ExecutionLease
use reg_agent_ops.Execution.ExecutionLeaseConsumption
use reg_agent_ops.Execution.SignedToolExecutionReceipt
use reg_agent_ops.Execution.ToolExecutionReceipt
use reg_agent_ops.Mcp.McpPolicyEnforcementResult
use reg_agent_ops.Models.AgentActionEnvelope
use reg_agent_ops.Models.AuthenticatedAuthorizationDecision
use reg_agent_ops.Models.AuthorizationDecision
use reg_agent_ops.Approval.Checks.{decode}
use reg_agent_ops.Approval.Signature.{encode_bytes}
use reg_agent_ops.Base.{
  List, Result, String, [], eqb, err, length, nat_eq, not, ok, raise_if, receipt_signature_error,
  select, string_eq, texts_eq, value_error, ℕ, ◌!=◌, ◌&&◌, ◌==◌, ◌>>=◌, ◌>>◌, ◌||◌, ◌∷◌,
}
use reg_agent_ops.Execution.ExecutionKeyStatus.{ExecutionKeyStatus, execution_key_status_eq}
use reg_agent_ops.Execution.ExecutionLease.{ExecutionLease}
use reg_agent_ops.Execution.ExecutionLeaseConsumption.{ExecutionLeaseConsumption}
use reg_agent_ops.Execution.ExecutionOutcome.{ExecutionOutcome, execution_outcome_eq}
use reg_agent_ops.Execution.ExecutionTrustBundle.{ExecutionTrustBundle}
use reg_agent_ops.Execution.ExecutionTrustKey.{ExecutionTrustKey}
use reg_agent_ops.Execution.Gate.{validate_lease_linkage}
use reg_agent_ops.Execution.Ledger.{ExecutionLeaseLedger, assert_recorded}
use reg_agent_ops.Execution.SignedToolExecutionReceipt.{SignedToolExecutionReceipt}
use reg_agent_ops.Execution.ToolExecutionReceipt.{ToolExecutionReceipt}
use reg_agent_ops.Mcp.McpPolicyEnforcementOutcome.{McpPolicyEnforcementOutcome}
use reg_agent_ops.Mcp.McpPolicyEnforcementResult.{McpPolicyEnforcementResult}
use reg_agent_ops.Models.AgentActionEnvelope.{AgentActionEnvelope}
use reg_agent_ops.Models.AuthenticatedAuthorizationDecision.{AuthenticatedAuthorizationDecision}
use reg_agent_ops.Models.AuthorizationDecision.{AuthorizationDecision}
use reg_agent_ops.Models.Checks.{
  default_limit, raise_if_less, raise_unless_less, require_text, utc_timestamp,
}
use reg_agent_ops.Models.DataClassification.{data_classification_eq}
use reg_agent_ops.Models.Decision.{decision_eq}
use reg_agent_ops.Models.Environment.{environment_eq}
use reg_agent_ops.Models.RiskTier.{risk_tier_eq}
use reg_agent_ops.Models.Value.{Platform, Value, canonical_json, dict, digest_artifact, text}

-- What the caller says of the execution.
pub record Report : Type 0 where
  pub receipt_id : String
  pub executor_id : String
  pub result_digest : String
  pub execution_outcome : ExecutionOutcome
  pub started_at : String
  pub completed_at : String

-- The protocol `ExecutionReceiptSigner`.
pub record ExecutionReceiptSigner : Type 0 where
  pub institution_id : String
  pub executor_id : String
  pub key_id : String
  pub algorithm : String
  pub sign : String → List ℕ

module _ ⦃p : Platform⦄ where
  -- the checks that tie the consumption to the lease
  unfoldable pub consumption_linked :
      AgentActionEnvelope → ExecutionLease → ExecutionLeaseConsumption → Result (Unit {0})
  consumption_linked request lease consumption = do
    raise_if
        (consumption.institution_id != lease.institution_id
          || consumption.executor_id != lease.executor_id)
        (value_error "execution lease consumption institution/executor mismatch")
    raise_if
        (consumption.lease_digest != ExecutionLease.artifact_digest lease
          || consumption.request_digest != AgentActionEnvelope.artifact_digest request)
        (value_error "execution lease consumption is bound to a different lease or request")
    raise_if (consumption.mcp_registry_snapshot_digest != lease.mcp_registry_snapshot_digest)
        (value_error "execution lease consumption MCP snapshot mismatch")
    raise_if (consumption.emergency_stop_state_digest != lease.emergency_stop_state_digest)
        (value_error "execution lease consumption emergency-stop mismatch")

  -- the checks on the times of the execution
  unfoldable pub times_linked :
      ExecutionLease → ExecutionLeaseConsumption → Report → Result (Unit {0})
  times_linked lease consumption report = do
    consumed ← utc_timestamp "consumed_at" consumption.consumed_at
    started ← utc_timestamp "started_at" report.started_at
    completed ← utc_timestamp "completed_at" report.completed_at
    raise_if_less report.started_at consumption.consumed_at started consumed
        (value_error "execution cannot start before one-time lease consumption")
    expires ← utc_timestamp "lease expires_at" lease.expires_at
    raise_unless_less report.started_at lease.expires_at started expires
        (value_error "execution cannot start after the execution lease expires")
    raise_if_less report.completed_at report.started_at completed started
        (value_error "execution completion cannot predate execution start")

  unfoldable pub receipt_record :
      AgentActionEnvelope
      → McpPolicyEnforcementOutcome
      → AuthenticatedAuthorizationDecision
      → ExecutionLease
      → ExecutionLeaseConsumption
      → Report
      → ToolExecutionReceipt
  receipt_record request outcome authorization lease consumption report = record {
    receipt_id = report.receipt_id;
    institution_id = request.institution_id;
    executor_id = lease.executor_id;
    request_digest = AgentActionEnvelope.artifact_digest request;
    tool_id = request.tool_id;
    action = request.action;
    resource = request.resource;
    input_digest = request.input_digest;
    execution_lease_digest = ExecutionLease.artifact_digest lease;
    lease_consumption_digest = ExecutionLeaseConsumption.artifact_digest consumption;
    mcp_policy_enforcement_result_digest =
        McpPolicyEnforcementResult.artifact_digest outcome.result;
    authenticated_authorization_digest =
        AuthenticatedAuthorizationDecision.artifact_digest authorization;
    policy_decision = AuthenticatedAuthorizationDecision.decision authorization;
    policy_decision_digest = AuthorizationDecision.decision_digest authorization.authorization;
    approval_requirement_digest = lease.approval_requirement_digest;
    approval_resolution_digest = lease.approval_resolution_digest;
    emergency_stop_state_digest = lease.emergency_stop_state_digest;
    result_digest = report.result_digest;
    execution_outcome = report.execution_outcome;
    started_at = report.started_at;
    completed_at = report.completed_at;
    schema_version = "regagentops.tool-execution-receipt.v1";
  }

  unfoldable pub build_receipt :
      AgentActionEnvelope
      → McpPolicyEnforcementOutcome
      → ExecutionLease
      → ExecutionLeaseConsumption
      → Report
      → ExecutionLeaseLedger
      → Result ToolExecutionReceipt
  build_receipt request outcome lease consumption report rows = do
    raise_if
        (AgentActionEnvelope.artifact_digest request
          != AgentActionEnvelope.artifact_digest outcome.request)
        (value_error "execution receipt requires the exact authorized request")
    authorization ← validate_lease_linkage lease outcome
    require_text "executor_id" report.executor_id default_limit
    raise_if (report.executor_id != lease.executor_id)
        (value_error "execution receipt executor does not match the execution lease")
    consumption_linked request lease consumption
    assert_recorded rows consumption
    times_linked lease consumption report
    let receipt = receipt_record request outcome authorization lease consumption report
    ToolExecutionReceipt.post_init receipt
    ok receipt

  unfoldable pub execution_receipt_signing_document : ToolExecutionReceipt → String → String → Value
  execution_receipt_signing_document receipt key_id algorithm = dict (
      ("purpose", text "regagentops.tool-execution-receipt.v1")
      ∷ ("institution_id", text receipt.institution_id)
      ∷ ("receipt_id", text receipt.receipt_id)
      ∷ ("executor_id", text receipt.executor_id)
      ∷ ("request_digest", text receipt.request_digest)
      ∷ ("execution_lease_digest", text receipt.execution_lease_digest)
      ∷ ("lease_consumption_digest", text receipt.lease_consumption_digest)
      ∷ ("mcp_policy_enforcement_result_digest", text receipt.mcp_policy_enforcement_result_digest)
      ∷ ("authenticated_authorization_digest", text receipt.authenticated_authorization_digest)
      ∷ ("policy_decision_digest", text receipt.policy_decision_digest)
      ∷ ("result_digest", text receipt.result_digest)
      ∷ ("receipt_digest", text (ToolExecutionReceipt.artifact_digest receipt))
      ∷ ("key_id", text key_id)
      ∷ ("algorithm", text algorithm)
      ∷ [])

  unfoldable pub sign_tool_execution_receipt :
      ToolExecutionReceipt → ExecutionReceiptSigner → Result SignedToolExecutionReceipt
  sign_tool_execution_receipt receipt signer = do
    raise_if (signer.institution_id != receipt.institution_id)
        (receipt_signature_error "execution receipt signer institution mismatch")
    raise_if (signer.executor_id != receipt.executor_id)
        (receipt_signature_error "execution receipt signer executor mismatch")
    raise_if (signer.algorithm != "Ed25519")
        (receipt_signature_error "v0.5 execution receipt signer must use Ed25519")
    let document = execution_receipt_signing_document receipt signer.key_id signer.algorithm
    let signature = signer.sign (canonical_json document)
    raise_if (not (eqb (length signature) 64))
        (receipt_signature_error "execution receipt signer must return a 64-byte Ed25519 signature")
    let signed : SignedToolExecutionReceipt = record {
      receipt = receipt;
      key_id = signer.key_id;
      algorithm = signer.algorithm;
      signature_base64url = encode_bytes signature;
      signing_document_digest = digest_artifact document;
      schema_version = "regagentops.signed-tool-execution-receipt.v1";
    }
    SignedToolExecutionReceipt.post_init signed
    ok signed

  -- `try: ... except (ValueError, InvalidSignature): raise ExecutionReceiptSignatureError(...)`
  unfoldable pub check_receipt_signature :
      ExecutionTrustKey → SignedToolExecutionReceipt → Value → Result (Unit {0})
  check_receipt_signature key signed document =
      elim (do
        public_key ← decode key.public_key_base64url
        signature ← decode signed.signature_base64url
        raise_if (not (p.ed25519_verify public_key signature (canonical_json document)))
            (value_error "InvalidSignature")) [
              | ok _ ↦ ok tt
              | err _ ↦ err (receipt_signature_error "execution receipt signature is invalid")
            ]

  -- `verify_signed_tool_execution_receipt`, once the key has been found
  unfoldable pub verify_receipt_with_key :
      ExecutionTrustKey → SignedToolExecutionReceipt → String → Result ToolExecutionReceipt
  verify_receipt_with_key key signed now = do
    raise_if (key.status != ExecutionKeyStatus.active)
        (receipt_signature_error "execution trust key is not active")
    raise_if (key.algorithm != signed.algorithm || signed.algorithm != "Ed25519")
        (receipt_signature_error "execution receipt signature algorithm mismatch")
    now_dt ← utc_timestamp "verification time" now
    completed ← utc_timestamp "completed_at" signed.receipt.completed_at
    key_start ← utc_timestamp "key not_before" key.not_before
    key_end ← utc_timestamp "key not_after" key.not_after
    raise_if_less now signed.receipt.completed_at now_dt completed
        (receipt_signature_error "execution receipt completion is in the future")
    raise_if_less signed.receipt.completed_at key.not_before completed key_start
        (receipt_signature_error "execution trust key was not valid when the receipt completed")
    raise_unless_less signed.receipt.completed_at key.not_after completed key_end
        (receipt_signature_error "execution trust key was not valid when the receipt completed")
    let document = execution_receipt_signing_document signed.receipt signed.key_id signed.algorithm
    raise_if (signed.signing_document_digest != digest_artifact document)
        (receipt_signature_error "execution receipt signing document digest mismatch")
    check_receipt_signature key signed document
    ok signed.receipt

  unfoldable pub verify_signed_tool_execution_receipt :
      SignedToolExecutionReceipt → ExecutionTrustBundle → String → Result ToolExecutionReceipt
  verify_signed_tool_execution_receipt signed trust_bundle now = do
    raise_if (trust_bundle.institution_id != signed.receipt.institution_id)
        (receipt_signature_error "execution trust bundle institution mismatch")
    elim (select
        (λ key. key.executor_id == signed.receipt.executor_id && key.key_id == signed.key_id)
        trust_bundle.keys) [
          | key ∷ [] ↦ verify_receipt_with_key key signed now
          | _ ↦ err (receipt_signature_error "execution key must resolve uniquely for the executor")
        ]
