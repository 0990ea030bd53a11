-- ===== src/Execution/ToolExecutionReceipt.antt =====
-- execution.py: `ToolExecutionReceipt`, with `__post_init__` as `post_init`.
use reg_agent_ops.Execution.ExecutionOutcome
use reg_agent_ops.Models.Decision
use reg_agent_ops.Base.{
  Option, Result, String, [], is_none, nat_eq, not, raise_if, same_flag, string_eq, texts_eq,
  value_error, ◌==◌, ◌>>=◌, ◌>>◌, ◌∷◌,
}
use reg_agent_ops.Execution.ExecutionOutcome.{ExecutionOutcome, execution_outcome_eq}
use reg_agent_ops.Models.Checks.{
  default_limit, raise_if_less, require_digests, require_optional_digest, require_text,
  require_texts, utc_timestamp,
}
use reg_agent_ops.Models.DataClassification.{data_classification_eq}
use reg_agent_ops.Models.Decision.{Decision, decision_eq}
use reg_agent_ops.Models.Environment.{environment_eq}
use reg_agent_ops.Models.RiskTier.{risk_tier_eq}
use reg_agent_ops.Models.Value.{Platform, Value, dict, digest_artifact, optional, text}

pub record ToolExecutionReceipt : Type 0 where
  pub receipt_id : String
  pub institution_id : String
  pub executor_id : String
  pub request_digest : String
  pub tool_id : String
  pub action : String
  pub resource : String
  pub input_digest : String
  pub execution_lease_digest : String
  pub lease_consumption_digest : String
  pub mcp_policy_enforcement_result_digest : String
  pub authenticated_authorization_digest : String
  pub policy_decision : Decision
  pub policy_decision_digest : String
  pub approval_requirement_digest : Option String
  pub approval_resolution_digest : Option String
  pub emergency_stop_state_digest : String
  pub result_digest : String
  pub execution_outcome : ExecutionOutcome
  pub started_at : String
  pub completed_at : String
  pub schema_version : String

-- `asdict`, with the members of enumerations as their values
unfoldable pub encode : ToolExecutionReceipt → Value
encode r = dict (
    ("receipt_id", text r.receipt_id)
    ∷ ("institution_id", text r.institution_id)
    ∷ ("executor_id", text r.executor_id)
    ∷ ("request_digest", text r.request_digest)
    ∷ ("tool_id", text r.tool_id)
    ∷ ("action", text r.action)
    ∷ ("resource", text r.resource)
    ∷ ("input_digest", text r.input_digest)
    ∷ ("execution_lease_digest", text r.execution_lease_digest)
    ∷ ("lease_consumption_digest", text r.lease_consumption_digest)
    ∷ ("mcp_policy_enforcement_result_digest", text r.mcp_policy_enforcement_result_digest)
    ∷ ("authenticated_authorization_digest", text r.authenticated_authorization_digest)
    ∷ ("policy_decision", text (Decision.value r.policy_decision))
    ∷ ("policy_decision_digest", text r.policy_decision_digest)
    ∷ ("approval_requirement_digest", optional r.approval_requirement_digest)
    ∷ ("approval_resolution_digest", optional r.approval_resolution_digest)
    ∷ ("emergency_stop_state_digest", text r.emergency_stop_state_digest)
    ∷ ("result_digest", text r.result_digest)
    ∷ ("execution_outcome", text (ExecutionOutcome.value r.execution_outcome))
    ∷ ("started_at", text r.started_at)
    ∷ ("completed_at", text r.completed_at)
    ∷ ("schema_version", text r.schema_version)
    ∷ [])

module _ ⦃p : Platform⦄ where
  unfoldable pub artifact_digest : ToolExecutionReceipt → String
  artifact_digest r = digest_artifact (encode r)

  unfoldable pub post_init : ToolExecutionReceipt → Result (Unit {0})
  post_init r = do
    require_texts (
        ("receipt_id", r.receipt_id)
        ∷ ("institution_id", r.institution_id)
        ∷ ("executor_id", r.executor_id)
        ∷ ("tool_id", r.tool_id)
        ∷ ("action", r.action)
        ∷ [])
    require_text "resource" r.resource 512
    require_digests (
        ("request_digest", r.request_digest)
        ∷ ("input_digest", r.input_digest)
        ∷ ("execution_lease_digest", r.execution_lease_digest)
        ∷ ("lease_consumption_digest", r.lease_consumption_digest)
        ∷ ("mcp_policy_enforcement_result_digest", r.mcp_policy_enforcement_result_digest)
        ∷ ("authenticated_authorization_digest", r.authenticated_authorization_digest)
        ∷ ("policy_decision_digest", r.policy_decision_digest)
        ∷ ("emergency_stop_state_digest", r.emergency_stop_state_digest)
        ∷ ("result_digest", r.result_digest)
        ∷ [])
    require_optional_digest "approval_requirement_digest" r.approval_requirement_digest
    require_optional_digest "approval_resolution_digest" r.approval_resolution_digest
    raise_if
        (not (
          same_flag (is_none r.approval_requirement_digest) (is_none r.approval_resolution_digest)))
        (value_error
          "execution receipt approval requirement and resolution digests must be represented together")
    raise_if (r.policy_decision == Decision.deny)
        (value_error "execution receipt must bind a non-DENY governed policy decision")
    started ← utc_timestamp "started_at" r.started_at
    completed ← utc_timestamp "completed_at" r.completed_at
    raise_if_less r.completed_at r.started_at completed started
        (value_error "execution completion cannot predate execution start")
    require_text "schema_version" r.schema_version default_limit
