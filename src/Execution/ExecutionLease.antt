-- ===== src/Execution/ExecutionLease.antt =====
-- execution.py: `ExecutionLease`, with `__post_init__` as `post_init`.
use reg_agent_ops.Base.{
  Option, Result, String, [], is_none, ltb, not, raise_if, same_flag, value_error, ◌*◌, ◌-◌, ◌>>=◌,
  ◌>>◌, ◌∷◌,
}
use reg_agent_ops.Models.Checks.{
  default_limit, max_lease_seconds, raise_unless_less, require_digests, require_optional_digest,
  require_text, require_texts, utc_timestamp,
}
use reg_agent_ops.Models.Value.{Platform, Value, dict, digest_artifact, optional, text}

pub record ExecutionLease : Type 0 where
  pub lease_id : String
  pub institution_id : String
  pub executor_id : String
  pub request_digest : String
  pub authenticated_authorization_digest : String
  pub policy_decision_digest : String
  pub mcp_policy_enforcement_result_digest : String
  pub mcp_registry_snapshot_digest : String
  pub approval_requirement_digest : Option String
  pub approval_resolution_digest : Option String
  pub emergency_stop_state_digest : String
  pub issued_at : String
  pub expires_at : String
  pub schema_version : String

-- `asdict`, with the members of enumerations as their values
unfoldable pub encode : ExecutionLease → Value
encode r = dict (
    ("lease_id", text r.lease_id)
    ∷ ("institution_id", text r.institution_id)
    ∷ ("executor_id", text r.executor_id)
    ∷ ("request_digest", text r.request_digest)
    ∷ ("authenticated_authorization_digest", text r.authenticated_authorization_digest)
    ∷ ("policy_decision_digest", text r.policy_decision_digest)
    ∷ ("mcp_policy_enforcement_result_digest", text r.mcp_policy_enforcement_result_digest)
    ∷ ("mcp_registry_snapshot_digest", text r.mcp_registry_snapshot_digest)
    ∷ ("approval_requirement_digest", optional r.approval_requirement_digest)
    ∷ ("approval_resolution_digest", optional r.approval_resolution_digest)
    ∷ ("emergency_stop_state_digest", text r.emergency_stop_state_digest)
    ∷ ("issued_at", text r.issued_at)
    ∷ ("expires_at", text r.expires_at)
    ∷ ("schema_version", text r.schema_version)
    ∷ [])

module _ ⦃p : Platform⦄ where
  unfoldable pub artifact_digest : ExecutionLease → String
  artifact_digest r = digest_artifact (encode r)

  -- Times are in microseconds, so the longest lifetime is 120 * 10 ^ 6.
  unfoldable pub post_init : ExecutionLease → Result (Unit {0})
  post_init r = do
    require_texts (
        ("lease_id", r.lease_id)
        ∷ ("institution_id", r.institution_id)
        ∷ ("executor_id", r.executor_id)
        ∷ [])
    require_digests (
        ("request_digest", r.request_digest)
        ∷ ("authenticated_authorization_digest", r.authenticated_authorization_digest)
        ∷ ("policy_decision_digest", r.policy_decision_digest)
        ∷ ("mcp_policy_enforcement_result_digest", r.mcp_policy_enforcement_result_digest)
        ∷ ("mcp_registry_snapshot_digest", r.mcp_registry_snapshot_digest)
        ∷ ("emergency_stop_state_digest", r.emergency_stop_state_digest)
        ∷ [])
    require_optional_digest "approval_requirement_digest" r.approval_requirement_digest
    require_optional_digest "approval_resolution_digest" r.approval_resolution_digest
    raise_if
        (not (
          same_flag (is_none r.approval_requirement_digest) (is_none r.approval_resolution_digest)))
        (value_error
          "execution lease approval requirement and resolution digests must be represented together")
    issued ← utc_timestamp "issued_at" r.issued_at
    expires ← utc_timestamp "expires_at" r.expires_at
    raise_unless_less r.issued_at r.expires_at issued expires
        (value_error "execution lease lifetime must be between 1 and 120 seconds")
    raise_if (ltb (max_lease_seconds * 1000000) (expires - issued))
        (value_error "execution lease lifetime must be between 1 and 120 seconds")
    require_text "schema_version" r.schema_version default_limit
