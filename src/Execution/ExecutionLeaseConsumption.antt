-- ===== src/Execution/ExecutionLeaseConsumption.antt =====
-- execution.py: `ExecutionLeaseConsumption`, with `__post_init__` as `post_init`.
use reg_agent_ops.Base.{Result, String, [], ◌>>◌, ◌∷◌}
use reg_agent_ops.Models.Checks.{
  default_limit, require_digests, require_text, require_texts, require_utc_timestamp,
}
use reg_agent_ops.Models.Value.{Platform, Value, dict, digest_artifact, text}

pub record ExecutionLeaseConsumption : Type 0 where
  pub institution_id : String
  pub executor_id : String
  pub lease_digest : String
  pub request_digest : String
  pub mcp_registry_snapshot_digest : String
  pub emergency_stop_state_digest : String
  pub consumed_at : String
  pub schema_version : String

-- `asdict`, with the members of enumerations as their values
unfoldable pub encode : ExecutionLeaseConsumption → Value
encode r = dict (
    ("institution_id", text r.institution_id)
    ∷ ("executor_id", text r.executor_id)
    ∷ ("lease_digest", text r.lease_digest)
    ∷ ("request_digest", text r.request_digest)
    ∷ ("mcp_registry_snapshot_digest", text r.mcp_registry_snapshot_digest)
    ∷ ("emergency_stop_state_digest", text r.emergency_stop_state_digest)
    ∷ ("consumed_at", text r.consumed_at)
    ∷ ("schema_version", text r.schema_version)
    ∷ [])

module _ ⦃p : Platform⦄ where
  unfoldable pub artifact_digest : ExecutionLeaseConsumption → String
  artifact_digest r = digest_artifact (encode r)

  unfoldable pub post_init : ExecutionLeaseConsumption → Result (Unit {0})
  post_init r = do
    require_texts (("institution_id", r.institution_id) ∷ ("executor_id", r.executor_id) ∷ [])
    require_digests (
        ("lease_digest", r.lease_digest)
        ∷ ("request_digest", r.request_digest)
        ∷ ("mcp_registry_snapshot_digest", r.mcp_registry_snapshot_digest)
        ∷ ("emergency_stop_state_digest", r.emergency_stop_state_digest)
        ∷ [])
    require_utc_timestamp "consumed_at" r.consumed_at
    require_text "schema_version" r.schema_version default_limit
