-- ===== src/Mcp/McpToolBinding.antt =====
-- mcp.py: `McpToolBinding`, with `__post_init__` as `post_init`.
use reg_agent_ops.Models.DataClassification
use reg_agent_ops.Base.{
  Bool, List, Result, String, [], is_empty, nat_eq, not, raise_if, string_eq, texts_eq, unique,
  value_error, ℕ, ◌!=◌, ◌>>◌, ◌∷◌,
}
use reg_agent_ops.Mcp.Checks.{mcp_tool_action}
use reg_agent_ops.Models.Checks.{
  default_limit, require_digest, require_positive, require_text, require_utc_timestamp,
}
use reg_agent_ops.Models.DataClassification.{DataClassification, data_classification_eq}
use reg_agent_ops.Models.Decision.{decision_eq}
use reg_agent_ops.Models.Environment.{environment_eq}
use reg_agent_ops.Models.RiskTier.{risk_tier_eq}
use reg_agent_ops.Models.Value.{Platform, Value, array_of, dict, digest_artifact, flag, num, text}

pub record McpToolBinding : Type 0 where
  pub institution_id : String
  pub binding_id : String
  pub binding_version : ℕ
  pub server_id : String
  pub server_registration_digest : String
  pub tool_snapshot_digest : String
  pub tool_descriptor_digest : String
  pub governed_tool_id : String
  pub allowed_data_classifications : List DataClassification
  pub production_registered : Bool
  pub enabled : Bool
  pub registered_at : String
  pub action : String
  pub schema_version : String

-- `asdict`, with the members of enumerations as their values
unfoldable pub encode : McpToolBinding → Value
encode r = dict (
    ("institution_id", text r.institution_id)
    ∷ ("binding_id", text r.binding_id)
    ∷ ("binding_version", num r.binding_version)
    ∷ ("server_id", text r.server_id)
    ∷ ("server_registration_digest", text r.server_registration_digest)
    ∷ ("tool_snapshot_digest", text r.tool_snapshot_digest)
    ∷ ("tool_descriptor_digest", text r.tool_descriptor_digest)
    ∷ ("governed_tool_id", text r.governed_tool_id)
    ∷ (
      "allowed_data_classifications",
      array_of (λ v. text (DataClassification.value v)) r.allowed_data_classifications,
    )
    ∷ ("production_registered", flag r.production_registered)
    ∷ ("enabled", flag r.enabled)
    ∷ ("registered_at", text r.registered_at)
    ∷ ("action", text r.action)
    ∷ ("schema_version", text r.schema_version)
    ∷ [])

module _ ⦃p : Platform⦄ where
  unfoldable pub artifact_digest : McpToolBinding → String
  artifact_digest r = digest_artifact (encode r)

  unfoldable pub post_init : McpToolBinding → Result (Unit {0})
  post_init r = do
    require_text "institution_id" r.institution_id 256
    require_text "binding_id" r.binding_id 256
    require_text "server_id" r.server_id 64
    require_text "governed_tool_id" r.governed_tool_id 256
    require_positive "binding_version" r.binding_version
    require_digest "server_registration_digest" r.server_registration_digest
    require_digest "tool_snapshot_digest" r.tool_snapshot_digest
    require_digest "tool_descriptor_digest" r.tool_descriptor_digest
    raise_if (is_empty r.allowed_data_classifications)
        (value_error "allowed_data_classifications must not be empty")
    raise_if (not (unique r.allowed_data_classifications))
        (value_error "allowed_data_classifications must be unique")
    require_utc_timestamp "registered_at" r.registered_at
    raise_if (r.action != mcp_tool_action) (value_error "MCP governed tool action must be 'invoke'")
    require_text "schema_version" r.schema_version default_limit
