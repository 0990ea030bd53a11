-- ===== src/Mcp/McpToolSnapshot.antt =====
-- mcp.py: `McpToolSnapshot`, with `__post_init__` as `post_init`.
use reg_agent_ops.Mcp.McpToolDescriptor
use reg_agent_ops.Base.{
  List, Result, String, [], for_each, length, ltb, map, nat_eq, not, raise_if, string_eq, texts_eq,
  unique, value_error, ◌!=◌, ◌>>◌, ◌||◌, ◌∷◌,
}
use reg_agent_ops.Mcp.Checks.{max_tools_per_snapshot}
use reg_agent_ops.Mcp.McpToolDescriptor.{McpToolDescriptor}
use reg_agent_ops.Models.Checks.{default_limit, require_digest, require_text, require_utc_timestamp}
use reg_agent_ops.Models.DataClassification.{data_classification_eq}
use reg_agent_ops.Models.Decision.{decision_eq}
use reg_agent_ops.Models.Environment.{environment_eq}
use reg_agent_ops.Models.RiskTier.{risk_tier_eq}
use reg_agent_ops.Models.Value.{Platform, Value, array_of, dict, digest_artifact, text}

pub record McpToolSnapshot : Type 0 where
  pub institution_id : String
  pub snapshot_id : String
  pub server_id : String
  pub server_registration_digest : String
  pub observed_server_name : String
  pub observed_server_identity_digest : String
  pub tools : List McpToolDescriptor
  pub captured_at : String
  pub schema_version : String

-- `asdict`, with the members of enumerations as their values
unfoldable pub encode : McpToolSnapshot → Value
encode r = dict (
    ("institution_id", text r.institution_id)
    ∷ ("snapshot_id", text r.snapshot_id)
    ∷ ("server_id", text r.server_id)
    ∷ ("server_registration_digest", text r.server_registration_digest)
    ∷ ("observed_server_name", text r.observed_server_name)
    ∷ ("observed_server_identity_digest", text r.observed_server_identity_digest)
    ∷ ("tools", array_of McpToolDescriptor.encode r.tools)
    ∷ ("captured_at", text r.captured_at)
    ∷ ("schema_version", text r.schema_version)
    ∷ [])

module _ ⦃p : Platform⦄ where
  unfoldable pub artifact_digest : McpToolSnapshot → String
  artifact_digest r = digest_artifact (encode r)

  -- the checks of the loop over the tools
  unfoldable pub tool_in_scope : McpToolSnapshot → McpToolDescriptor → Result (Unit {0})
  tool_in_scope r tool = do
    raise_if (tool.institution_id != r.institution_id || tool.server_id != r.server_id)
        (value_error "MCP tool snapshot contains cross-scope tool metadata")
    raise_if (tool.server_registration_digest != r.server_registration_digest)
        (value_error "MCP tool snapshot tool is bound to a different server registration")

  unfoldable pub post_init : McpToolSnapshot → Result (Unit {0})
  post_init r = do
    require_text "institution_id" r.institution_id default_limit
    require_text "snapshot_id" r.snapshot_id default_limit
    require_text "server_id" r.server_id 64
    require_digest "server_registration_digest" r.server_registration_digest
    require_text "observed_server_name" r.observed_server_name default_limit
    require_digest "observed_server_identity_digest" r.observed_server_identity_digest
    raise_if (ltb max_tools_per_snapshot (length r.tools))
        (value_error "MCP tool snapshot cannot contain more than 128 tools")
    raise_if (not (unique (map (λ tool. tool.name) r.tools)))
        (value_error "MCP tool snapshot contains duplicate tool names within one server")
    for_each r.tools (tool_in_scope r)
    require_utc_timestamp "captured_at" r.captured_at
    require_text "schema_version" r.schema_version default_limit
