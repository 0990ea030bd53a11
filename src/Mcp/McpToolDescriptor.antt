-- ===== src/Mcp/McpToolDescriptor.antt =====
-- mcp.py: `McpToolDescriptor`, with `__post_init__` as `post_init`.
use reg_agent_ops.Base.{Option, Result, String, [], not, raise_if, value_error, ◌>>◌, ◌∷◌}
use reg_agent_ops.Mcp.Checks.{is_tool_name}
use reg_agent_ops.Models.Checks.{
  default_limit, require_digest, require_optional_digest, require_text,
}
use reg_agent_ops.Models.Value.{Platform, Value, dict, digest_artifact, optional, text}

pub record McpToolDescriptor : Type 0 where
  pub institution_id : String
  pub server_id : String
  pub server_registration_digest : String
  pub name : String
  pub input_schema_digest : String
  pub output_schema_digest : Option String
  pub description_digest : Option String
  pub annotations_digest : Option String
  pub raw_metadata_digest : String
  pub schema_version : String

-- `asdict`, with the members of enumerations as their values
unfoldable pub encode : McpToolDescriptor → Value
encode r = dict (
    ("institution_id", text r.institution_id)
    ∷ ("server_id", text r.server_id)
    ∷ ("server_registration_digest", text r.server_registration_digest)
    ∷ ("name", text r.name)
    ∷ ("input_schema_digest", text r.input_schema_digest)
    ∷ ("output_schema_digest", optional r.output_schema_digest)
    ∷ ("description_digest", optional r.description_digest)
    ∷ ("annotations_digest", optional r.annotations_digest)
    ∷ ("raw_metadata_digest", text r.raw_metadata_digest)
    ∷ ("schema_version", text r.schema_version)
    ∷ [])

module _ ⦃p : Platform⦄ where
  unfoldable pub artifact_digest : McpToolDescriptor → String
  artifact_digest r = digest_artifact (encode r)

  unfoldable pub post_init : McpToolDescriptor → Result (Unit {0})
  post_init r = do
    require_text "institution_id" r.institution_id default_limit
    require_text "server_id" r.server_id 64
    require_digest "server_registration_digest" r.server_registration_digest
    raise_if (not (is_tool_name r.name)) (
        value_error
          "MCP tool name must use 1-128 ASCII letters, digits, underscore, hyphen, or dot")
    require_digest "input_schema_digest" r.input_schema_digest
    require_optional_digest "output_schema_digest" r.output_schema_digest
    require_optional_digest "description_digest" r.description_digest
    require_optional_digest "annotations_digest" r.annotations_digest
    require_digest "raw_metadata_digest" r.raw_metadata_digest
    require_text "schema_version" r.schema_version default_limit
