-- ===== src/Mcp/McpServerRegistration.antt =====
-- mcp.py: `McpServerRegistration`, with `__post_init__` as `post_init`.
use reg_agent_ops.Mcp.McpTransportProfile
use reg_agent_ops.Base.{Bool, Result, String, [], ℕ, ◌>>◌, ◌∷◌}
use reg_agent_ops.Mcp.McpTransportProfile.{McpTransportProfile}
use reg_agent_ops.Models.Checks.{
  default_limit, require_digest, require_positive, require_text, require_utc_timestamp,
}
use reg_agent_ops.Models.Value.{Platform, Value, dict, digest_artifact, flag, num, text}

pub record McpServerRegistration : Type 0 where
  pub institution_id : String
  pub server_id : String
  pub server_version : ℕ
  pub expected_server_name : String
  pub transport_profile : McpTransportProfile
  pub server_identity_digest : String
  pub metadata_digest : String
  pub approved : Bool
  pub registered_at : String
  pub schema_version : String

-- `asdict`, with the members of enumerations as their values
unfoldable pub encode : McpServerRegistration → Value
encode r = dict (
    ("institution_id", text r.institution_id)
    ∷ ("server_id", text r.server_id)
    ∷ ("server_version", num r.server_version)
    ∷ ("expected_server_name", text r.expected_server_name)
    ∷ ("transport_profile", text (McpTransportProfile.value r.transport_profile))
    ∷ ("server_identity_digest", text r.server_identity_digest)
    ∷ ("metadata_digest", text r.metadata_digest)
    ∷ ("approved", flag r.approved)
    ∷ ("registered_at", text r.registered_at)
    ∷ ("schema_version", text r.schema_version)
    ∷ [])

module _ ⦃p : Platform⦄ where
  unfoldable pub artifact_digest : McpServerRegistration → String
  artifact_digest r = digest_artifact (encode r)

  unfoldable pub post_init : McpServerRegistration → Result (Unit {0})
  post_init r = do
    require_text "institution_id" r.institution_id default_limit
    require_text "server_id" r.server_id 64
    require_positive "server_version" r.server_version
    require_text "expected_server_name" r.expected_server_name 256
    require_digest "server_identity_digest" r.server_identity_digest
    require_digest "metadata_digest" r.metadata_digest
    require_utc_timestamp "registered_at" r.registered_at
    require_text "schema_version" r.schema_version default_limit
