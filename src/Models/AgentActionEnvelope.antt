-- ===== src/Models/AgentActionEnvelope.antt =====
-- models.py: `AgentActionEnvelope`, with `__post_init__` as `post_init`.
use reg_agent_ops.Models.DataClassification
use reg_agent_ops.Models.Environment
use reg_agent_ops.Models.RiskTier
use reg_agent_ops.Base.{Result, String, [], is_hex_64, not, raise_if, value_error, ◌>>◌, ◌∷◌}
use reg_agent_ops.Models.Checks.{default_limit, require_text, require_texts, require_utc_timestamp}
use reg_agent_ops.Models.DataClassification.{DataClassification}
use reg_agent_ops.Models.Environment.{Environment}
use reg_agent_ops.Models.RiskTier.{RiskTier}
use reg_agent_ops.Models.Value.{Platform, Value, dict, digest_artifact, text}

pub record AgentActionEnvelope : Type 0 where
  pub request_id : String
  pub institution_id : String
  pub agent_id : String
  pub human_owner_id : String
  pub model_provider : String
  pub model_id : String
  pub tool_id : String
  pub action : String
  pub resource : String
  pub data_classification : DataClassification
  pub business_purpose : String
  pub environment : Environment
  pub risk_tier : RiskTier
  pub input_digest : String
  pub requested_at : String
  pub schema_version : String

-- `asdict`, with the members of enumerations as their values
unfoldable pub encode : AgentActionEnvelope → Value
encode r = dict (
    ("request_id", text r.request_id)
    ∷ ("institution_id", text r.institution_id)
    ∷ ("agent_id", text r.agent_id)
    ∷ ("human_owner_id", text r.human_owner_id)
    ∷ ("model_provider", text r.model_provider)
    ∷ ("model_id", text r.model_id)
    ∷ ("tool_id", text r.tool_id)
    ∷ ("action", text r.action)
    ∷ ("resource", text r.resource)
    ∷ ("data_classification", text (DataClassification.value r.data_classification))
    ∷ ("business_purpose", text r.business_purpose)
    ∷ ("environment", text (Environment.value r.environment))
    ∷ ("risk_tier", text (RiskTier.value r.risk_tier))
    ∷ ("input_digest", text r.input_digest)
    ∷ ("requested_at", text r.requested_at)
    ∷ ("schema_version", text r.schema_version)
    ∷ [])

module _ ⦃p : Platform⦄ where
  unfoldable pub artifact_digest : AgentActionEnvelope → String
  artifact_digest r = digest_artifact (encode r)

  unfoldable pub post_init : AgentActionEnvelope → Result (Unit {0})
  post_init r = do
    require_texts (
        ("request_id", r.request_id)
        ∷ ("institution_id", r.institution_id)
        ∷ ("agent_id", r.agent_id)
        ∷ ("human_owner_id", r.human_owner_id)
        ∷ ("model_provider", r.model_provider)
        ∷ ("model_id", r.model_id)
        ∷ ("tool_id", r.tool_id)
        ∷ ("action", r.action)
        ∷ [])
    require_text "resource" r.resource 512
    require_text "business_purpose" r.business_purpose 512
    require_text "schema_version" r.schema_version default_limit
    raise_if (not (is_hex_64 r.input_digest))
        (value_error "input_digest must be a lowercase SHA-256 hex digest")
    require_utc_timestamp "requested_at" r.requested_at
