-- ===== src/Execution/ExecutionTrustBundle.antt =====
-- execution.py: `ExecutionTrustBundle`, with `__post_init__` as `post_init`.
use reg_agent_ops.Execution.ExecutionTrustKey
use reg_agent_ops.Base.{
  List, Result, String, [], any, is_empty, map, nat_eq, not, raise_if, string_eq, texts_eq, unique,
  value_error, ◌!=◌, ◌>>◌, ◌∷◌,
}
use reg_agent_ops.Execution.ExecutionTrustKey.{ExecutionTrustKey}
use reg_agent_ops.Models.Checks.{default_limit, require_text}
use reg_agent_ops.Models.DataClassification.{data_classification_eq}
use reg_agent_ops.Models.Decision.{decision_eq}
use reg_agent_ops.Models.Environment.{environment_eq}
use reg_agent_ops.Models.RiskTier.{risk_tier_eq}
use reg_agent_ops.Models.Value.{Platform, Value, array_of, dict, digest_artifact, text}

pub record ExecutionTrustBundle : Type 0 where
  pub institution_id : String
  pub keys : List ExecutionTrustKey
  pub schema_version : String

-- `asdict`, with the members of enumerations as their values
unfoldable pub encode : ExecutionTrustBundle → Value
encode r = dict (
    ("institution_id", text r.institution_id)
    ∷ ("keys", array_of ExecutionTrustKey.encode r.keys)
    ∷ ("schema_version", text r.schema_version)
    ∷ [])

module _ ⦃p : Platform⦄ where
  unfoldable pub artifact_digest : ExecutionTrustBundle → String
  artifact_digest r = digest_artifact (encode r)

  unfoldable pub post_init : ExecutionTrustBundle → Result (Unit {0})
  post_init r = do
    require_text "institution_id" r.institution_id default_limit
    raise_if (is_empty r.keys) (value_error "execution trust bundle must contain at least one key")
    raise_if (any (λ key. key.institution_id != r.institution_id) r.keys)
        (value_error "execution trust keys must belong to the bundle institution")
    raise_if (not (unique (map (λ key. key.executor_id ∷ key.key_id ∷ []) r.keys)))
        (value_error "execution trust bundle contains duplicate executor/key ids")
    require_text "schema_version" r.schema_version default_limit
