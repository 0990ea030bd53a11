-- ===== src/Identity/WorkloadIdentityTrustBundle.antt =====
-- identity_models.py: `WorkloadIdentityTrustBundle`, with `__post_init__` as `post_init`.
use reg_agent_ops.Identity.WorkloadIdentityTrustKey
use reg_agent_ops.Base.{
  List, Result, String, [], any, is_empty, map, nat_eq, not, raise_if, string_eq, texts_eq, unique,
  value_error, ◌!=◌, ◌==◌, ◌>>◌, ◌∷◌,
}
use reg_agent_ops.Identity.Checks.{identifier}
use reg_agent_ops.Identity.TrustKeyStatus.{TrustKeyStatus, trust_key_status_eq}
use reg_agent_ops.Identity.WorkloadIdentityTrustKey.{WorkloadIdentityTrustKey}
use reg_agent_ops.Models.DataClassification.{data_classification_eq}
use reg_agent_ops.Models.Decision.{decision_eq}
use reg_agent_ops.Models.Environment.{environment_eq}
use reg_agent_ops.Models.RiskTier.{risk_tier_eq}
use reg_agent_ops.Models.Value.{Platform, Value, array_of, dict, digest_artifact, text}

pub record WorkloadIdentityTrustBundle : Type 0 where
  pub institution_id : String
  pub keys : List WorkloadIdentityTrustKey
  pub schema_version : String

-- `asdict`, with the members of enumerations as their values
unfoldable pub encode : WorkloadIdentityTrustBundle → Value
encode r = dict (
    ("institution_id", text r.institution_id)
    ∷ ("keys", array_of WorkloadIdentityTrustKey.encode r.keys)
    ∷ ("schema_version", text r.schema_version)
    ∷ [])

module _ ⦃p : Platform⦄ where
  unfoldable pub artifact_digest : WorkloadIdentityTrustBundle → String
  artifact_digest r = digest_artifact (encode r)

  unfoldable pub post_init : WorkloadIdentityTrustBundle → Result (Unit {0})
  post_init r = do
    identifier "institution_id" r.institution_id
    raise_if (is_empty r.keys) (value_error "workload trust bundle must contain at least one key")
    raise_if (any (λ key. key.institution_id != r.institution_id) r.keys)
        (value_error "all workload trust keys must belong to the bundle institution")
    raise_if (not (unique (map (λ key. key.key_id) r.keys)))
        (value_error "workload trust bundle contains duplicate key ids")
    raise_if (not (unique (map (λ key. key.public_key_base64url) r.keys)))
        (value_error "workload trust bundle contains duplicate public keys")
    raise_if (not (any (λ key. key.status == TrustKeyStatus.active) r.keys))
        (value_error "workload trust bundle requires at least one active key")
