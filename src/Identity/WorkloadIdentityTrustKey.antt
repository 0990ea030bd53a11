-- ===== src/Identity/WorkloadIdentityTrustKey.antt =====
-- identity_models.py: `WorkloadIdentityTrustKey`, with `__post_init__` as `post_init`.
use reg_agent_ops.Identity.TrustKeyStatus
use reg_agent_ops.Base.{
  Result, String, [], nat_eq, ok, raise_if, string_eq, texts_eq, value_error, ◌!=◌, ◌>>=◌, ◌>>◌,
  ◌∷◌,
}
use reg_agent_ops.Identity.Checks.{b64url, identifier, interval}
use reg_agent_ops.Identity.TrustKeyStatus.{TrustKeyStatus, trust_key_status_eq}
use reg_agent_ops.Models.DataClassification.{data_classification_eq}
use reg_agent_ops.Models.Decision.{decision_eq}
use reg_agent_ops.Models.Environment.{environment_eq}
use reg_agent_ops.Models.RiskTier.{risk_tier_eq}
use reg_agent_ops.Models.Value.{Platform, Value, dict, text}

pub record WorkloadIdentityTrustKey : Type 0 where
  pub institution_id : String
  pub key_id : String
  pub public_key_base64url : String
  pub not_before : String
  pub not_after : String
  pub status : TrustKeyStatus
  pub algorithm : String

-- `asdict`, with the members of enumerations as their values
unfoldable pub encode : WorkloadIdentityTrustKey → Value
encode r = dict (
    ("institution_id", text r.institution_id)
    ∷ ("key_id", text r.key_id)
    ∷ ("public_key_base64url", text r.public_key_base64url)
    ∷ ("not_before", text r.not_before)
    ∷ ("not_after", text r.not_after)
    ∷ ("status", text (TrustKeyStatus.value r.status))
    ∷ ("algorithm", text r.algorithm)
    ∷ [])

module _ ⦃p : Platform⦄ where
  unfoldable pub post_init : WorkloadIdentityTrustKey → Result (Unit {0})
  post_init r = do
    identifier "institution_id" r.institution_id
    identifier "key_id" r.key_id
    raise_if (r.algorithm != "Ed25519")
        (value_error "only Ed25519 workload trust keys are supported in v0.2")
    b64url "public_key_base64url" r.public_key_base64url 32
    lifetime ← interval "not_before" r.not_before "not_after" r.not_after
    ok tt
