-- ===== src/Identity/SignedWorkloadIdentity.antt =====
-- identity_models.py: `SignedWorkloadIdentity`, with `__post_init__` as `post_init`.
use reg_agent_ops.Identity.WorkloadIdentityStatement
use reg_agent_ops.Base.{
  Result, String, [], nat_eq, raise_if, string_eq, texts_eq, value_error, ◌!=◌, ◌>>◌, ◌∷◌,
}
use reg_agent_ops.Identity.Checks.{b64url, identifier}
use reg_agent_ops.Identity.WorkloadIdentityStatement.{WorkloadIdentityStatement}
use reg_agent_ops.Models.Checks.{require_digest}
use reg_agent_ops.Models.DataClassification.{data_classification_eq}
use reg_agent_ops.Models.Decision.{decision_eq}
use reg_agent_ops.Models.Environment.{environment_eq}
use reg_agent_ops.Models.RiskTier.{risk_tier_eq}
use reg_agent_ops.Models.Value.{Platform, Value, dict, digest_artifact, text}

pub record SignedWorkloadIdentity : Type 0 where
  pub statement : WorkloadIdentityStatement
  pub key_id : String
  pub algorithm : String
  pub signature_base64url : String
  pub signing_document_digest : String
  pub schema_version : String

-- `asdict`, with the members of enumerations as their values
unfoldable pub encode : SignedWorkloadIdentity → Value
encode r = dict (
    ("statement", WorkloadIdentityStatement.encode r.statement)
    ∷ ("key_id", text r.key_id)
    ∷ ("algorithm", text r.algorithm)
    ∷ ("signature_base64url", text r.signature_base64url)
    ∷ ("signing_document_digest", text r.signing_document_digest)
    ∷ ("schema_version", text r.schema_version)
    ∷ [])

module _ ⦃p : Platform⦄ where
  unfoldable pub artifact_digest : SignedWorkloadIdentity → String
  artifact_digest r = digest_artifact (encode r)

  unfoldable pub post_init : SignedWorkloadIdentity → Result (Unit {0})
  post_init r = do
    identifier "key_id" r.key_id
    raise_if (r.algorithm != "Ed25519")
        (value_error "only Ed25519 workload signatures are supported in v0.2")
    b64url "signature_base64url" r.signature_base64url 64
    require_digest "signing_document_digest" r.signing_document_digest
