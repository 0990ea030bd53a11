-- ===== src/Changes/SignedConfigurationChange.antt =====
-- hardening.py: `SignedConfigurationChange`, with `__post_init__` as `post_init`.
use reg_agent_ops.Changes.ConfigurationChangeRequest
use reg_agent_ops.Base.{
  Option, Result, String, [], eqb, is_none, is_some, length, ltb, nat_eq, not, raise_if, string_eq,
  texts_eq, value_error, ℕ, ◌!=◌, ◌&&◌, ◌>>=◌, ◌>>◌, ◌∷◌,
}
use reg_agent_ops.Changes.ConfigurationChangeRequest.{ConfigurationChangeRequest}
use reg_agent_ops.Keys.CryptoAlgorithm.{crypto_algorithm_eq}
use reg_agent_ops.Keys.CryptoKeyCustody.{crypto_key_custody_eq}
use reg_agent_ops.Keys.CryptoKeyPurpose.{crypto_key_purpose_eq}
use reg_agent_ops.Keys.CryptoKeyStatus.{crypto_key_status_eq}
use reg_agent_ops.Keys.InstitutionCryptoKeyReference.{decode_key}
use reg_agent_ops.Models.Checks.{
  default_limit, require_digest, require_optional_digest, require_positive, require_text,
  require_utc_timestamp,
}
use reg_agent_ops.Models.DataClassification.{data_classification_eq}
use reg_agent_ops.Models.Decision.{decision_eq}
use reg_agent_ops.Models.Environment.{environment_eq}
use reg_agent_ops.Models.RiskTier.{risk_tier_eq}
use reg_agent_ops.Models.Value.{Platform, Value, dict, digest_artifact, num, optional, text}

pub record SignedConfigurationChange : Type 0 where
  pub request : ConfigurationChangeRequest
  pub previous_change_digest : Option String
  pub key_reference_digest : String
  pub key_id : String
  pub key_version : ℕ
  pub algorithm : String
  pub signed_at : String
  pub signature_base64url : String
  pub signing_document_digest : String
  pub schema_version : String

-- `asdict`, with the members of enumerations as their values
unfoldable pub encode : SignedConfigurationChange → Value
encode r = dict (
    ("request", ConfigurationChangeRequest.encode r.request)
    ∷ ("previous_change_digest", optional r.previous_change_digest)
    ∷ ("key_reference_digest", text r.key_reference_digest)
    ∷ ("key_id", text r.key_id)
    ∷ ("key_version", num r.key_version)
    ∷ ("algorithm", text r.algorithm)
    ∷ ("signed_at", text r.signed_at)
    ∷ ("signature_base64url", text r.signature_base64url)
    ∷ ("signing_document_digest", text r.signing_document_digest)
    ∷ ("schema_version", text r.schema_version)
    ∷ [])

module _ ⦃p : Platform⦄ where
  unfoldable pub artifact_digest : SignedConfigurationChange → String
  artifact_digest r = digest_artifact (encode r)

  unfoldable pub post_init : SignedConfigurationChange → Result (Unit {0})
  post_init r = do
    require_optional_digest "previous_change_digest" r.previous_change_digest
    raise_if (eqb r.request.sequence 1 && is_some r.previous_change_digest)
        (value_error "first configuration change must not have a previous change digest")
    raise_if (ltb 1 r.request.sequence && is_none r.previous_change_digest)
        (value_error "subsequent configuration changes require a previous change digest")
    require_digest "key_reference_digest" r.key_reference_digest
    require_text "key_id" r.key_id default_limit
    require_positive "key_version" r.key_version
    raise_if (r.algorithm != "Ed25519") (value_error "signed configuration changes require Ed25519")
    require_utc_timestamp "signed_at" r.signed_at
    raw ← decode_key r.signature_base64url
    raise_if (not (eqb (length raw) 64))
        (value_error "Ed25519 configuration signature must decode to 64 bytes")
    require_digest "signing_document_digest" r.signing_document_digest
    require_text "schema_version" r.schema_version default_limit
