-- ===== src/Evidence/EncryptedGovernanceEvidence.antt =====
-- hardening.py, `EncryptedGovernanceEvidence`.
use reg_agent_ops.Base.{
  Result, String, [], eqb, length, ltb, nat_eq, not, raise_if, string_eq, texts_eq, value_error, ℕ,
  ◌!=◌, ◌>>=◌, ◌>>◌, ◌∷◌,
}
use reg_agent_ops.Keys.InstitutionCryptoKeyReference.{decode_key}
use reg_agent_ops.Models.Checks.{
  require_digest, require_positive, require_texts, require_utc_timestamp,
}
use reg_agent_ops.Models.DataClassification.{data_classification_eq}
use reg_agent_ops.Models.Decision.{decision_eq}
use reg_agent_ops.Models.Environment.{environment_eq}
use reg_agent_ops.Models.RiskTier.{risk_tier_eq}
use reg_agent_ops.Models.Value.{Platform, Value, dict, digest_artifact, num, text}

pub record EncryptedGovernanceEvidence : Type 0 where
  pub envelope_id : String
  pub institution_id : String
  pub tenant_id : String
  pub key_reference_digest : String
  pub key_id : String
  pub key_version : ℕ
  pub algorithm : String
  pub subject_artifact_digest : String
  pub plaintext_digest : String
  pub aad_digest : String
  pub nonce_base64url : String
  pub ciphertext_base64url : String
  pub encrypted_at : String
  pub schema_version : String

-- `asdict`
unfoldable pub encode : EncryptedGovernanceEvidence → Value
encode r = dict (
    ("envelope_id", text r.envelope_id)
    ∷ ("institution_id", text r.institution_id)
    ∷ ("tenant_id", text r.tenant_id)
    ∷ ("key_reference_digest", text r.key_reference_digest)
    ∷ ("key_id", text r.key_id)
    ∷ ("key_version", num r.key_version)
    ∷ ("algorithm", text r.algorithm)
    ∷ ("subject_artifact_digest", text r.subject_artifact_digest)
    ∷ ("plaintext_digest", text r.plaintext_digest)
    ∷ ("aad_digest", text r.aad_digest)
    ∷ ("nonce_base64url", text r.nonce_base64url)
    ∷ ("ciphertext_base64url", text r.ciphertext_base64url)
    ∷ ("encrypted_at", text r.encrypted_at)
    ∷ ("schema_version", text r.schema_version)
    ∷ [])

module _ ⦃p : Platform⦄ where
  unfoldable pub artifact_digest : EncryptedGovernanceEvidence → String
  artifact_digest r = digest_artifact (encode r)

  unfoldable pub post_init : EncryptedGovernanceEvidence → Result (Unit {0})
  post_init r = do
    require_texts (
        ("envelope_id", r.envelope_id)
        ∷ ("institution_id", r.institution_id)
        ∷ ("tenant_id", r.tenant_id)
        ∷ ("key_id", r.key_id)
        ∷ ("schema_version", r.schema_version)
        ∷ [])
    require_digest "key_reference_digest" r.key_reference_digest
    require_positive "key_version" r.key_version
    raise_if (r.algorithm != "AES-256-GCM")
        (value_error "tenant governance evidence must use AES-256-GCM")
    require_digest "subject_artifact_digest" r.subject_artifact_digest
    require_digest "plaintext_digest" r.plaintext_digest
    require_digest "aad_digest" r.aad_digest
    nonce ← decode_key r.nonce_base64url
    raise_if (not (eqb (length nonce) 12)) (value_error "AES-256-GCM nonce must decode to 12 bytes")
    ciphertext ← decode_key r.ciphertext_base64url
    raise_if (ltb (length ciphertext) 16)
        (value_error "AES-256-GCM ciphertext must contain an authentication tag")
    require_utc_timestamp "encrypted_at" r.encrypted_at
