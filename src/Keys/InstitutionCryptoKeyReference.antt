-- ===== src/Keys/InstitutionCryptoKeyReference.antt =====
-- hardening.py: `InstitutionCryptoKeyReference`, with `__post_init__` as `post_init`.
use reg_agent_ops.Keys.CryptoAlgorithm
use reg_agent_ops.Keys.CryptoKeyCustody
use reg_agent_ops.Keys.CryptoKeyPurpose
use reg_agent_ops.Keys.CryptoKeyStatus
use reg_agent_ops.Approval.Checks.{padding}
use reg_agent_ops.Base.{
  List, Option, Result, String, [], contains_code, eqb, err, if◌then◌else◌, is_some, len, length,
  nat_eq, none, not, raise_if, some, string_eq, texts_eq, value_error, ℕ, ◌!=◌, ◌+++◌, ◌==◌, ◌>>=◌,
  ◌>>◌, ◌||◌, ◌∷◌,
}
use reg_agent_ops.Keys.CryptoAlgorithm.{CryptoAlgorithm, crypto_algorithm_eq}
use reg_agent_ops.Keys.CryptoKeyCustody.{CryptoKeyCustody, crypto_key_custody_eq}
use reg_agent_ops.Keys.CryptoKeyPurpose.{CryptoKeyPurpose, crypto_key_purpose_eq}
use reg_agent_ops.Keys.CryptoKeyStatus.{CryptoKeyStatus, crypto_key_status_eq}
use reg_agent_ops.Models.Checks.{
  or_raise, raise_if_less, raise_unless_less, require_positive, require_texts, utc_timestamp,
}
use reg_agent_ops.Models.DataClassification.{data_classification_eq}
use reg_agent_ops.Models.Decision.{decision_eq}
use reg_agent_ops.Models.Environment.{environment_eq}
use reg_agent_ops.Models.RiskTier.{risk_tier_eq}
use reg_agent_ops.Models.Value.{Platform, Value, dict, digest_artifact, num, optional, text}

pub record InstitutionCryptoKeyReference : Type 0 where
  pub institution_id : String
  pub tenant_id : String
  pub purpose : CryptoKeyPurpose
  pub key_version : ℕ
  pub key_id : String
  pub custody : CryptoKeyCustody
  pub algorithm : CryptoAlgorithm
  pub public_key_base64url : Option String
  pub status : CryptoKeyStatus
  pub not_before : String
  pub not_after : String
  pub registered_at : String
  pub schema_version : String

-- `asdict`, with the members of enumerations as their values
unfoldable pub encode : InstitutionCryptoKeyReference → Value
encode r = dict (
    ("institution_id", text r.institution_id)
    ∷ ("tenant_id", text r.tenant_id)
    ∷ ("purpose", text (CryptoKeyPurpose.value r.purpose))
    ∷ ("key_version", num r.key_version)
    ∷ ("key_id", text r.key_id)
    ∷ ("custody", text (CryptoKeyCustody.value r.custody))
    ∷ ("algorithm", text (CryptoAlgorithm.value r.algorithm))
    ∷ ("public_key_base64url", optional r.public_key_base64url)
    ∷ ("status", text (CryptoKeyStatus.value r.status))
    ∷ ("not_before", text r.not_before)
    ∷ ("not_after", text r.not_after)
    ∷ ("registered_at", text r.registered_at)
    ∷ ("schema_version", text r.schema_version)
    ∷ [])

module _ ⦃p : Platform⦄ where
  unfoldable pub artifact_digest : InstitutionCryptoKeyReference → String
  artifact_digest r = digest_artifact (encode r)

  -- `_decode`
  unfoldable pub decode_key : String → Result (List ℕ)
  decode_key value = do
    raise_if (eqb (len value) 0 || contains_code b'=' value)
        (value_error "base64url values must be non-empty unpadded text")
    or_raise (p.urlsafe_b64decode (value +++ padding value)) (value_error "invalid base64url value")

  -- `_parse_time`
  unfoldable pub key_time : String → String → Result ℕ
  key_time = utc_timestamp

  -- the checks of the purpose, the algorithm and the public key
  unfoldable pub material_consistent : InstitutionCryptoKeyReference → Result (Unit {0})
  material_consistent r =
      if r.purpose == CryptoKeyPurpose.config_signing
      then (do
        raise_if (r.algorithm != CryptoAlgorithm.ed25519)
            (value_error "configuration signing keys must use Ed25519")
        elim r.public_key_base64url [
          | none ↦
              err (value_error "Ed25519 configuration signing keys require a 32-byte public key")
          | some public_key ↦ (do
            raw ← decode_key public_key
            raise_if (not (eqb (length raw) 32))
                (value_error "Ed25519 configuration signing keys require a 32-byte public key"))
        ])
      else (do
        raise_if (r.algorithm != CryptoAlgorithm.aes_256_gcm)
            (value_error "evidence encryption keys must use AES-256-GCM")
        raise_if (is_some r.public_key_base64url)
            (value_error "symmetric KMS/HSM encryption key material must not be embedded"))

  unfoldable pub post_init : InstitutionCryptoKeyReference → Result (Unit {0})
  unfolding material_consistent
  post_init r = do
    require_texts (
        ("institution_id", r.institution_id)
        ∷ ("tenant_id", r.tenant_id)
        ∷ ("key_id", r.key_id)
        ∷ ("schema_version", r.schema_version)
        ∷ [])
    require_positive "key_version" r.key_version
    material_consistent r
    start ← key_time "not_before" r.not_before
    finish ← key_time "not_after" r.not_after
    registered ← key_time "registered_at" r.registered_at
    raise_unless_less r.not_before r.not_after start finish
        (value_error "key not_after must be after not_before")
    raise_if_less r.not_after r.registered_at finish registered
        (value_error "key registration cannot occur after key expiry")
