-- ===== src/Evidence/Encryption.antt =====
-- hardening.py: the encryption of governance evidence and its decryption.
pub mod Authentic
use reg_agent_ops.Evidence.EncryptedGovernanceEvidence
use reg_agent_ops.Keys.InstitutionCryptoKeyReference
use reg_agent_ops.Base.{
  List, Option, Result, String, [], eqb, err, length, ltb, nat_eq, none, not, ok, raise_if,
  string_eq, strip_equals, texts_eq, value_error, ℕ, ◌!=◌, ◌==◌, ◌>>=◌, ◌>>◌, ◌||◌, ◌∷◌,
}
use reg_agent_ops.Evidence.EncryptedGovernanceEvidence.{EncryptedGovernanceEvidence}
use reg_agent_ops.Keys.CryptoKeyPurpose.{CryptoKeyPurpose, crypto_key_purpose_eq}
use reg_agent_ops.Keys.CryptoKeyStatus.{CryptoKeyStatus, crypto_key_status_eq}
use reg_agent_ops.Keys.InstitutionCryptoKeyReference.{
  InstitutionCryptoKeyReference, decode_key, key_time,
}
use reg_agent_ops.Keys.Registry.{InstitutionCryptoKeyRegistry, key_by_digest}
use reg_agent_ops.Keys.Registry.Status.{assert_new_operation_allowed, key_valid_at, status_at}
use reg_agent_ops.Models.Checks.{or_raise, raise_if_less, require_digest}
use reg_agent_ops.Models.DataClassification.{data_classification_eq}
use reg_agent_ops.Models.Decision.{decision_eq}
use reg_agent_ops.Models.Environment.{environment_eq}
use reg_agent_ops.Models.RiskTier.{risk_tier_eq}
use reg_agent_ops.Models.Value.{Platform, Value, canonical_json, dict, text}

-- `TenantEvidenceEncryptor`: what a call raises is not the program's
pub record TenantEvidenceEncryptor : Type 0 where
  pub institution_id : String
  pub tenant_id : String
  pub key_id : String
  pub key_version : ℕ
  pub algorithm : String
  pub encrypt : List ℕ → List ℕ → String → List ℕ

-- `TenantEvidenceDecryptor`, `none` for an exception
pub record TenantEvidenceDecryptor : Type 0 where
  pub institution_id : String
  pub tenant_id : String
  pub key_id : String
  pub key_version : ℕ
  pub algorithm : String
  pub decrypt : List ℕ → List ℕ → String → Option (List ℕ)

unfoldable pub encrypted_evidence_aad_document : String → String → String → String → String → Value
encrypted_evidence_aad_document envelope_id institution_id tenant_id key_digest subject = dict (
    ("purpose", text "regagentops.tenant-encrypted-governance-evidence.v1")
    ∷ ("envelope_id", text envelope_id)
    ∷ ("institution_id", text institution_id)
    ∷ ("tenant_id", text tenant_id)
    ∷ ("key_reference_digest", text key_digest)
    ∷ ("subject_artifact_digest", text subject)
    ∷ [])

-- `_sha256_bytes` is `sha256_bytes`, and `secrets.token_bytes(12)` is `nonce`
module _ ⦃p : Platform⦄ (sha256_bytes : List ℕ → String) where
  -- the checks of `encrypt_governance_evidence` before it draws the nonce
  unfoldable pub encryption_allowed :
      List ℕ
      → String
      → String
      → String
      → InstitutionCryptoKeyReference
      → InstitutionCryptoKeyRegistry
      → TenantEvidenceEncryptor
      → String
      → String
      → Result (Unit {0})
  encryption_allowed plaintext institution_id tenant_id subject key keys encryptor encrypted_at
        now =
      do
        raise_if (eqb (length plaintext) 0)
            (value_error "governance evidence plaintext must be non-empty bytes")
        require_digest "subject_artifact_digest" subject
        registered ←
            key_by_digest keys institution_id tenant_id
              (InstitutionCryptoKeyReference.artifact_digest key)
        raise_if
            (InstitutionCryptoKeyReference.artifact_digest registered
              != InstitutionCryptoKeyReference.artifact_digest key)
            (value_error "evidence encryption key reference mismatch")
        raise_if (key.purpose != CryptoKeyPurpose.evidence_encryption)
            (value_error "governance evidence requires an evidence-encryption key")
        assert_new_operation_allowed keys key encrypted_at now
        raise_if
            (encryptor.institution_id != institution_id
              || encryptor.tenant_id != tenant_id
              || encryptor.key_id != key.key_id
              || not (eqb encryptor.key_version key.key_version)
              || encryptor.algorithm != "AES-256-GCM")
            (value_error "evidence encryptor does not match exact tenant key reference")

  unfoldable pub encrypt_governance_evidence :
      List ℕ
      → String
      → String
      → String
      → String
      → InstitutionCryptoKeyReference
      → InstitutionCryptoKeyRegistry
      → TenantEvidenceEncryptor
      → List ℕ
      → String
      → String
      → Result EncryptedGovernanceEvidence
  encrypt_governance_evidence plaintext envelope_id institution_id tenant_id subject key keys
        encryptor nonce encrypted_at now =
      do
        encryption_allowed plaintext institution_id tenant_id subject key keys encryptor
            encrypted_at now
        let key_digest = InstitutionCryptoKeyReference.artifact_digest key
        let aad = canonical_json (
            encrypted_evidence_aad_document envelope_id institution_id tenant_id key_digest subject)
        let ciphertext = encryptor.encrypt nonce plaintext aad
        raise_if (ltb (length ciphertext) 16)
            (value_error "AES-256-GCM encryptor must return ciphertext with authentication tag")
        let envelope : EncryptedGovernanceEvidence = record {
          envelope_id = envelope_id;
          institution_id = institution_id;
          tenant_id = tenant_id;
          key_reference_digest = key_digest;
          key_id = key.key_id;
          key_version = key.key_version;
          algorithm = "AES-256-GCM";
          subject_artifact_digest = subject;
          plaintext_digest = sha256_bytes plaintext;
          aad_digest = p.sha256_hexdigest aad;
          nonce_base64url = strip_equals (p.urlsafe_b64encode nonce);
          ciphertext_base64url = strip_equals (p.urlsafe_b64encode ciphertext);
          encrypted_at = encrypted_at;
          schema_version = "regagentops.encrypted-governance-evidence.v1";
        }
        EncryptedGovernanceEvidence.post_init envelope
        ok envelope

  -- the checks of the key, its life cycle and the decryptor
  unfoldable pub decryption_allowed :
      EncryptedGovernanceEvidence
      → InstitutionCryptoKeyReference
      → InstitutionCryptoKeyRegistry
      → TenantEvidenceDecryptor
      → ℕ
      → String
      → Result (Unit {0})
  decryption_allowed envelope key keys decryptor encrypted_dt now = do
    raise_if (key.purpose != CryptoKeyPurpose.evidence_encryption)
        (value_error "encrypted evidence key purpose mismatch")
    raise_if (key.key_id != envelope.key_id || not (eqb key.key_version envelope.key_version))
        (value_error "encrypted evidence key identity mismatch")
    then_status ← status_at keys key envelope.encrypted_at
    raise_if (then_status != CryptoKeyStatus.active)
        (value_error "encryption key was not active when evidence was encrypted")
    now_status ← status_at keys key now
    raise_if (now_status == CryptoKeyStatus.disabled)
        (value_error "disabled encryption key cannot decrypt governance evidence")
    valid ← key_valid_at key envelope.encrypted_at encrypted_dt
    raise_if (not valid) (value_error "encryption key was not valid when evidence was encrypted")
    raise_if
        (decryptor.institution_id != envelope.institution_id
          || decryptor.tenant_id != envelope.tenant_id
          || decryptor.key_id != envelope.key_id
          || not (eqb decryptor.key_version envelope.key_version)
          || decryptor.algorithm != "AES-256-GCM")
        (value_error "evidence decryptor does not match encrypted tenant key reference")

  -- the body of the `try`
  unfoldable pub decrypted :
      EncryptedGovernanceEvidence → TenantEvidenceDecryptor → String → Option (List ℕ)
  decrypted envelope decryptor aad = elim (decode_key envelope.nonce_base64url) [
    | err _ ↦ none
    | ok nonce ↦ elim (decode_key envelope.ciphertext_base64url) [
      | err _ ↦ none
      | ok ciphertext ↦ decryptor.decrypt nonce ciphertext aad
    ]
  ]

  unfoldable pub decrypt_and_verify_governance_evidence :
      EncryptedGovernanceEvidence
      → InstitutionCryptoKeyRegistry
      → TenantEvidenceDecryptor
      → String
      → Result (List ℕ)
  decrypt_and_verify_governance_evidence envelope keys decryptor now = do
    now_dt ← key_time "now" now
    encrypted_dt ← key_time "encrypted_at" envelope.encrypted_at
    raise_if_less now envelope.encrypted_at now_dt encrypted_dt
        (value_error "encrypted governance evidence cannot be from the future")
    key ←
        key_by_digest keys envelope.institution_id envelope.tenant_id envelope.key_reference_digest
    decryption_allowed envelope key keys decryptor encrypted_dt now
    let aad = canonical_json (
        encrypted_evidence_aad_document envelope.envelope_id envelope.institution_id
          envelope.tenant_id envelope.key_reference_digest envelope.subject_artifact_digest)
    raise_if (p.sha256_hexdigest aad != envelope.aad_digest)
        (value_error "encrypted governance evidence AAD digest mismatch")
    plaintext ←
        or_raise (decrypted envelope decryptor aad)
          (value_error "encrypted governance evidence authentication failed")
    raise_if (sha256_bytes plaintext != envelope.plaintext_digest)
        (value_error "encrypted governance evidence plaintext digest mismatch")
    ok plaintext
