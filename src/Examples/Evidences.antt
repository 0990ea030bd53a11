-- ===== src/Examples/Evidences.antt =====
-- Evidence that a tenant's key opens.
use reg_agent_ops.Base.Versioned
use reg_agent_ops.Keys.CryptoAlgorithm
use reg_agent_ops.Keys.CryptoKeyPurpose
use reg_agent_ops.Keys.InstitutionCryptoKeyReference
use reg_agent_ops.Base.{
  [], codes, contains_code, drop_last, ends_with_z, is_blank, is_hex, is_hex_64, is_space, len,
  none, ok, refl, some, ◌∷◌, ◌≡◌,
}
use reg_agent_ops.Base.Sort.{text_le}
use reg_agent_ops.Evidence.EncryptedGovernanceEvidence.{EncryptedGovernanceEvidence}
use reg_agent_ops.Evidence.Encryption.{
  TenantEvidenceDecryptor, decrypt_and_verify_governance_evidence, decrypted, decryption_allowed,
  encrypted_evidence_aad_document,
}
use reg_agent_ops.Evidence.Encryption.Authentic.{
  IsAuthentic, decrypt_and_verify_governance_evidence-IsAuthentic,
}
use reg_agent_ops.Examples.Clock.{
  clock, example_platform, first_of_fields, first_text, odd_digest, parity_digest,
}
use reg_agent_ops.Keys.CryptoAlgorithm.{CryptoAlgorithm}
use reg_agent_ops.Keys.CryptoKeyCustody.{CryptoKeyCustody}
use reg_agent_ops.Keys.CryptoKeyPurpose.{CryptoKeyPurpose}
use reg_agent_ops.Keys.CryptoKeyStatus.{CryptoKeyStatus}
use reg_agent_ops.Keys.InstitutionCryptoKeyReference.{
  InstitutionCryptoKeyReference, decode_key, key_time,
}
use reg_agent_ops.Keys.Registry.{
  InstitutionCryptoKeyRegistry, initial_state, key_by_digest, lifecycle_history,
}
use reg_agent_ops.Keys.Registry.Status.{effective_states, key_valid_at, status_at}
use reg_agent_ops.Models.Checks.{
  is_aware, less, raise_if_less, raise_unless_less, require_text, utc_timestamp,
}
use reg_agent_ops.Models.Value.{
  canonical, canonical_fields, canonical_items, canonical_json, digest_artifact, insert_field,
}

abbrev evidence_key : InstitutionCryptoKeyReference
evidence_key = record {
  institution_id = "bank";
  tenant_id = "tenant";
  purpose = CryptoKeyPurpose.evidence_encryption;
  key_version = 1;
  key_id = "key";
  custody = CryptoKeyCustody.hsm;
  algorithm = CryptoAlgorithm.aes_256_gcm;
  public_key_base64url = none;
  status = CryptoKeyStatus.active;
  not_before = "2026-01-01T00:00:00Z";
  not_after = "2026-01-01T00:09:00Z";
  registered_at = "2026-01-01T00:00:00Z";
  schema_version = "regagentops.institution-crypto-key-reference.v1";
}

abbrev evidence_keys : InstitutionCryptoKeyRegistry
evidence_keys = record { keys = evidence_key ∷ []; states = initial_state evidence_key ∷ [] }

abbrev envelope : EncryptedGovernanceEvidence
envelope = record {
  envelope_id = "envelope";
  institution_id = "bank";
  tenant_id = "tenant";
  key_reference_digest = InstitutionCryptoKeyReference.artifact_digest evidence_key;
  key_id = "key";
  key_version = 1;
  algorithm = "AES-256-GCM";
  subject_artifact_digest = odd_digest;
  plaintext_digest = odd_digest;
  aad_digest = digest_artifact (
      encrypted_evidence_aad_document "envelope" "bank" "tenant"
        (InstitutionCryptoKeyReference.artifact_digest evidence_key) odd_digest);
  nonce_base64url = "NONCE";
  ciphertext_base64url = "CIPHERTEXT";
  encrypted_at = "2026-01-01T00:01:00Z";
  schema_version = "regagentops.encrypted-governance-evidence.v1";
}

abbrev opener : TenantEvidenceDecryptor
opener = record {
  institution_id = "bank";
  tenant_id = "tenant";
  key_id = "key";
  key_version = 1;
  algorithm = "AES-256-GCM";
  decrypt = λ nonce ciphertext aad. some (1 ∷ []);
}

envelope-opened :
    decrypt_and_verify_governance_evidence
      (λ bytes. odd_digest)
      envelope
      evidence_keys
      opener
      "2026-01-01T00:02:00Z"
    ≡ ok (1 ∷ [])
unfolding decrypt_and_verify_governance_evidence decryption_allowed decrypted
    encrypted_evidence_aad_document initial_state key_by_digest status_at effective_states
    key_valid_at decode_key key_time utc_timestamp require_text lifecycle_history Versioned.history
    CryptoAlgorithm.value CryptoKeyPurpose.value InstitutionCryptoKeyReference.encode
    InstitutionCryptoKeyReference.artifact_digest clock first_text first_of_fields parity_digest
    canonical canonical_items canonical_fields insert_field text_le canonical_json digest_artifact
    codes is_space is_blank len ends_with_z drop_last is_hex is_hex_64 contains_code raise_if_less
    raise_unless_less less is_aware
envelope-opened = refl

decrypt_and_verify_governance_evidence-IsAuthentic_example :
    IsAuthentic (λ bytes. odd_digest) envelope evidence_keys opener "2026-01-01T00:02:00Z" (1 ∷ [])
decrypt_and_verify_governance_evidence-IsAuthentic_example =
    decrypt_and_verify_governance_evidence-IsAuthentic (λ bytes. odd_digest) envelope evidence_keys
      opener "2026-01-01T00:02:00Z" (1 ∷ []) envelope-opened
