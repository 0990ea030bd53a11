-- ===== src/Evidence/Encryption/Authentic.antt =====
-- What lies behind evidence that was decrypted.
use reg_agent_ops.Base.{
  >>-eq-ok, >>=-eq-ok, Error, List, Option, String, ap, eq_of_bne, false, nat_eq, none, ok,
  ok-injective, raise_if, raise_if-ok, some, string_eq, sym, texts_eq, ℕ, ◌!=◌, ◌==◌, ◌∙◌, ◌≡◌,
}
use reg_agent_ops.Evidence.EncryptedGovernanceEvidence.{EncryptedGovernanceEvidence}
use reg_agent_ops.Evidence.Encryption.{
  TenantEvidenceDecryptor, decrypt_and_verify_governance_evidence, decrypted, decryption_allowed,
  encrypted_evidence_aad_document,
}
use reg_agent_ops.Keys.CryptoKeyPurpose.{CryptoKeyPurpose, crypto_key_purpose_eq}
use reg_agent_ops.Keys.CryptoKeyStatus.{CryptoKeyStatus, crypto_key_status_eq}
use reg_agent_ops.Keys.InstitutionCryptoKeyReference.{InstitutionCryptoKeyReference, key_time}
use reg_agent_ops.Keys.Registry.{InstitutionCryptoKeyRegistry, key_by_digest}
use reg_agent_ops.Keys.Registry.Status.{status_at}
use reg_agent_ops.Models.Checks.{or_raise, raise_if_less}
use reg_agent_ops.Models.DataClassification.{data_classification_eq}
use reg_agent_ops.Models.Decision.{decision_eq}
use reg_agent_ops.Models.Environment.{environment_eq}
use reg_agent_ops.Models.RiskTier.{risk_tier_eq}
use reg_agent_ops.Models.Value.{Platform, canonical_json}

module _ ⦃p : Platform⦄ (sha256_bytes : List ℕ → String) (envelope : EncryptedGovernanceEvidence)
    (keys : InstitutionCryptoKeyRegistry) (decryptor : TenantEvidenceDecryptor) (now : String) where
  -- the additional data rebuilt from the envelope
  abbrev aad : String
  aad = canonical_json (
      encrypted_evidence_aad_document envelope.envelope_id envelope.institution_id
        envelope.tenant_id envelope.key_reference_digest envelope.subject_artifact_digest)

  -- The key's purpose, its status when the evidence was encrypted, and its status now.
  pub record IsUsableKey (key : InstitutionCryptoKeyReference) : Type 0 where
    purpose : key.purpose ≡ CryptoKeyPurpose.evidence_encryption
    then_active : status_at keys key envelope.encrypted_at ≡ ok CryptoKeyStatus.active
    now_status : CryptoKeyStatus
    now_known : status_at keys key now ≡ ok now_status
    now_enabled : (now_status == CryptoKeyStatus.disabled) ≡ false

  pub record IsAuthentic (plaintext : List ℕ) : Type 0 where
    key : InstitutionCryptoKeyReference
    registered :
        key_by_digest keys envelope.institution_id envelope.tenant_id envelope.key_reference_digest
        ≡ ok key
    usable : IsUsableKey key
    aad_bound : p.sha256_hexdigest aad ≡ envelope.aad_digest
    opened : decrypted sha256_bytes envelope decryptor aad ≡ some plaintext
    plaintext_bound : sha256_bytes plaintext ≡ envelope.plaintext_digest

  decryption_allowed-IsUsableKey :
      (key : InstitutionCryptoKeyReference) (encrypted_dt : ℕ)
      → decryption_allowed sha256_bytes envelope key keys decryptor encrypted_dt now ≡ ok tt
      → IsUsableKey key
  unfolding decryption_allowed
  decryption_allowed-IsUsableKey key encrypted_dt h =
      let (purpose, h₁) =
        >>-eq-ok (raise_if (key.purpose != CryptoKeyPurpose.evidence_encryption) _) _ h in
      let (_, h₂) = >>-eq-ok (raise_if _ _) _ h₁ in
      let (then_status, known, h₃) = >>=-eq-ok (status_at keys key envelope.encrypted_at) _ h₂ in
      let (active, h₄) = >>-eq-ok (raise_if (then_status != CryptoKeyStatus.active) _) _ h₃ in
      let (now_status, now_known, h₅) = >>=-eq-ok (status_at keys key now) _ h₄ in
      let (enabled, _) = >>-eq-ok (raise_if (now_status == CryptoKeyStatus.disabled) _) _ h₅ in
      record {
        purpose =
            eq_of_bne key.purpose CryptoKeyPurpose.evidence_encryption (raise_if-ok _ _ purpose);
        then_active =
            known
            ∙ ap (λ s. ok s)
                (eq_of_bne then_status CryptoKeyStatus.active (raise_if-ok _ _ active));
        now_status = now_status;
        now_known = now_known;
        now_enabled = raise_if-ok _ _ enabled;
      }

  opened-inverts :
      (found : Option (List ℕ)) (e : Error) {plaintext : List ℕ}
      → or_raise found e ≡ ok plaintext
      → found ≡ some plaintext
  opened-inverts none e h = cc
  opened-inverts (some found) e h = cc

  -- Evidence that is decrypted was encrypted under a registered key of the tenant that serves to
  -- encrypt evidence, that was active when it was encrypted and that is not disabled now; the
  -- decryptor opened it together with the additional data rebuilt from the envelope, whose digest the
  -- envelope holds, and the plaintext has the digest that the envelope holds.
  pub decrypt_and_verify_governance_evidence-IsAuthentic :
      (plaintext : List ℕ)
      → decrypt_and_verify_governance_evidence sha256_bytes envelope keys decryptor now
        ≡ ok plaintext
      → IsAuthentic plaintext
  unfolding decrypt_and_verify_governance_evidence
  decrypt_and_verify_governance_evidence-IsAuthentic plaintext h =
      let (_, _, h₁) = >>=-eq-ok (key_time "now" now) _ h in
      let (encrypted_dt, _, h₂) = >>=-eq-ok (key_time "encrypted_at" envelope.encrypted_at) _ h₁ in
      let (_, h₃) = >>-eq-ok (raise_if_less _ _ _ _ _) _ h₂ in
      let (key, registered, h₄) =
        >>=-eq-ok
          (key_by_digest keys envelope.institution_id envelope.tenant_id
            envelope.key_reference_digest)
          _ h₃ in
      let (allowed, h₅) =
        >>-eq-ok (decryption_allowed sha256_bytes envelope key keys decryptor encrypted_dt now) _
          h₄ in
      let (bound, h₆) =
        >>-eq-ok (raise_if (p.sha256_hexdigest aad != envelope.aad_digest) _) _ h₅ in
      let (found, opened, h₇) =
        >>=-eq-ok (or_raise (decrypted sha256_bytes envelope decryptor aad) _) _ h₆ in
      let (digest, same) =
        >>-eq-ok (raise_if (sha256_bytes found != envelope.plaintext_digest) _) _ h₇ in
      let is_found = ok-injective same in
      record {
        key = key;
        registered = registered;
        usable = decryption_allowed-IsUsableKey key encrypted_dt allowed;
        aad_bound = eq_of_bne (p.sha256_hexdigest aad) envelope.aad_digest (raise_if-ok _ _ bound);
        opened =
            opened-inverts (decrypted sha256_bytes envelope decryptor aad) _ opened
            ∙ ap (λ x. some x) is_found;
        plaintext_bound =
            sym (ap sha256_bytes is_found)
            ∙ eq_of_bne (sha256_bytes found) envelope.plaintext_digest (raise_if-ok _ _ digest);
      }
