-- ===== src/Changes/Signature.antt =====
-- hardening.py: the signing document of a configuration change, its signature and its verification
-- against the registry of keys.
use reg_agent_ops.Changes.ConfigurationChangeRequest
use reg_agent_ops.Changes.SignedConfigurationChange
use reg_agent_ops.Keys.InstitutionCryptoKeyReference
use reg_agent_ops.Base.{
  Bool, List, Option, Result, String, [], eqb, err, false, length, nat_eq, none, not, ok, raise_if,
  some, string_eq, strip_equals, texts_eq, value_error, ℕ, ◌!=◌, ◌==◌, ◌>>=◌, ◌>>◌, ◌||◌, ◌∷◌,
}
use reg_agent_ops.Changes.ConfigurationChangeRequest.{ConfigurationChangeRequest}
use reg_agent_ops.Changes.SignedConfigurationChange.{SignedConfigurationChange}
use reg_agent_ops.Execution.EmergencyStops.{version}
use reg_agent_ops.Keys.CryptoAlgorithm.{crypto_algorithm_eq}
use reg_agent_ops.Keys.CryptoKeyCustody.{crypto_key_custody_eq}
use reg_agent_ops.Keys.CryptoKeyPurpose.{CryptoKeyPurpose, crypto_key_purpose_eq}
use reg_agent_ops.Keys.CryptoKeyStatus.{CryptoKeyStatus, crypto_key_status_eq}
use reg_agent_ops.Keys.InstitutionCryptoKeyReference.{
  InstitutionCryptoKeyReference, decode_key, key_time,
}
use reg_agent_ops.Keys.Registry.{InstitutionCryptoKeyRegistry, key_by_digest}
use reg_agent_ops.Keys.Registry.Status.{assert_new_operation_allowed, key_valid_at, status_at}
use reg_agent_ops.Models.Checks.{raise_if_less}
use reg_agent_ops.Models.DataClassification.{data_classification_eq}
use reg_agent_ops.Models.Decision.{decision_eq}
use reg_agent_ops.Models.Environment.{environment_eq}
use reg_agent_ops.Models.RiskTier.{risk_tier_eq}
use reg_agent_ops.Models.Value.{
  Platform, Value, canonical_json, dict, digest_artifact, num, optional, text,
}

-- The protocol `ConfigurationChangeSigner`.
pub record ConfigurationChangeSigner : Type 0 where
  pub institution_id : String
  pub tenant_id : String
  pub key_id : String
  pub key_version : ℕ
  pub algorithm : String
  pub sign : String → List ℕ

module _ ⦃p : Platform⦄ where
  unfoldable pub configuration_change_signing_document :
      ConfigurationChangeRequest → Option String → String → String → ℕ → String → String → Value
  configuration_change_signing_document request previous key_reference_digest key_id version
        algorithm signed_at =
      dict (
        ("purpose", text "regagentops.configuration-change.v1")
        ∷ ("institution_id", text request.institution_id)
        ∷ ("tenant_id", text request.tenant_id)
        ∷ ("sequence", num request.sequence)
        ∷ ("request_digest", text (ConfigurationChangeRequest.artifact_digest request))
        ∷ ("previous_change_digest", optional previous)
        ∷ ("key_reference_digest", text key_reference_digest)
        ∷ ("key_id", text key_id)
        ∷ ("key_version", num version)
        ∷ ("algorithm", text algorithm)
        ∷ ("signed_at", text signed_at)
        ∷ [])

  -- the checks of `sign_configuration_change` before the document is made
  unfoldable pub signing_allowed :
      ConfigurationChangeRequest
      → InstitutionCryptoKeyReference
      → InstitutionCryptoKeyRegistry
      → ConfigurationChangeSigner
      → String
      → String
      → Result (Unit {0})
  signing_allowed request key keys signer signed_at now = do
    registered ←
        key_by_digest keys request.institution_id request.tenant_id
          (InstitutionCryptoKeyReference.artifact_digest key)
    raise_if
        (InstitutionCryptoKeyReference.artifact_digest registered
          != InstitutionCryptoKeyReference.artifact_digest key)
        (value_error "configuration signing key reference mismatch")
    raise_if (key.purpose != CryptoKeyPurpose.config_signing)
        (value_error "configuration changes require a configuration-signing key")
    raise_if
        (signer.institution_id != request.institution_id || signer.tenant_id != request.tenant_id)
        (value_error "configuration signer tenant scope mismatch")
    raise_if
        (signer.key_id != key.key_id
          || not (eqb signer.key_version key.key_version)
          || signer.algorithm != "Ed25519")
        (value_error "configuration signer does not match exact key reference")
    signed_dt ← key_time "signed_at" signed_at
    requested ← key_time "requested_at" request.requested_at
    raise_if_less signed_at request.requested_at signed_dt requested
        (value_error "configuration signature must occur between request and effective time")
    effective ← key_time "effective_at" request.effective_at
    raise_if_less request.effective_at signed_at effective signed_dt
        (value_error "configuration signature must occur between request and effective time")
    assert_new_operation_allowed keys key signed_at now

  unfoldable pub sign_configuration_change :
      ConfigurationChangeRequest
      → Option String
      → InstitutionCryptoKeyReference
      → InstitutionCryptoKeyRegistry
      → ConfigurationChangeSigner
      → String
      → String
      → Result SignedConfigurationChange
  sign_configuration_change request previous key keys signer signed_at now = do
    signing_allowed request key keys signer signed_at now
    let key_digest = InstitutionCryptoKeyReference.artifact_digest key
    let document =
        configuration_change_signing_document request previous key_digest key.key_id key.key_version
          "Ed25519" signed_at
    let signature = signer.sign (canonical_json document)
    raise_if (not (eqb (length signature) 64))
        (value_error "Ed25519 configuration signer must return a 64-byte signature")
    let signed : SignedConfigurationChange = record {
      request = request;
      previous_change_digest = previous;
      key_reference_digest = key_digest;
      key_id = key.key_id;
      key_version = key.key_version;
      algorithm = "Ed25519";
      signed_at = signed_at;
      signature_base64url = strip_equals (p.urlsafe_b64encode signature);
      signing_document_digest = digest_artifact document;
      schema_version = "regagentops.signed-configuration-change.v1";
    }
    SignedConfigurationChange.post_init signed
    ok signed

  -- `key.public_key_base64url or ""`
  abbrev pub public_key_text : Option String → String
  public_key_text none = ""
  public_key_text (some value) = value

  -- the body of the `try`: false where it raises
  unfoldable pub change_signature_valid :
      InstitutionCryptoKeyReference → SignedConfigurationChange → Value → Bool
  change_signature_valid key signed document =
      elim (decode_key (public_key_text key.public_key_base64url)) [
        | err _ ↦ false
        | ok public_key ↦ elim (decode_key signed.signature_base64url) [
          | err _ ↦ false
          | ok signature ↦ p.ed25519_verify public_key signature (canonical_json document)
        ]
      ]

  -- the checks of the key and its life cycle
  unfoldable pub change_key_usable :
      InstitutionCryptoKeyRegistry
      → InstitutionCryptoKeyReference
      → SignedConfigurationChange
      → ℕ
      → String
      → Result (Unit {0})
  change_key_usable keys key signed signed_dt now = do
    raise_if (key.purpose != CryptoKeyPurpose.config_signing)
        (value_error "configuration signature key purpose mismatch")
    raise_if (key.key_id != signed.key_id || not (eqb key.key_version signed.key_version))
        (value_error "configuration signature key identity mismatch")
    then_status ← status_at keys key signed.signed_at
    raise_if (then_status != CryptoKeyStatus.active)
        (value_error "configuration signing key was not active at signature time")
    now_status ← status_at keys key now
    raise_if (now_status == CryptoKeyStatus.disabled)
        (value_error "disabled configuration signing key cannot verify changes")
    valid ← key_valid_at key signed.signed_at signed_dt
    raise_if (not valid) (value_error "configuration signing key was not valid at signature time")

  unfoldable pub verify_signed_configuration_change :
      SignedConfigurationChange
      → InstitutionCryptoKeyRegistry
      → String
      → Result ConfigurationChangeRequest
  verify_signed_configuration_change signed keys now = do
    now_dt ← key_time "now" now
    signed_dt ← key_time "signed_at" signed.signed_at
    raise_if_less now signed.signed_at now_dt signed_dt
        (value_error "configuration change signature cannot be from the future")
    key ←
        key_by_digest keys signed.request.institution_id signed.request.tenant_id
          signed.key_reference_digest
    change_key_usable keys key signed signed_dt now
    let document =
        configuration_change_signing_document signed.request signed.previous_change_digest
          signed.key_reference_digest signed.key_id signed.key_version signed.algorithm
          signed.signed_at
    raise_if (digest_artifact document != signed.signing_document_digest)
        (value_error "configuration signing document digest mismatch")
    raise_if (not (change_signature_valid key signed document))
        (value_error "configuration change signature is invalid")
    ok signed.request
