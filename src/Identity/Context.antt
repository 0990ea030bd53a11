-- ===== src/Identity/Context.antt =====
-- authenticated_identity_signature.py: the signing document of an agent identity, its signature and
-- the verification against the trust bundle.
pub mod Verified
pub mod Total
use reg_agent_ops.Identity.AuthenticatedAgentIdentity
use reg_agent_ops.Identity.SignedAuthenticatedAgentIdentity
use reg_agent_ops.Approval.Checks.{parse_with}
use reg_agent_ops.Base.{
  Bool, Error, Result, String, [], eqb, err, false, identity_signature_error, length, nat_eq, not,
  ok, raise_if, select, string_eq, texts_eq, true, ℕ, ◌!=◌, ◌==◌, ◌>>=◌, ◌>>◌, ◌||◌, ◌∷◌,
}
use reg_agent_ops.Identity.AuthenticatedAgentIdentity.{AuthenticatedAgentIdentity}
use reg_agent_ops.Identity.Ed25519.{IdentitySigner, encode_b64url, signature_valid}
use reg_agent_ops.Identity.SignedAuthenticatedAgentIdentity.{SignedAuthenticatedAgentIdentity}
use reg_agent_ops.Identity.TrustKeyStatus.{TrustKeyStatus, trust_key_status_eq}
use reg_agent_ops.Identity.WorkloadIdentityTrustBundle.{WorkloadIdentityTrustBundle}
use reg_agent_ops.Identity.WorkloadIdentityTrustKey.{WorkloadIdentityTrustKey}
use reg_agent_ops.Models.Checks.{raise_if_less, raise_unless_less}
use reg_agent_ops.Models.DataClassification.{data_classification_eq}
use reg_agent_ops.Models.Decision.{decision_eq}
use reg_agent_ops.Models.Environment.{environment_eq}
use reg_agent_ops.Models.RiskTier.{risk_tier_eq}
use reg_agent_ops.Models.Value.{Platform, Value, canonical_json, dict, digest_artifact, text}

-- `except AuthenticatedIdentitySignatureError`
abbrev pub is_signature_error : Error → Bool
is_signature_error (identity_signature_error _) = true
is_signature_error _ = false

module _ ⦃p : Platform⦄ where
  unfoldable pub authenticated_identity_signing_document :
      AuthenticatedAgentIdentity → String → String → Value
  authenticated_identity_signing_document identity key_id algorithm = dict (
      ("purpose", text "regagentops.authenticated-agent-identity.v1")
      ∷ ("institution_id", text identity.institution_id)
      ∷ ("agent_id", text identity.agent_id)
      ∷ ("human_owner_id", text identity.human_owner_id)
      ∷ ("provider_id", text identity.provider_id)
      ∷ ("workload_id", text identity.workload_id)
      ∷ ("identity_digest", text (AuthenticatedAgentIdentity.artifact_digest identity))
      ∷ ("key_id", text key_id)
      ∷ ("algorithm", text algorithm)
      ∷ [])

  unfoldable pub sign_authenticated_agent_identity :
      AuthenticatedAgentIdentity → IdentitySigner → Result SignedAuthenticatedAgentIdentity
  sign_authenticated_agent_identity identity signer = do
    raise_if (signer.institution_id != identity.institution_id)
        (identity_signature_error "context signer institution mismatch")
    raise_if (signer.algorithm != "Ed25519")
        (identity_signature_error "v0.2 context signer must use Ed25519")
    let document = authenticated_identity_signing_document identity signer.key_id signer.algorithm
    let signature = signer.sign (canonical_json document)
    raise_if (not (eqb (length signature) 64))
        (identity_signature_error "Ed25519 signer must return a 64-byte signature")
    let signed : SignedAuthenticatedAgentIdentity = record {
      identity = identity;
      key_id = signer.key_id;
      algorithm = signer.algorithm;
      signature_base64url = encode_b64url signature;
      signing_document_digest = digest_artifact document;
      schema_version = "regagentops.signed-authenticated-agent-identity.v1";
    }
    SignedAuthenticatedAgentIdentity.post_init signed
    ok signed

  -- `_parse`
  unfoldable pub context_time : String → Result ℕ
  context_time =
      parse_with (identity_signature_error "identity verification time must be RFC3339 UTC")
        (identity_signature_error "identity verification time is invalid")

  -- `verify_signed_authenticated_agent_identity`, once the key has been found
  unfoldable pub verify_context_with_key :
      WorkloadIdentityTrustKey
      → SignedAuthenticatedAgentIdentity
      → String
      → Result AuthenticatedAgentIdentity
  verify_context_with_key key signed now = do
    raise_if (key.status != TrustKeyStatus.active)
        (identity_signature_error "context trust key is not active")
    raise_if (key.algorithm != signed.algorithm || signed.algorithm != "Ed25519")
        (identity_signature_error "context signature algorithm mismatch")
    now_dt ← context_time now
    established ← context_time signed.identity.established_at
    valid_until ← context_time signed.identity.valid_until
    key_start ← context_time key.not_before
    key_end ← context_time key.not_after
    let expired = identity_signature_error "authenticated context is expired or not yet valid"
    raise_if_less now signed.identity.established_at now_dt established expired
    raise_unless_less now signed.identity.valid_until now_dt valid_until expired
    let outside = identity_signature_error "context trust key is outside its validity interval"
    raise_if_less signed.identity.established_at key.not_before established key_start outside
    raise_unless_less signed.identity.established_at key.not_after established key_end outside
    raise_if_less now key.not_before now_dt key_start outside
    raise_unless_less now key.not_after now_dt key_end outside
    let document =
        authenticated_identity_signing_document signed.identity signed.key_id signed.algorithm
    raise_if (signed.signing_document_digest != digest_artifact document)
        (identity_signature_error "context signing document digest mismatch")
    raise_if (not (signature_valid key.public_key_base64url signed.signature_base64url document))
        (identity_signature_error "authenticated context signature is invalid")
    ok signed.identity

  unfoldable pub verify_signed_authenticated_agent_identity :
      SignedAuthenticatedAgentIdentity
      → WorkloadIdentityTrustBundle
      → String
      → Result AuthenticatedAgentIdentity
  verify_signed_authenticated_agent_identity signed trust_bundle now = do
    raise_if (trust_bundle.institution_id != signed.identity.institution_id)
        (identity_signature_error "context trust bundle institution mismatch")
    elim (select (λ key. key.key_id == signed.key_id) trust_bundle.keys) [
      | key ∷ [] ↦ verify_context_with_key key signed now
      | _ ↦ err (identity_signature_error "context key id must resolve to exactly one trust key")
    ]
