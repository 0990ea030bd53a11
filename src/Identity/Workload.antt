-- ===== src/Identity/Workload.antt =====
-- workload_identity.py: the signing document of a workload's statement, its signature and the
-- verification against the trust bundle.
pub mod Verified
use reg_agent_ops.Identity.SignedWorkloadIdentity
use reg_agent_ops.Identity.WorkloadIdentityStatement
use reg_agent_ops.Base.{
  Result, String, [], drop_last, eqb, err, len, length, ltb, nat_eq, not, ok, raise_if, select,
  string_eq, texts_eq, value_error, workload_identity_error, ℕ, ◌!=◌, ◌+++◌, ◌==◌, ◌>>=◌, ◌>>◌,
  ◌||◌, ◌∷◌,
}
use reg_agent_ops.Identity.Ed25519.{IdentitySigner, encode_b64url, signature_valid}
use reg_agent_ops.Identity.SignedWorkloadIdentity.{SignedWorkloadIdentity}
use reg_agent_ops.Identity.TrustKeyStatus.{TrustKeyStatus, trust_key_status_eq}
use reg_agent_ops.Identity.WorkloadIdentityStatement.{WorkloadIdentityStatement}
use reg_agent_ops.Identity.WorkloadIdentityTrustBundle.{WorkloadIdentityTrustBundle}
use reg_agent_ops.Identity.WorkloadIdentityTrustKey.{WorkloadIdentityTrustKey}
use reg_agent_ops.Models.Checks.{instant, or_raise, raise_if_less, raise_unless_less}
use reg_agent_ops.Models.DataClassification.{data_classification_eq}
use reg_agent_ops.Models.Decision.{decision_eq}
use reg_agent_ops.Models.Environment.{environment_eq}
use reg_agent_ops.Models.RiskTier.{risk_tier_eq}
use reg_agent_ops.Models.Value.{Platform, Value, canonical_json, dict, digest_artifact, text}

module _ ⦃p : Platform⦄ where
  unfoldable pub workload_signing_document : WorkloadIdentityStatement → String → String → Value
  workload_signing_document statement key_id algorithm = dict (
      ("purpose", text "regagentops.workload-identity.v1")
      ∷ ("institution_id", text statement.institution_id)
      ∷ ("agent_id", text statement.agent_id)
      ∷ ("human_owner_id", text statement.human_owner_id)
      ∷ ("workload_id", text statement.workload_id)
      ∷ ("statement_digest", text (WorkloadIdentityStatement.artifact_digest statement))
      ∷ ("key_id", text key_id)
      ∷ ("algorithm", text algorithm)
      ∷ [])

  unfoldable pub sign_workload_identity :
      WorkloadIdentityStatement → IdentitySigner → Result SignedWorkloadIdentity
  sign_workload_identity statement signer = do
    raise_if (signer.institution_id != statement.institution_id)
        (workload_identity_error "workload signer institution does not match statement institution")
    raise_if (signer.algorithm != "Ed25519")
        (workload_identity_error "v0.2 workload signer must use Ed25519")
    raise_if (eqb (len signer.key_id) 0 || ltb 256 (len signer.key_id))
        (workload_identity_error "workload signer key id must be bounded text")
    let document = workload_signing_document statement signer.key_id signer.algorithm
    let signature = signer.sign (canonical_json document)
    raise_if (not (eqb (length signature) 64))
        (workload_identity_error "Ed25519 signer must return a 64-byte signature")
    let signed : SignedWorkloadIdentity = record {
      statement = statement;
      key_id = signer.key_id;
      algorithm = signer.algorithm;
      signature_base64url = encode_b64url signature;
      signing_document_digest = digest_artifact document;
      schema_version = "regagentops.signed-workload-identity.v1";
    }
    SignedWorkloadIdentity.post_init signed
    ok signed

  -- `_parse_timestamp`, which lets the library's ValueError through
  unfoldable pub workload_time : String → Result ℕ
  workload_time value =
      or_raise (instant value) (value_error (p.isoformat_error (drop_last value +++ "+00:00")))

  -- `verify_workload_identity`, once the key has been found
  unfoldable pub verify_workload_with_key :
      WorkloadIdentityTrustKey → SignedWorkloadIdentity → String → Result WorkloadIdentityStatement
  verify_workload_with_key key signed now = do
    raise_if (key.status != TrustKeyStatus.active)
        (workload_identity_error "workload trust key is not active")
    raise_if (key.algorithm != signed.algorithm || signed.algorithm != "Ed25519")
        (workload_identity_error "workload signature algorithm does not match trust key")
    now_dt ← workload_time now
    issued_dt ← workload_time signed.statement.issued_at
    expires_dt ← workload_time signed.statement.expires_at
    key_start ← workload_time key.not_before
    key_end ← workload_time key.not_after
    raise_if_less now signed.statement.issued_at now_dt issued_dt
        (workload_identity_error "workload identity was issued in the future")
    raise_unless_less now signed.statement.expires_at now_dt expires_dt
        (workload_identity_error "workload identity is expired")
    let outside = workload_identity_error "workload trust key is outside its validity interval"
    raise_if_less signed.statement.issued_at key.not_before issued_dt key_start outside
    raise_unless_less signed.statement.issued_at key.not_after issued_dt key_end outside
    raise_if_less now key.not_before now_dt key_start outside
    raise_unless_less now key.not_after now_dt key_end outside
    let document = workload_signing_document signed.statement signed.key_id signed.algorithm
    raise_if (signed.signing_document_digest != digest_artifact document)
        (workload_identity_error "workload signing document digest mismatch")
    raise_if (not (signature_valid key.public_key_base64url signed.signature_base64url document))
        (workload_identity_error "workload identity signature is invalid")
    ok signed.statement

  unfoldable pub verify_workload_identity :
      SignedWorkloadIdentity
      → WorkloadIdentityTrustBundle
      → String
      → Result WorkloadIdentityStatement
  verify_workload_identity signed trust_bundle now = do
    raise_if (trust_bundle.institution_id != signed.statement.institution_id) (
        workload_identity_error
          "workload trust bundle institution does not match statement institution")
    elim (select (λ key. key.key_id == signed.key_id) trust_bundle.keys) [
      | key ∷ [] ↦ verify_workload_with_key key signed now
      | _ ↦ err (workload_identity_error "workload key id must resolve to exactly one trust key")
    ]
