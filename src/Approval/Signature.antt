-- ===== src/Approval/Signature.antt =====
-- approval_signature.py: the signing document, the signature and its verification.
pub mod RoundTrip
pub mod Verified
use reg_agent_ops.Approval.ApprovalStatement
use reg_agent_ops.Approval.ApprovalTrustKey
use reg_agent_ops.Approval.SignedApprovalStatement
use reg_agent_ops.Approval.ApprovalKeyStatus.{ApprovalKeyStatus, approval_key_status_eq}
use reg_agent_ops.Approval.ApprovalStatement.{ApprovalStatement}
use reg_agent_ops.Approval.ApprovalTrustBundle.{ApprovalTrustBundle}
use reg_agent_ops.Approval.ApprovalTrustKey.{ApprovalTrustKey}
use reg_agent_ops.Approval.Checks.{decode}
use reg_agent_ops.Approval.SignedApprovalStatement.{SignedApprovalStatement}
use reg_agent_ops.Base.{
  List, Result, String, [], approval_signature_error, eqb, err, length, nat_eq, not, ok, raise_if,
  select, string_eq, strip_equals, texts_eq, value_error, ℕ, ◌!=◌, ◌&&◌, ◌==◌, ◌>>=◌, ◌>>◌, ◌||◌,
  ◌∷◌,
}
use reg_agent_ops.Models.Checks.{raise_if_less, raise_unless_less}
use reg_agent_ops.Models.DataClassification.{data_classification_eq}
use reg_agent_ops.Models.Decision.{decision_eq}
use reg_agent_ops.Models.Environment.{environment_eq}
use reg_agent_ops.Models.RiskTier.{risk_tier_eq}
use reg_agent_ops.Models.Value.{Platform, Value, canonical_json, dict, digest_artifact, text}

-- The protocol `ApprovalSigner`.
pub record ApprovalSigner : Type 0 where
  pub institution_id : String
  pub principal_id : String
  pub key_id : String
  pub algorithm : String
  pub sign : String → List ℕ

module _ ⦃p : Platform⦄ where
  unfoldable pub approval_signing_document : ApprovalStatement → String → String → Value
  approval_signing_document statement key_id algorithm = dict (
      ("purpose", text "regagentops.human-approval.v1")
      ∷ ("institution_id", text statement.institution_id)
      ∷ ("approval_id", text statement.approval_id)
      ∷ ("approver_id", text statement.approver_id)
      ∷ ("requirement_digest", text statement.requirement_digest)
      ∷ ("request_digest", text statement.request_digest)
      ∷ ("authority_grant_digest", text statement.authority_grant_digest)
      ∷ ("statement_digest", text (ApprovalStatement.artifact_digest statement))
      ∷ ("key_id", text key_id)
      ∷ ("algorithm", text algorithm)
      ∷ [])

  -- `_encode`
  unfoldable pub encode_bytes : List ℕ → String
  encode_bytes value = strip_equals (p.urlsafe_b64encode value)

  unfoldable pub sign_approval_statement :
      ApprovalStatement → ApprovalSigner → Result SignedApprovalStatement
  sign_approval_statement statement signer = do
    raise_if (signer.institution_id != statement.institution_id)
        (approval_signature_error "approval signer institution mismatch")
    raise_if (signer.principal_id != statement.approver_id)
        (approval_signature_error "approval signer principal mismatch")
    raise_if (signer.algorithm != "Ed25519")
        (approval_signature_error "v0.3 approval signer must use Ed25519")
    let document = approval_signing_document statement signer.key_id signer.algorithm
    let signature = signer.sign (canonical_json document)
    raise_if (not (eqb (length signature) 64))
        (approval_signature_error "approval signer must return a 64-byte Ed25519 signature")
    let signed : SignedApprovalStatement = record {
      statement = statement;
      key_id = signer.key_id;
      algorithm = signer.algorithm;
      signature_base64url = encode_bytes signature;
      signing_document_digest = digest_artifact document;
      schema_version = "regagentops.signed-approval-statement.v1";
    }
    SignedApprovalStatement.post_init signed
    ok signed

  -- `try: ... except (ValueError, InvalidSignature): raise ApprovalSignatureError(...)`
  unfoldable pub check_signature :
      ApprovalTrustKey → SignedApprovalStatement → Value → Result (Unit {0})
  check_signature key signed document =
      elim (do
        public_key ← decode key.public_key_base64url
        signature ← decode signed.signature_base64url
        raise_if (not (p.ed25519_verify public_key signature (canonical_json document)))
            (value_error "InvalidSignature")) [
              | ok _ ↦ ok tt
              | err _ ↦ err (approval_signature_error "approval signature is invalid")
            ]

  -- `verify_signed_approval`, once the key has been found
  unfoldable pub verify_with_key :
      ApprovalTrustKey → SignedApprovalStatement → String → Result ApprovalStatement
  verify_with_key key signed now = do
    raise_if (key.status != ApprovalKeyStatus.active)
        (approval_signature_error "approval trust key is not active")
    raise_if (key.algorithm != signed.algorithm || signed.algorithm != "Ed25519")
        (approval_signature_error "approval signature algorithm mismatch")
    now_dt ← ApprovalTrustKey.parse_time now
    issued ← ApprovalTrustKey.parse_time signed.statement.issued_at
    expires ← ApprovalTrustKey.parse_time signed.statement.expires_at
    key_start ← ApprovalTrustKey.parse_time key.not_before
    key_end ← ApprovalTrustKey.parse_time key.not_after
    let expired = approval_signature_error "approval statement is expired or not yet valid"
    raise_if_less now signed.statement.issued_at now_dt issued expired
    raise_unless_less now signed.statement.expires_at now_dt expires expired
    let outside = approval_signature_error "approval trust key is outside its validity interval"
    raise_if_less signed.statement.issued_at key.not_before issued key_start outside
    raise_unless_less signed.statement.issued_at key.not_after issued key_end outside
    raise_if_less now key.not_before now_dt key_start outside
    raise_unless_less now key.not_after now_dt key_end outside
    let document = approval_signing_document signed.statement signed.key_id signed.algorithm
    raise_if (signed.signing_document_digest != digest_artifact document)
        (approval_signature_error "approval signing document digest mismatch")
    check_signature key signed document
    ok signed.statement

  unfoldable pub verify_signed_approval :
      SignedApprovalStatement → ApprovalTrustBundle → String → Result ApprovalStatement
  verify_signed_approval signed trust_bundle now = do
    raise_if (trust_bundle.institution_id != signed.statement.institution_id)
        (approval_signature_error "approval trust bundle institution mismatch")
    elim (select
        (λ key. key.principal_id == signed.statement.approver_id && key.key_id == signed.key_id)
        trust_bundle.keys) [
          | key ∷ [] ↦ verify_with_key key signed now
          | _ ↦ err (approval_signature_error "approval key must resolve uniquely for the approver")
        ]
