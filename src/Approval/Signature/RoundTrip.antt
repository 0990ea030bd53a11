-- ===== src/Approval/Signature/RoundTrip.antt =====
-- What `sign_approval_statement` signs, `verify_signed_approval` accepts.
use reg_agent_ops.Approval.ApprovalTrustKey
use reg_agent_ops.Approval.ApprovalKeyStatus.{ApprovalKeyStatus, approval_key_status_eq}
use reg_agent_ops.Approval.ApprovalStatement.{ApprovalStatement}
use reg_agent_ops.Approval.ApprovalTrustBundle.{ApprovalTrustBundle}
use reg_agent_ops.Approval.ApprovalTrustKey.{ApprovalTrustKey}
use reg_agent_ops.Approval.Checks.{decode, padding}
use reg_agent_ops.Approval.Signature.{
  ApprovalSigner, approval_signing_document, check_signature, encode_bytes, sign_approval_statement,
  verify_signed_approval, verify_with_key,
}
use reg_agent_ops.Approval.SignedApprovalStatement.{SignedApprovalStatement}
use reg_agent_ops.Base.{
  List, String, [], approval_signature_error, arith, beq_self, contains_code, eq_of_bne, false,
  nat_eq, ok, refl, select, some, string_eq, strip_equals, sym, texts_eq, true, ℕ, ◌!=◌, ◌&&◌,
  ◌+++◌, ◌<◌, ◌==◌, ◌||◌, ◌∙◌, ◌∷◌, ◌≡◌, ◌≤◌,
}
use reg_agent_ops.Mcp.EnforcementPoint.{message}
use reg_agent_ops.Models.Checks.{is_aware, raise_if_less-passes, raise_unless_less-passes}
use reg_agent_ops.Models.DataClassification.{data_classification_eq}
use reg_agent_ops.Models.Decision.{decision_eq}
use reg_agent_ops.Models.Environment.{environment_eq}
use reg_agent_ops.Models.RiskTier.{risk_tier_eq}
use reg_agent_ops.Models.Value.{Platform, canonical_json, digest_artifact}

same_algorithm : (a b : String) → a ≡ "Ed25519" → b ≡ "Ed25519" → (a != b || b != "Ed25519") ≡ false
same_algorithm a b h k = rw (h, k) refl

module _ ⦃p : Platform⦄ where
  -- The signer holds the private key of the trust key, and base64 gives its signatures back: the
  -- encoded signature has `=` at its end alone, and decodes to what was encoded.
  pub record IsSignerOf (key : ApprovalTrustKey) (signer : ApprovalSigner) : Type 0 where
    pub public_key : List ℕ
    pub decoded : decode key.public_key_base64url ≡ ok public_key
    pub verifies :
        (message : String) → p.ed25519_verify public_key (signer.sign message) message ≡ true
    pub unpadded :
        (message : String)
        → contains_code b'=' (strip_equals (p.urlsafe_b64encode (signer.sign message))) ≡ false
    pub inverse :
        (message : String)
        → p.urlsafe_b64decode (
            strip_equals (p.urlsafe_b64encode (signer.sign message))
            +++ padding (strip_equals (p.urlsafe_b64encode (signer.sign message))))
          ≡ some (signer.sign message)

  -- At a time, the statement and the key are both valid. Either none of the five times is naive, or
  -- all are: others cannot be compared.
  pub record IsValidAt (key : ApprovalTrustKey) (statement : ApprovalStatement) (at : String)
      : Type 0 where
    pub now : ℕ
    pub issued : ℕ
    pub expires : ℕ
    pub key_start : ℕ
    pub key_end : ℕ
    pub now_parsed : ApprovalTrustKey.parse_time at ≡ ok now
    pub issued_parsed : ApprovalTrustKey.parse_time statement.issued_at ≡ ok issued
    pub expires_parsed : ApprovalTrustKey.parse_time statement.expires_at ≡ ok expires
    pub key_start_parsed : ApprovalTrustKey.parse_time key.not_before ≡ ok key_start
    pub key_end_parsed : ApprovalTrustKey.parse_time key.not_after ≡ ok key_end
    pub issued_alike : is_aware at ≡ is_aware statement.issued_at
    pub expires_alike : is_aware at ≡ is_aware statement.expires_at
    pub key_start_alike : is_aware at ≡ is_aware key.not_before
    pub key_end_alike : is_aware at ≡ is_aware key.not_after
    pub issued_before : issued ≤ now
    pub unexpired : now < expires
    pub key_started : key_start ≤ issued
    pub key_unexpired : now < key_end

  module _ (key : ApprovalTrustKey) (signer : ApprovalSigner) (holds : IsSignerOf key signer) where
    signature_decoded :
        (message : String) → decode (encode_bytes (signer.sign message)) ≡ ok (signer.sign message)
    unfolding decode encode_bytes
    signature_decoded message = rw (holds.unpadded message, holds.inverse message)

    -- the record that signing builds
    abbrev signed_by : ApprovalStatement → SignedApprovalStatement
    signed_by statement =
        let document = approval_signing_document statement signer.key_id signer.algorithm in
        record {
          statement = statement;
          key_id = signer.key_id;
          algorithm = signer.algorithm;
          signature_base64url = encode_bytes (signer.sign (canonical_json document));
          signing_document_digest = digest_artifact document;
          schema_version = "regagentops.signed-approval-statement.v1";
        }

    signed_by-checks :
        (statement : ApprovalStatement)
        → check_signature key
            (signed_by statement)
            (approval_signing_document statement signer.key_id signer.algorithm)
          ≡ ok tt
    unfolding check_signature
    signed_by-checks statement =
        let message =
          canonical_json (approval_signing_document statement signer.key_id signer.algorithm) in
        rw (check_signature, holds.decoded, signature_decoded message, holds.verifies message)

    signed_by-verifies :
        (statement : ApprovalStatement) (at : String)
        → key.status ≡ ApprovalKeyStatus.active
        → key.algorithm ≡ "Ed25519"
        → signer.algorithm ≡ "Ed25519"
        → IsValidAt key statement at
        → verify_with_key key (signed_by statement) at ≡ ok statement
    unfolding verify_with_key
    signed_by-verifies statement at active algorithm signer_algorithm v =
        let document = approval_signing_document statement signer.key_id signer.algorithm in
        let expired = approval_signature_error "approval statement is expired or not yet valid" in
        let outside =
          approval_signature_error "approval trust key is outside its validity interval" in
        ground (
          arith,
          same_algorithm key.algorithm signer.algorithm algorithm signer_algorithm,
          v.now_parsed,
          v.issued_parsed,
          v.expires_parsed,
          v.key_start_parsed,
          v.key_end_parsed,
          raise_if_less-passes at statement.issued_at v.now v.issued expired v.issued_alike
              v.issued_before,
          raise_unless_less-passes at statement.expires_at v.now v.expires expired v.expires_alike
              v.unexpired,
          raise_if_less-passes statement.issued_at key.not_before v.issued v.key_start outside
              (sym v.issued_alike ∙ v.key_start_alike) v.key_started,
          raise_unless_less-passes statement.issued_at key.not_after v.issued v.key_end outside
              (sym v.issued_alike ∙ v.key_end_alike)
              (omega (arith, v.issued_before, v.key_unexpired)),
          raise_if_less-passes at key.not_before v.now v.key_start outside v.key_start_alike
              (omega (arith, v.issued_before, v.key_started)),
          raise_unless_less-passes at key.not_after v.now v.key_end outside v.key_end_alike
              v.key_unexpired,
          beq_self (digest_artifact document),
          signed_by-checks statement,
        )

    sign-inverts :
        (statement : ApprovalStatement) {signed : SignedApprovalStatement}
        → sign_approval_statement statement signer ≡ ok signed
        → (signed ≡ signed_by statement)
          × (signer.algorithm ≡ "Ed25519")
          × (signer.principal_id ≡ statement.approver_id)
    unfolding sign_approval_statement
    sign-inverts statement h = ground (
      arith,
      eq_of_bne signer.algorithm "Ed25519",
      eq_of_bne signer.principal_id statement.approver_id,
    )

    -- Where the signer holds the private key of a trust key and base64 gives its signatures back,
    -- and the trust key is active, is for Ed25519 and is the only one with its principal and id in a
    -- bundle of the statement's institution: a statement that it signs is verified, at any time at
    -- which the statement and the key are valid and with which their times can be compared, and
    -- verification returns the statement.
    pub sign-verify :
        (statement : ApprovalStatement) (trust : ApprovalTrustBundle) (at : String)
        {signed : SignedApprovalStatement}
        → trust.institution_id ≡ statement.institution_id
        → select
            (λ k. k.principal_id == signer.principal_id && k.key_id == signer.key_id)
            trust.keys
          ≡ key ∷ []
        → key.status ≡ ApprovalKeyStatus.active
        → key.algorithm ≡ "Ed25519"
        → IsValidAt key statement at
        → sign_approval_statement statement signer ≡ ok signed
        → verify_signed_approval signed trust at ≡ ok statement
    unfolding verify_signed_approval
    sign-verify statement trust at institution only active algorithm v h =
        let (made, signer_algorithm, principal) = sign-inverts statement h in
        rw made (
          ground (
            arith,
            beq_self statement.institution_id,
            signed_by-verifies statement at active algorithm signer_algorithm v,
          ))
