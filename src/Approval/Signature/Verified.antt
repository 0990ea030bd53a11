-- ===== src/Approval/Signature/Verified.antt =====
-- What `verify_signed_approval` has checked when it returns.
use reg_agent_ops.Approval.ApprovalTrustKey
use reg_agent_ops.Approval.ApprovalKeyStatus.{ApprovalKeyStatus, approval_key_status_eq}
use reg_agent_ops.Approval.ApprovalStatement.{ApprovalStatement}
use reg_agent_ops.Approval.ApprovalTrustBundle.{ApprovalTrustBundle}
use reg_agent_ops.Approval.ApprovalTrustKey.{ApprovalTrustKey}
use reg_agent_ops.Approval.Checks.{decode}
use reg_agent_ops.Approval.Signature.{
  approval_signing_document, check_signature, verify_signed_approval, verify_with_key,
}
use reg_agent_ops.Approval.Signature.RoundTrip.{IsValidAt}
use reg_agent_ops.Approval.SignedApprovalStatement.{SignedApprovalStatement}
use reg_agent_ops.Base.{
  >>-eq-ok, >>=-eq-ok, List, Result-cases, String, [], approval_signature_error, arith, eq_of_bne,
  inl, inr, nat_eq, ok, ok-injective, one-cases, raise_if, raise_if-ok, select, string_eq, sym,
  texts_eq, true, ℕ, ◌!=◌, ◌&&◌, ◌==◌, ◌||◌, ◌∷◌, ◌≡◌,
}
use reg_agent_ops.Models.Checks.{
  raise_if_less, raise_if_less-ok, raise_unless_less, raise_unless_less-ok,
}
use reg_agent_ops.Models.DataClassification.{data_classification_eq}
use reg_agent_ops.Models.Decision.{decision_eq}
use reg_agent_ops.Models.Environment.{environment_eq}
use reg_agent_ops.Models.RiskTier.{risk_tier_eq}
use reg_agent_ops.Models.Value.{Platform, canonical_json, digest_artifact}

module _ ⦃p : Platform⦄ where
  -- The trust key's bytes verify the signature's on the signing document.
  pub record IsSigned (key : ApprovalTrustKey) (signed : SignedApprovalStatement) : Type 0 where
    pub public_key : List ℕ
    pub signature : List ℕ
    pub key_decoded : decode key.public_key_base64url ≡ ok public_key
    pub signature_decoded : decode signed.signature_base64url ≡ ok signature
    pub verified :
        p.ed25519_verify public_key signature (
          canonical_json
            (approval_signing_document signed.statement signed.key_id signed.algorithm))
        ≡ true

  check_signature-IsSigned :
      (key : ApprovalTrustKey) (signed : SignedApprovalStatement)
      → check_signature key signed
          (approval_signing_document signed.statement signed.key_id signed.algorithm)
        ≡ ok tt
      → IsSigned key signed
  unfolding check_signature
  check_signature-IsSigned key signed h = elim (Result-cases (decode key.public_key_base64url)) [
    | inr (e, bad) ↦ absurd (ground arith)
    | inl (public_key, key_decoded) ↦ elim (Result-cases (decode signed.signature_base64url)) [
      | inr (e, bad) ↦ absurd (ground arith)
      | inl (signature, signature_decoded) ↦ record {
        public_key = public_key;
        signature = signature;
        key_decoded = key_decoded;
        signature_decoded = signature_decoded;
        verified = ground arith;
      }
    ]
  ]

  -- What has been checked against one trust key.
  pub record IsVerified (key : ApprovalTrustKey) (signed : SignedApprovalStatement) (at : String)
      (statement : ApprovalStatement) : Type 0 where
    pub returned : statement ≡ signed.statement
    pub active : key.status ≡ ApprovalKeyStatus.active
    pub algorithm : signed.algorithm ≡ "Ed25519"
    pub valid : IsValidAt key signed.statement at
    pub document :
        signed.signing_document_digest
        ≡ digest_artifact
            (approval_signing_document signed.statement signed.key_id signed.algorithm)
    pub by_key : IsSigned key signed

  verify_with_key-IsVerified :
      (key : ApprovalTrustKey) (signed : SignedApprovalStatement) (at : String)
      {statement : ApprovalStatement}
      → verify_with_key key signed at ≡ ok statement
      → IsVerified key signed at statement
  unfolding verify_with_key
  verify_with_key-IsVerified key signed at h =
      let (is_active, h₁) = >>-eq-ok (raise_if (key.status != ApprovalKeyStatus.active) _) _ h in
      let (same_algorithm, h₂) =
        >>-eq-ok (raise_if (key.algorithm != signed.algorithm || signed.algorithm != "Ed25519") _) _
          h₁ in
      let (now, now_parsed, h₃) = >>=-eq-ok (ApprovalTrustKey.parse_time at) _ h₂ in
      let (issued, issued_parsed, h₄) =
        >>=-eq-ok (ApprovalTrustKey.parse_time signed.statement.issued_at) _ h₃ in
      let (expires, expires_parsed, h₅) =
        >>=-eq-ok (ApprovalTrustKey.parse_time signed.statement.expires_at) _ h₄ in
      let (key_start, key_start_parsed, h₆) =
        >>=-eq-ok (ApprovalTrustKey.parse_time key.not_before) _ h₅ in
      let (key_end, key_end_parsed, h₇) =
        >>=-eq-ok (ApprovalTrustKey.parse_time key.not_after) _ h₆ in
      let document = approval_signing_document signed.statement signed.key_id signed.algorithm in
      let expired = approval_signature_error "approval statement is expired or not yet valid" in
      let outside =
        approval_signature_error "approval trust key is outside its validity interval" in
      let (started, h₈) =
        >>-eq-ok (raise_if_less at signed.statement.issued_at now issued expired) _ h₇ in
      let (not_late, h₉) =
        >>-eq-ok (raise_unless_less at signed.statement.expires_at now expires expired) _ h₈ in
      let (issued_alike, issued_before) =
        raise_if_less-ok at signed.statement.issued_at now issued expired started in
      let (expires_alike, unexpired) =
        raise_unless_less-ok at signed.statement.expires_at now expires expired not_late in
      let (key_before, h₁₀) =
        >>-eq-ok (raise_if_less signed.statement.issued_at key.not_before issued key_start outside)
          _ h₉ in
      let (_, h₁₁) =
        >>-eq-ok (raise_unless_less signed.statement.issued_at key.not_after issued key_end outside)
          _ h₁₀ in
      let (key_begun, h₁₂) =
        >>-eq-ok (raise_if_less at key.not_before now key_start outside) _ h₁₁ in
      let (key_after, h₁₃) =
        >>-eq-ok (raise_unless_less at key.not_after now key_end outside) _ h₁₂ in
      let (key_end_alike, key_unexpired) =
        raise_unless_less-ok at key.not_after now key_end outside key_after in
      let (bound, h₁₄) =
        >>-eq-ok (raise_if (signed.signing_document_digest != digest_artifact document) _) _ h₁₃ in
      let (checked, h₁₅) = >>-eq-ok (check_signature key signed document) _ h₁₄ in
      record {
        returned = sym (ok-injective h₁₅);
        active = eq_of_bne key.status ApprovalKeyStatus.active (raise_if-ok _ _ is_active);
        algorithm =
            eq_of_bne signed.algorithm "Ed25519" (ground (arith, raise_if-ok _ _ same_algorithm));
        valid = record {
          now = now;
          issued = issued;
          expires = expires;
          key_start = key_start;
          key_end = key_end;
          now_parsed = now_parsed;
          issued_parsed = issued_parsed;
          expires_parsed = expires_parsed;
          key_start_parsed = key_start_parsed;
          key_end_parsed = key_end_parsed;
          issued_alike = issued_alike;
          expires_alike = expires_alike;
          key_start_alike = (raise_if_less-ok at key.not_before now key_start outside key_begun).0;
          key_end_alike = key_end_alike;
          issued_before = issued_before;
          unexpired = unexpired;
          key_started =
              (raise_if_less-ok signed.statement.issued_at key.not_before issued key_start outside
                key_before).1;
          key_unexpired = key_unexpired;
        };
        document =
            eq_of_bne signed.signing_document_digest (digest_artifact document)
              (raise_if-ok _ _ bound);
        by_key = check_signature-IsSigned key signed checked;
      }

  -- When verification returns, it returns the signed statement, and one trust key of the bundle alone
  -- has the approver and the key id; that key is active, is valid with the statement at the time of
  -- the verification, and its bytes verify the signature on the document built from the statement.
  pub verify_signed_approval-IsVerified :
      (signed : SignedApprovalStatement) (trust : ApprovalTrustBundle) (at : String)
      {statement : ApprovalStatement}
      → verify_signed_approval signed trust at ≡ ok statement
      → (key : ApprovalTrustKey) × (select
            (λ k. k.principal_id == signed.statement.approver_id && k.key_id == signed.key_id)
            trust.keys
          ≡ key ∷ [])
        × IsVerified key signed at statement
  unfolding verify_signed_approval
  verify_signed_approval-IsVerified signed trust at h =
      elim (one-cases (
        select (λ k. k.principal_id == signed.statement.approver_id && k.key_id == signed.key_id)
          trust.keys)) [
            | inl (key, only) ↦ (key, only, verify_with_key-IsVerified key signed at (ground arith))
            | inr (inl empty) ↦ absurd (ground arith)
            | inr (inr (a, b, rest, more)) ↦ absurd (ground arith)
          ]
