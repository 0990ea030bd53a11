-- ===== src/Identity/Workload/Verified.antt =====
-- What `verify_workload_identity` has checked when it returns.
use reg_agent_ops.Base.{
  >>-eq-ok, >>=-eq-ok, String, arith, eq_of_bne, inl, inr, nat_eq, not, ok, ok-injective, one-cases,
  raise_if, raise_if-ok, select, string_eq, sym, texts_eq, ℕ, ◌!=◌, ◌<◌, ◌==◌, ◌||◌, ◌≡◌, ◌≤◌,
}
use reg_agent_ops.Identity.Ed25519.{signature_valid}
use reg_agent_ops.Identity.Ed25519.Trusted.{
  IsOnlyKey, IsSignatureOf, IsUsable, signature_valid-IsSignatureOf,
}
use reg_agent_ops.Identity.SignedWorkloadIdentity.{SignedWorkloadIdentity}
use reg_agent_ops.Identity.TrustKeyStatus.{TrustKeyStatus, trust_key_status_eq}
use reg_agent_ops.Identity.Workload.{
  verify_workload_identity, verify_workload_with_key, workload_signing_document, workload_time,
}
use reg_agent_ops.Identity.WorkloadIdentityStatement.{WorkloadIdentityStatement}
use reg_agent_ops.Identity.WorkloadIdentityTrustBundle.{WorkloadIdentityTrustBundle}
use reg_agent_ops.Identity.WorkloadIdentityTrustKey.{WorkloadIdentityTrustKey}
use reg_agent_ops.Models.Checks.{
  raise_if_less, raise_if_less-ok, raise_unless_less, raise_unless_less-ok,
}
use reg_agent_ops.Models.DataClassification.{data_classification_eq}
use reg_agent_ops.Models.Decision.{decision_eq}
use reg_agent_ops.Models.Environment.{environment_eq}
use reg_agent_ops.Models.RiskTier.{risk_tier_eq}
use reg_agent_ops.Models.Value.{Platform, digest_artifact}

module _ ⦃p : Platform⦄ where
  -- What has been checked against one trust key.
  pub record IsVerifiedWorkload (key : WorkloadIdentityTrustKey) (signed : SignedWorkloadIdentity)
      (at : String) (statement : WorkloadIdentityStatement) : Type 0 where
    pub returned : statement ≡ signed.statement
    pub algorithm : signed.algorithm ≡ "Ed25519"
    pub now : ℕ
    pub issued : ℕ
    pub expires : ℕ
    pub now_parsed : workload_time at ≡ ok now
    pub issued_parsed : workload_time signed.statement.issued_at ≡ ok issued
    pub expires_parsed : workload_time signed.statement.expires_at ≡ ok expires
    pub begun : issued ≤ now
    pub unexpired : now < expires
    pub usable : IsUsable key workload_time issued now
    pub document :
        signed.signing_document_digest
        ≡ digest_artifact
            (workload_signing_document signed.statement signed.key_id signed.algorithm)
    pub by_key :
        IsSignatureOf key.public_key_base64url signed.signature_base64url
          (workload_signing_document signed.statement signed.key_id signed.algorithm)

  verify_workload_with_key-IsVerifiedWorkload :
      (key : WorkloadIdentityTrustKey) (signed : SignedWorkloadIdentity) (at : String)
      {statement : WorkloadIdentityStatement}
      → verify_workload_with_key key signed at ≡ ok statement
      → IsVerifiedWorkload key signed at statement
  unfolding verify_workload_with_key
  verify_workload_with_key-IsVerifiedWorkload key signed at h =
      let document = workload_signing_document signed.statement signed.key_id signed.algorithm in
      let (is_active, h₁) = >>-eq-ok (raise_if (key.status != TrustKeyStatus.active) _) _ h in
      let (same_algorithm, h₂) =
        >>-eq-ok (raise_if (key.algorithm != signed.algorithm || signed.algorithm != "Ed25519") _) _
          h₁ in
      let (now, now_parsed, h₃) = >>=-eq-ok (workload_time at) _ h₂ in
      let (issued, issued_parsed, h₄) = >>=-eq-ok (workload_time signed.statement.issued_at) _ h₃ in
      let (expires, expires_parsed, h₅) =
        >>=-eq-ok (workload_time signed.statement.expires_at) _ h₄ in
      let (key_start, key_start_parsed, h₆) = >>=-eq-ok (workload_time key.not_before) _ h₅ in
      let (key_end, key_end_parsed, h₇) = >>=-eq-ok (workload_time key.not_after) _ h₆ in
      let (begun, h₈) = >>-eq-ok (raise_if_less _ _ _ _ _) _ h₇ in
      let (unexpired, h₉) = >>-eq-ok (raise_unless_less _ _ _ _ _) _ h₈ in
      let (key_before, h₁₀) = >>-eq-ok (raise_if_less _ _ _ _ _) _ h₉ in
      let (_, h₁₁) = >>-eq-ok (raise_unless_less _ _ _ _ _) _ h₁₀ in
      let (_, h₁₂) = >>-eq-ok (raise_if_less _ _ _ _ _) _ h₁₁ in
      let (key_after, h₁₃) = >>-eq-ok (raise_unless_less _ _ _ _ _) _ h₁₂ in
      let (bound, h₁₄) =
        >>-eq-ok (raise_if (signed.signing_document_digest != digest_artifact document) _) _ h₁₃ in
      let (signature, h₁₅) =
        >>-eq-ok
          (raise_if
            (not (signature_valid key.public_key_base64url signed.signature_base64url document)) _)
          _ h₁₄ in
      record {
        returned = sym (ok-injective h₁₅);
        algorithm =
            eq_of_bne signed.algorithm "Ed25519" (ground (arith, raise_if-ok _ _ same_algorithm));
        now = now;
        issued = issued;
        expires = expires;
        now_parsed = now_parsed;
        issued_parsed = issued_parsed;
        expires_parsed = expires_parsed;
        begun = (raise_if_less-ok _ _ _ _ _ begun).1;
        unexpired = (raise_unless_less-ok _ _ _ _ _ unexpired).1;
        usable = record {
          active = eq_of_bne key.status TrustKeyStatus.active (raise_if-ok _ _ is_active);
          key_start = key_start;
          key_end = key_end;
          start_parsed = key_start_parsed;
          end_parsed = key_end_parsed;
          key_started = (raise_if_less-ok _ _ _ _ _ key_before).1;
          key_unexpired = (raise_unless_less-ok _ _ _ _ _ key_after).1;
        };
        document =
            eq_of_bne signed.signing_document_digest (digest_artifact document)
              (raise_if-ok _ _ bound);
        by_key =
            signature_valid-IsSignatureOf key.public_key_base64url signed.signature_base64url
              document (ground (arith, raise_if-ok _ _ signature));
      }

  -- When the verification of a workload returns, it returns the statement that was signed, and one
  -- key of the trust bundle alone has the key id; that key is active, it and the statement are valid
  -- at the time of the verification, and its bytes verify the signature on the document built from
  -- the statement.
  pub verify_workload_identity-IsVerifiedWorkload :
      (signed : SignedWorkloadIdentity) (trust : WorkloadIdentityTrustBundle) (at : String)
      {statement : WorkloadIdentityStatement}
      → verify_workload_identity signed trust at ≡ ok statement
      → (key : WorkloadIdentityTrustKey) × IsOnlyKey trust signed.key_id key
        × IsVerifiedWorkload key signed at statement
  unfolding verify_workload_identity
  verify_workload_identity-IsVerifiedWorkload signed trust at h =
      elim (one-cases (select (λ k. k.key_id == signed.key_id) trust.keys)) [
        | inl (key, only) ↦
            (key, only, verify_workload_with_key-IsVerifiedWorkload key signed at (ground arith))
        | inr (inl empty) ↦ absurd (ground arith)
        | inr (inr (a, b, rest, more)) ↦ absurd (ground arith)
      ]
