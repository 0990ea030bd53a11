-- ===== src/Identity/Context/Verified.antt =====
-- What `verify_signed_authenticated_agent_identity` has checked when it returns.
use reg_agent_ops.Base.{
  >>-eq-ok, >>=-eq-ok, String, arith, eq_of_bne, identity_signature_error, inl, inr, nat_eq, not,
  ok, ok-injective, one-cases, raise_if, raise_if-ok, select, string_eq, sym, texts_eq, ℕ, ◌!=◌,
  ◌<◌, ◌==◌, ◌||◌, ◌≡◌, ◌≤◌,
}
use reg_agent_ops.Identity.AuthenticatedAgentIdentity.{AuthenticatedAgentIdentity}
use reg_agent_ops.Identity.Context.{
  authenticated_identity_signing_document, context_time, verify_context_with_key,
  verify_signed_authenticated_agent_identity,
}
use reg_agent_ops.Identity.Ed25519.{signature_valid}
use reg_agent_ops.Identity.Ed25519.Trusted.{
  IsOnlyKey, IsSignatureOf, IsUsable, signature_valid-IsSignatureOf,
}
use reg_agent_ops.Identity.SignedAuthenticatedAgentIdentity.{SignedAuthenticatedAgentIdentity}
use reg_agent_ops.Identity.TrustKeyStatus.{TrustKeyStatus, trust_key_status_eq}
use reg_agent_ops.Identity.WorkloadIdentityTrustBundle.{WorkloadIdentityTrustBundle}
use reg_agent_ops.Identity.WorkloadIdentityTrustKey.{WorkloadIdentityTrustKey}
use reg_agent_ops.Models.Checks.{
  is_aware, raise_if_less, raise_if_less-ok, raise_unless_less, raise_unless_less-ok,
}
use reg_agent_ops.Models.DataClassification.{data_classification_eq}
use reg_agent_ops.Models.Decision.{decision_eq}
use reg_agent_ops.Models.Environment.{environment_eq}
use reg_agent_ops.Models.RiskTier.{risk_tier_eq}
use reg_agent_ops.Models.Value.{Platform, digest_artifact}

module _ ⦃p : Platform⦄ where
  -- What has been checked against one trust key.
  pub record IsVerifiedContext (key : WorkloadIdentityTrustKey)
      (signed : SignedAuthenticatedAgentIdentity) (at : String)
      (identity : AuthenticatedAgentIdentity) : Type 0 where
    pub returned : identity ≡ signed.identity
    pub algorithm : signed.algorithm ≡ "Ed25519"
    pub now : ℕ
    pub established : ℕ
    pub valid_until : ℕ
    pub now_parsed : context_time at ≡ ok now
    pub established_parsed : context_time signed.identity.established_at ≡ ok established
    pub valid_until_parsed : context_time signed.identity.valid_until ≡ ok valid_until
    pub established_comparable : is_aware at ≡ is_aware signed.identity.established_at
    pub valid_until_comparable : is_aware at ≡ is_aware signed.identity.valid_until
    pub begun : established ≤ now
    pub unexpired : now < valid_until
    pub usable : IsUsable key context_time established now
    pub document :
        signed.signing_document_digest
        ≡ digest_artifact
            (authenticated_identity_signing_document signed.identity signed.key_id signed.algorithm)
    pub by_key :
        IsSignatureOf key.public_key_base64url signed.signature_base64url
          (authenticated_identity_signing_document signed.identity signed.key_id signed.algorithm)

  verify_context_with_key-IsVerifiedContext :
      (key : WorkloadIdentityTrustKey) (signed : SignedAuthenticatedAgentIdentity) (at : String)
      {identity : AuthenticatedAgentIdentity}
      → verify_context_with_key key signed at ≡ ok identity
      → IsVerifiedContext key signed at identity
  unfolding verify_context_with_key
  verify_context_with_key-IsVerifiedContext key signed at h =
      let document =
        authenticated_identity_signing_document signed.identity signed.key_id signed.algorithm in
      let (is_active, h₁) = >>-eq-ok (raise_if (key.status != TrustKeyStatus.active) _) _ h in
      let (same_algorithm, h₂) =
        >>-eq-ok (raise_if (key.algorithm != signed.algorithm || signed.algorithm != "Ed25519") _) _
          h₁ in
      let (now, now_parsed, h₃) = >>=-eq-ok (context_time at) _ h₂ in
      let (established, established_parsed, h₄) =
        >>=-eq-ok (context_time signed.identity.established_at) _ h₃ in
      let (valid_until, valid_until_parsed, h₅) =
        >>=-eq-ok (context_time signed.identity.valid_until) _ h₄ in
      let (key_start, key_start_parsed, h₆) = >>=-eq-ok (context_time key.not_before) _ h₅ in
      let (key_end, key_end_parsed, h₇) = >>=-eq-ok (context_time key.not_after) _ h₆ in
      let expired = identity_signature_error "authenticated context is expired or not yet valid" in
      let outside = identity_signature_error "context trust key is outside its validity interval" in
      let (not_early, h₈) =
        >>-eq-ok (raise_if_less at signed.identity.established_at now established expired) _ h₇ in
      let (not_late, h₉) =
        >>-eq-ok (raise_unless_less at signed.identity.valid_until now valid_until expired) _ h₈ in
      let (established_comparable, begun) =
        raise_if_less-ok at signed.identity.established_at now established expired not_early in
      let (valid_until_comparable, unexpired) =
        raise_unless_less-ok at signed.identity.valid_until now valid_until expired not_late in
      let (key_before, h₁₀) =
        >>-eq-ok
          (raise_if_less signed.identity.established_at key.not_before established key_start
            outside)
          _ h₉ in
      let (_, h₁₁) =
        >>-eq-ok
          (raise_unless_less signed.identity.established_at key.not_after established key_end
            outside)
          _ h₁₀ in
      let (_, h₁₂) = >>-eq-ok (raise_if_less at key.not_before now key_start outside) _ h₁₁ in
      let (key_after, h₁₃) =
        >>-eq-ok (raise_unless_less at key.not_after now key_end outside) _ h₁₂ in
      let (bound, h₁₄) =
        >>-eq-ok (raise_if (signed.signing_document_digest != digest_artifact document) _) _ h₁₃ in
      let (signature, h₁₅) =
        >>-eq-ok
          (raise_if
            (not (signature_valid key.public_key_base64url signed.signature_base64url document)) _)
          _ h₁₄ in
      record {
        returned = sym (ok-injective h₁₅);
        algorithm =
            eq_of_bne signed.algorithm "Ed25519" (ground (arith, raise_if-ok _ _ same_algorithm));
        now = now;
        established = established;
        valid_until = valid_until;
        now_parsed = now_parsed;
        established_parsed = established_parsed;
        valid_until_parsed = valid_until_parsed;
        established_comparable = established_comparable;
        valid_until_comparable = valid_until_comparable;
        begun = begun;
        unexpired = unexpired;
        usable = record {
          active = eq_of_bne key.status TrustKeyStatus.active (raise_if-ok _ _ is_active);
          key_start = key_start;
          key_end = key_end;
          start_parsed = key_start_parsed;
          end_parsed = key_end_parsed;
          key_started =
              (raise_if_less-ok signed.identity.established_at key.not_before established key_start
                outside key_before).1;
          key_unexpired = (raise_unless_less-ok at key.not_after now key_end outside key_after).1;
        };
        document =
            eq_of_bne signed.signing_document_digest (digest_artifact document)
              (raise_if-ok _ _ bound);
        by_key =
            signature_valid-IsSignatureOf key.public_key_base64url signed.signature_base64url
              document (ground (arith, raise_if-ok _ _ signature));
      }

  -- When the verification of a signed agent identity returns, it returns the identity that was signed,
  -- and one key of the trust bundle alone has the key id; that key is active, it and the identity are
  -- valid at the time of the verification, and its bytes verify the signature on the document built
  -- from the identity.
  pub verify_signed_authenticated_agent_identity-IsVerifiedContext :
      (signed : SignedAuthenticatedAgentIdentity) (trust : WorkloadIdentityTrustBundle)
      (at : String) {identity : AuthenticatedAgentIdentity}
      → verify_signed_authenticated_agent_identity signed trust at ≡ ok identity
      → (key : WorkloadIdentityTrustKey) × IsOnlyKey trust signed.key_id key
        × IsVerifiedContext key signed at identity
  unfolding verify_signed_authenticated_agent_identity
  verify_signed_authenticated_agent_identity-IsVerifiedContext signed trust at h =
      elim (one-cases (select (λ k. k.key_id == signed.key_id) trust.keys)) [
        | inl (key, only) ↦
            (key, only, verify_context_with_key-IsVerifiedContext key signed at (ground arith))
        | inr (inl empty) ↦ absurd (ground arith)
        | inr (inr (a, b, rest, more)) ↦ absurd (ground arith)
      ]
