-- ===== src/Identity/Ed25519/Trusted.antt =====
-- What both verifications against a trust bundle have in common once they return.
use reg_agent_ops.Base.{
  List, Option-cases, Result, String, [], arith, inl, inr, nat_eq, ok, select, some, string_eq,
  texts_eq, true, ℕ, ◌<◌, ◌==◌, ◌∷◌, ◌≡◌, ◌≤◌,
}
use reg_agent_ops.Identity.Ed25519.{decode_b64url, signature_valid}
use reg_agent_ops.Identity.TrustKeyStatus.{TrustKeyStatus, trust_key_status_eq}
use reg_agent_ops.Identity.WorkloadIdentityTrustBundle.{WorkloadIdentityTrustBundle}
use reg_agent_ops.Identity.WorkloadIdentityTrustKey.{WorkloadIdentityTrustKey}
use reg_agent_ops.Models.DataClassification.{data_classification_eq}
use reg_agent_ops.Models.Decision.{decision_eq}
use reg_agent_ops.Models.Environment.{environment_eq}
use reg_agent_ops.Models.RiskTier.{risk_tier_eq}
use reg_agent_ops.Models.Value.{Platform, Value, canonical_json}

module _ ⦃p : Platform⦄ where
  -- The bytes of the key verify the bytes of the signature on the document.
  pub record IsSignatureOf (key_base64url signature_base64url : String) (document : Value)
      : Type 0 where
    pub public_key : List ℕ
    pub signature : List ℕ
    pub key_decoded : decode_b64url key_base64url ≡ some public_key
    pub signature_decoded : decode_b64url signature_base64url ≡ some signature
    pub verified : p.ed25519_verify public_key signature (canonical_json document) ≡ true

  pub signature_valid-IsSignatureOf :
      (key_base64url signature_base64url : String) (document : Value)
      → signature_valid key_base64url signature_base64url document ≡ true
      → IsSignatureOf key_base64url signature_base64url document
  unfolding signature_valid
  signature_valid-IsSignatureOf key_base64url signature_base64url document h =
      elim (Option-cases (decode_b64url key_base64url)) [
        | inl undecoded ↦ absurd (ground arith)
        | inr (public_key, key_decoded) ↦ elim (Option-cases (decode_b64url signature_base64url)) [
          | inl undecoded ↦ absurd (ground arith)
          | inr (signature, signature_decoded) ↦ record {
            public_key = public_key;
            signature = signature;
            key_decoded = key_decoded;
            signature_decoded = signature_decoded;
            verified = ground arith;
          }
        ]
      ]

  -- A key that may be used at a time, for what began at another, and the times by which it may.
  pub record IsUsable (key : WorkloadIdentityTrustKey) (parse : String → Result ℕ) (start now : ℕ)
      : Type 0 where
    pub active : key.status ≡ TrustKeyStatus.active
    pub key_start : ℕ
    pub key_end : ℕ
    pub start_parsed : parse key.not_before ≡ ok key_start
    pub end_parsed : parse key.not_after ≡ ok key_end
    pub key_started : key_start ≤ start
    pub key_unexpired : now < key_end

  -- The only key of the bundle with the id.
  abbrev pub IsOnlyKey : WorkloadIdentityTrustBundle → String → WorkloadIdentityTrustKey → Type 0
  IsOnlyKey trust key_id key = select (λ k. k.key_id == key_id) trust.keys ≡ key ∷ []
