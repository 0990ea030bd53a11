-- ===== src/Identity/Ed25519.antt =====
-- The parts of authenticated_identity_signature.py and workload_identity.py that are the same: the
-- signer's protocol, base64 without padding, and the call that checks an Ed25519 signature.
pub mod Trusted
use reg_agent_ops.Approval.Checks.{padding}
use reg_agent_ops.Base.{Bool, List, Option, String, false, none, some, strip_equals, ℕ, ◌+++◌}
use reg_agent_ops.Models.Value.{Platform, Value, canonical_json}

-- The protocols `AuthenticatedIdentitySigner` and `WorkloadIdentitySigner`.
pub record IdentitySigner : Type 0 where
  pub institution_id : String
  pub key_id : String
  pub algorithm : String
  pub sign : String → List ℕ

module _ ⦃p : Platform⦄ where
  -- `_decode_b64url`
  unfoldable pub decode_b64url : String → Option (List ℕ)
  decode_b64url value = p.urlsafe_b64decode (value +++ padding value)

  -- `_encode_b64url`
  unfoldable pub encode_b64url : List ℕ → String
  encode_b64url value = strip_equals (p.urlsafe_b64encode value)

  -- the body of the `try` that ends both verifications: false where it raises
  unfoldable pub signature_valid : String → String → Value → Bool
  signature_valid key_base64url signature_base64url document = elim (decode_b64url key_base64url) [
    | none ↦ false
    | some public_key ↦ elim (decode_b64url signature_base64url) [
      | none ↦ false
      | some signature ↦ p.ed25519_verify public_key signature (canonical_json document)
    ]
  ]
