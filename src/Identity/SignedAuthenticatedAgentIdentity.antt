-- ===== src/Identity/SignedAuthenticatedAgentIdentity.antt =====
-- authenticated_identity_signature.py: `SignedAuthenticatedAgentIdentity`, with `__post_init__` as `post_init`.
use reg_agent_ops.Identity.AuthenticatedAgentIdentity
use reg_agent_ops.Approval.Checks.{padding}
use reg_agent_ops.Base.{
  Result, String, [], contains_code, eqb, is_hex_64, len, length, ltb, nat_eq, not, raise_if,
  string_eq, texts_eq, value_error, ◌!=◌, ◌+++◌, ◌>>=◌, ◌>>◌, ◌||◌, ◌∷◌,
}
use reg_agent_ops.Identity.AuthenticatedAgentIdentity.{AuthenticatedAgentIdentity}
use reg_agent_ops.Models.Checks.{or_raise}
use reg_agent_ops.Models.DataClassification.{data_classification_eq}
use reg_agent_ops.Models.Decision.{decision_eq}
use reg_agent_ops.Models.Environment.{environment_eq}
use reg_agent_ops.Models.RiskTier.{risk_tier_eq}
use reg_agent_ops.Models.Value.{Platform, Value, dict, digest_artifact, text}

pub record SignedAuthenticatedAgentIdentity : Type 0 where
  pub identity : AuthenticatedAgentIdentity
  pub key_id : String
  pub algorithm : String
  pub signature_base64url : String
  pub signing_document_digest : String
  pub schema_version : String

-- `asdict`, with the members of enumerations as their values
unfoldable pub encode : SignedAuthenticatedAgentIdentity → Value
encode r = dict (
    ("identity", AuthenticatedAgentIdentity.encode r.identity)
    ∷ ("key_id", text r.key_id)
    ∷ ("algorithm", text r.algorithm)
    ∷ ("signature_base64url", text r.signature_base64url)
    ∷ ("signing_document_digest", text r.signing_document_digest)
    ∷ ("schema_version", text r.schema_version)
    ∷ [])

module _ ⦃p : Platform⦄ where
  unfoldable pub artifact_digest : SignedAuthenticatedAgentIdentity → String
  artifact_digest r = digest_artifact (encode r)

  unfoldable pub post_init : SignedAuthenticatedAgentIdentity → Result (Unit {0})
  post_init r = do
    raise_if (eqb (len r.key_id) 0 || ltb 256 (len r.key_id))
        (value_error "key_id must be non-empty bounded text")
    raise_if (r.algorithm != "Ed25519")
        (value_error "v0.2 authenticated identity signatures require Ed25519")
    raise_if (contains_code b'=' r.signature_base64url)
        (value_error "signature_base64url must be unpadded base64url")
    raw ←
        or_raise (p.urlsafe_b64decode (r.signature_base64url +++ padding r.signature_base64url))
          (value_error "signature_base64url is invalid")
    raise_if (not (eqb (length raw) 64)) (value_error "Ed25519 signature must decode to 64 bytes")
    raise_if (not (is_hex_64 r.signing_document_digest))
        (value_error "signing_document_digest must be a lowercase SHA-256 digest")
