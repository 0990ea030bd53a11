-- ===== src/Approval/SignedApprovalStatement.antt =====
-- approval_signature.py: `SignedApprovalStatement`, with `__post_init__` as `post_init`.
use reg_agent_ops.Approval.ApprovalStatement
use reg_agent_ops.Approval.ApprovalStatement.{ApprovalStatement}
use reg_agent_ops.Approval.Checks.{decode}
use reg_agent_ops.Base.{
  Result, String, [], eqb, is_blank, len, length, ltb, nat_eq, not, raise_if, string_eq, texts_eq,
  value_error, ◌!=◌, ◌>>=◌, ◌>>◌, ◌||◌, ◌∷◌,
}
use reg_agent_ops.Models.DataClassification.{data_classification_eq}
use reg_agent_ops.Models.Decision.{decision_eq}
use reg_agent_ops.Models.Environment.{environment_eq}
use reg_agent_ops.Models.RiskTier.{risk_tier_eq}
use reg_agent_ops.Models.Value.{Platform, Value, dict, digest_artifact, text}

pub record SignedApprovalStatement : Type 0 where
  pub statement : ApprovalStatement
  pub key_id : String
  pub algorithm : String
  pub signature_base64url : String
  pub signing_document_digest : String
  pub schema_version : String

-- `asdict`, with the members of enumerations as their values
unfoldable pub encode : SignedApprovalStatement → Value
encode r = dict (
    ("statement", ApprovalStatement.encode r.statement)
    ∷ ("key_id", text r.key_id)
    ∷ ("algorithm", text r.algorithm)
    ∷ ("signature_base64url", text r.signature_base64url)
    ∷ ("signing_document_digest", text r.signing_document_digest)
    ∷ ("schema_version", text r.schema_version)
    ∷ [])

module _ ⦃p : Platform⦄ where
  unfoldable pub artifact_digest : SignedApprovalStatement → String
  artifact_digest r = digest_artifact (encode r)

  unfoldable pub post_init : SignedApprovalStatement → Result (Unit {0})
  post_init r = do
    raise_if (is_blank r.key_id || ltb 256 (len r.key_id))
        (value_error "key_id must be non-empty bounded text")
    raise_if (r.algorithm != "Ed25519") (value_error "v0.3 approval signatures require Ed25519")
    signature ← decode r.signature_base64url
    raise_if (not (eqb (length signature) 64))
        (value_error "Ed25519 approval signature must decode to 64 bytes")
    raise_if (not (eqb (len r.signing_document_digest) 64))
        (value_error "signing_document_digest must be SHA-256 hex")
