-- ===== src/Execution/SignedToolExecutionReceipt.antt =====
-- execution.py: `SignedToolExecutionReceipt`, with `__post_init__` as `post_init`.
use reg_agent_ops.Execution.ToolExecutionReceipt
use reg_agent_ops.Approval.Checks.{decode}
use reg_agent_ops.Base.{
  Result, String, [], eqb, length, nat_eq, not, raise_if, string_eq, texts_eq, value_error, ◌!=◌,
  ◌>>=◌, ◌>>◌, ◌∷◌,
}
use reg_agent_ops.Execution.ToolExecutionReceipt.{ToolExecutionReceipt}
use reg_agent_ops.Models.Checks.{default_limit, require_digests, require_text}
use reg_agent_ops.Models.DataClassification.{data_classification_eq}
use reg_agent_ops.Models.Decision.{decision_eq}
use reg_agent_ops.Models.Environment.{environment_eq}
use reg_agent_ops.Models.RiskTier.{risk_tier_eq}
use reg_agent_ops.Models.Value.{Platform, Value, dict, digest_artifact, text}

pub record SignedToolExecutionReceipt : Type 0 where
  pub receipt : ToolExecutionReceipt
  pub key_id : String
  pub algorithm : String
  pub signature_base64url : String
  pub signing_document_digest : String
  pub schema_version : String

-- `asdict`, with the members of enumerations as their values
unfoldable pub encode : SignedToolExecutionReceipt → Value
encode r = dict (
    ("receipt", ToolExecutionReceipt.encode r.receipt)
    ∷ ("key_id", text r.key_id)
    ∷ ("algorithm", text r.algorithm)
    ∷ ("signature_base64url", text r.signature_base64url)
    ∷ ("signing_document_digest", text r.signing_document_digest)
    ∷ ("schema_version", text r.schema_version)
    ∷ [])

module _ ⦃p : Platform⦄ where
  unfoldable pub artifact_digest : SignedToolExecutionReceipt → String
  artifact_digest r = digest_artifact (encode r)

  unfoldable pub post_init : SignedToolExecutionReceipt → Result (Unit {0})
  post_init r = do
    require_text "key_id" r.key_id default_limit
    raise_if (r.algorithm != "Ed25519")
        (value_error "v0.5 execution receipt signatures require Ed25519")
    signature ← decode r.signature_base64url
    raise_if (not (eqb (length signature) 64))
        (value_error "Ed25519 execution receipt signature must decode to 64 bytes")
    require_digests (("signing_document_digest", r.signing_document_digest) ∷ [])
    require_text "schema_version" r.schema_version default_limit
