-- ===== src/Approval/ApprovalTrustKey.antt =====
-- approval_signature.py: `ApprovalTrustKey`, with `__post_init__` as `post_init`.
use reg_agent_ops.Approval.ApprovalKeyStatus
use reg_agent_ops.Approval.ApprovalKeyStatus.{ApprovalKeyStatus, approval_key_status_eq}
use reg_agent_ops.Approval.Checks.{bounded_texts, decode, parse_with}
use reg_agent_ops.Base.{
  Result, String, [], eqb, length, nat_eq, not, raise_if, string_eq, texts_eq, value_error, ℕ, ◌!=◌,
  ◌>>=◌, ◌>>◌, ◌∷◌,
}
use reg_agent_ops.Models.Checks.{raise_unless_less}
use reg_agent_ops.Models.DataClassification.{data_classification_eq}
use reg_agent_ops.Models.Decision.{decision_eq}
use reg_agent_ops.Models.Environment.{environment_eq}
use reg_agent_ops.Models.RiskTier.{risk_tier_eq}
use reg_agent_ops.Models.Value.{Platform, Value, dict, text}

pub record ApprovalTrustKey : Type 0 where
  pub institution_id : String
  pub principal_id : String
  pub key_id : String
  pub public_key_base64url : String
  pub not_before : String
  pub not_after : String
  pub status : ApprovalKeyStatus
  pub algorithm : String

-- `asdict`, with the members of enumerations as their values
unfoldable pub encode : ApprovalTrustKey → Value
encode r = dict (
    ("institution_id", text r.institution_id)
    ∷ ("principal_id", text r.principal_id)
    ∷ ("key_id", text r.key_id)
    ∷ ("public_key_base64url", text r.public_key_base64url)
    ∷ ("not_before", text r.not_before)
    ∷ ("not_after", text r.not_after)
    ∷ ("status", text (ApprovalKeyStatus.value r.status))
    ∷ ("algorithm", text r.algorithm)
    ∷ [])

module _ ⦃p : Platform⦄ where
  unfoldable pub parse_time : String → Result ℕ
  parse_time =
      parse_with (value_error "approval signature time must be RFC3339 UTC")
        (value_error "approval signature time is invalid")

  unfoldable pub post_init : ApprovalTrustKey → Result (Unit {0})
  unfolding parse_time
  post_init r = do
    bounded_texts (
        ("institution_id", r.institution_id)
        ∷ ("principal_id", r.principal_id)
        ∷ ("key_id", r.key_id)
        ∷ [])
    raise_if (r.algorithm != "Ed25519") (value_error "v0.3 approval trust keys require Ed25519")
    raw ← decode r.public_key_base64url
    raise_if (not (eqb (length raw) 32))
        (value_error "Ed25519 approval public key must decode to 32 bytes")
    start ← parse_time r.not_before
    finish ← parse_time r.not_after
    raise_unless_less r.not_before r.not_after start finish
        (value_error "approval trust key validity interval must be positive")
