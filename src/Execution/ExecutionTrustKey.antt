-- ===== src/Execution/ExecutionTrustKey.antt =====
-- execution.py: `ExecutionTrustKey`, with `__post_init__` as `post_init`.
use reg_agent_ops.Execution.ExecutionKeyStatus
use reg_agent_ops.Approval.Checks.{decode}
use reg_agent_ops.Base.{
  Result, String, [], eqb, length, nat_eq, not, raise_if, string_eq, texts_eq, value_error, ◌!=◌,
  ◌>>=◌, ◌>>◌, ◌∷◌,
}
use reg_agent_ops.Execution.ExecutionKeyStatus.{ExecutionKeyStatus, execution_key_status_eq}
use reg_agent_ops.Models.Checks.{raise_unless_less, require_texts, utc_timestamp}
use reg_agent_ops.Models.DataClassification.{data_classification_eq}
use reg_agent_ops.Models.Decision.{decision_eq}
use reg_agent_ops.Models.Environment.{environment_eq}
use reg_agent_ops.Models.RiskTier.{risk_tier_eq}
use reg_agent_ops.Models.Value.{Platform, Value, dict, text}

pub record ExecutionTrustKey : Type 0 where
  pub institution_id : String
  pub executor_id : String
  pub key_id : String
  pub public_key_base64url : String
  pub not_before : String
  pub not_after : String
  pub status : ExecutionKeyStatus
  pub algorithm : String

-- `asdict`, with the members of enumerations as their values
unfoldable pub encode : ExecutionTrustKey → Value
encode r = dict (
    ("institution_id", text r.institution_id)
    ∷ ("executor_id", text r.executor_id)
    ∷ ("key_id", text r.key_id)
    ∷ ("public_key_base64url", text r.public_key_base64url)
    ∷ ("not_before", text r.not_before)
    ∷ ("not_after", text r.not_after)
    ∷ ("status", text (ExecutionKeyStatus.value r.status))
    ∷ ("algorithm", text r.algorithm)
    ∷ [])

module _ ⦃p : Platform⦄ where
  unfoldable pub post_init : ExecutionTrustKey → Result (Unit {0})
  post_init r = do
    require_texts (
        ("institution_id", r.institution_id)
        ∷ ("executor_id", r.executor_id)
        ∷ ("key_id", r.key_id)
        ∷ [])
    raise_if (r.algorithm != "Ed25519")
        (value_error "v0.5 execution receipt trust keys require Ed25519")
    raw ← decode r.public_key_base64url
    raise_if (not (eqb (length raw) 32))
        (value_error "Ed25519 execution public key must decode to 32 bytes")
    start ← utc_timestamp "not_before" r.not_before
    finish ← utc_timestamp "not_after" r.not_after
    raise_unless_less r.not_before r.not_after start finish
        (value_error "execution trust key validity interval must be positive")
