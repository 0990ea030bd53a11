-- ===== src/Approval/ApprovalTrustBundle.antt =====
-- approval_signature.py: `ApprovalTrustBundle`, with `__post_init__` as `post_init`.
use reg_agent_ops.Approval.ApprovalTrustKey
use reg_agent_ops.Approval.ApprovalTrustKey.{ApprovalTrustKey}
use reg_agent_ops.Base.{
  List, Result, String, [], any, is_blank, is_empty, map, nat_eq, not, raise_if, string_eq,
  texts_eq, unique, value_error, ◌!=◌, ◌>>◌, ◌∷◌,
}
use reg_agent_ops.Models.DataClassification.{data_classification_eq}
use reg_agent_ops.Models.Decision.{decision_eq}
use reg_agent_ops.Models.Environment.{environment_eq}
use reg_agent_ops.Models.RiskTier.{risk_tier_eq}
use reg_agent_ops.Models.Value.{Platform, Value, array_of, dict, digest_artifact, text}

pub record ApprovalTrustBundle : Type 0 where
  pub institution_id : String
  pub keys : List ApprovalTrustKey
  pub schema_version : String

-- `asdict`, with the members of enumerations as their values
unfoldable pub encode : ApprovalTrustBundle → Value
encode r = dict (
    ("institution_id", text r.institution_id)
    ∷ ("keys", array_of ApprovalTrustKey.encode r.keys)
    ∷ ("schema_version", text r.schema_version)
    ∷ [])

module _ ⦃p : Platform⦄ where
  unfoldable pub artifact_digest : ApprovalTrustBundle → String
  artifact_digest r = digest_artifact (encode r)

  unfoldable pub post_init : ApprovalTrustBundle → Result (Unit {0})
  post_init r = do
    raise_if (is_blank r.institution_id) (value_error "institution_id must not be empty")
    raise_if (is_empty r.keys) (value_error "approval trust bundle must contain at least one key")
    raise_if (any (λ key. key.institution_id != r.institution_id) r.keys)
        (value_error "approval trust keys must belong to the bundle institution")
    raise_if (not (unique (map (λ key. key.principal_id ∷ key.key_id ∷ []) r.keys)))
        (value_error "approval trust bundle contains duplicate principal/key ids")
