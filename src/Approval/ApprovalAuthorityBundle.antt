-- ===== src/Approval/ApprovalAuthorityBundle.antt =====
-- approval_models.py: `ApprovalAuthorityBundle`, with `__post_init__` as `post_init`.
use reg_agent_ops.Approval.ApprovalAuthorityGrant
use reg_agent_ops.Approval.ApprovalAuthorityGrant.{ApprovalAuthorityGrant}
use reg_agent_ops.Approval.Checks.{bounded_text}
use reg_agent_ops.Base.{
  List, Result, String, [], any, map, nat_eq, not, raise_if, string_eq, texts_eq, unique,
  value_error, ◌!=◌, ◌>>◌, ◌∷◌,
}
use reg_agent_ops.Models.DataClassification.{data_classification_eq}
use reg_agent_ops.Models.Decision.{decision_eq}
use reg_agent_ops.Models.Environment.{environment_eq}
use reg_agent_ops.Models.RiskTier.{risk_tier_eq}
use reg_agent_ops.Models.Value.{Platform, Value, array_of, dict, digest_artifact, text}

pub record ApprovalAuthorityBundle : Type 0 where
  pub institution_id : String
  pub grants : List ApprovalAuthorityGrant
  pub schema_version : String

-- `asdict`, with the members of enumerations as their values
unfoldable pub encode : ApprovalAuthorityBundle → Value
encode r = dict (
    ("institution_id", text r.institution_id)
    ∷ ("grants", array_of ApprovalAuthorityGrant.encode r.grants)
    ∷ ("schema_version", text r.schema_version)
    ∷ [])

module _ ⦃p : Platform⦄ where
  unfoldable pub artifact_digest : ApprovalAuthorityBundle → String
  artifact_digest r = digest_artifact (encode r)

  unfoldable pub post_init : ApprovalAuthorityBundle → Result (Unit {0})
  post_init r = do
    bounded_text "institution_id" r.institution_id 256
    raise_if (not (unique (map (λ grant. grant.grant_id) r.grants)))
        (value_error "approval authority bundle contains duplicate grant ids")
    raise_if (any (λ grant. grant.institution_id != r.institution_id) r.grants)
        (value_error "approval grants must belong to the bundle institution")
