-- ===== src/Approval/ApprovalAuthorityGrant.antt =====
-- approval_models.py: `ApprovalAuthorityGrant`, with `__post_init__` as `post_init`.
use reg_agent_ops.Approval.GrantType
use reg_agent_ops.Models.Environment
use reg_agent_ops.Models.RiskTier
use reg_agent_ops.Approval.Checks.{bounded_texts, timestamp}
use reg_agent_ops.Approval.GrantType.{GrantType, grant_type_eq}
use reg_agent_ops.Base.{
  Bool, List, Option, Result, String, [], contains, false, if◌then◌else◌, is_empty, is_hex_64,
  is_some, leb, nat_eq, none, not, ok, raise_if, some, string_eq, texts_eq, true, unique,
  value_error, ℕ, ◌!=◌, ◌&&◌, ◌==◌, ◌>>=◌, ◌>>◌, ◌||◌, ◌∷◌,
}
use reg_agent_ops.Models.AgentActionEnvelope.{AgentActionEnvelope}
use reg_agent_ops.Models.Checks.{less, raise_unless_less}
use reg_agent_ops.Models.DataClassification.{data_classification_eq}
use reg_agent_ops.Models.Decision.{decision_eq}
use reg_agent_ops.Models.Environment.{Environment, environment_eq}
use reg_agent_ops.Models.RiskTier.{RiskTier, risk_tier_eq}
use reg_agent_ops.Models.Value.{
  Platform, Value, array_of, dict, digest_artifact, flag, optional, text, texts,
}

pub record ApprovalAuthorityGrant : Type 0 where
  pub grant_id : String
  pub institution_id : String
  pub issuer_principal_id : String
  pub subject_principal_id : String
  pub role_id : String
  pub grant_type : GrantType
  pub allowed_tool_ids : List String
  pub allowed_actions : List String
  pub allowed_environments : List Environment
  pub max_risk_tier : RiskTier
  pub valid_from : String
  pub valid_until : String
  pub can_delegate : Bool
  pub parent_grant_digest : Option String
  pub schema_version : String

-- `asdict`, with the members of enumerations as their values
unfoldable pub encode : ApprovalAuthorityGrant → Value
encode r = dict (
    ("grant_id", text r.grant_id)
    ∷ ("institution_id", text r.institution_id)
    ∷ ("issuer_principal_id", text r.issuer_principal_id)
    ∷ ("subject_principal_id", text r.subject_principal_id)
    ∷ ("role_id", text r.role_id)
    ∷ ("grant_type", text (GrantType.value r.grant_type))
    ∷ ("allowed_tool_ids", texts r.allowed_tool_ids)
    ∷ ("allowed_actions", texts r.allowed_actions)
    ∷ ("allowed_environments", array_of (λ v. text (Environment.value v)) r.allowed_environments)
    ∷ ("max_risk_tier", text (RiskTier.value r.max_risk_tier))
    ∷ ("valid_from", text r.valid_from)
    ∷ ("valid_until", text r.valid_until)
    ∷ ("can_delegate", flag r.can_delegate)
    ∷ ("parent_grant_digest", optional r.parent_grant_digest)
    ∷ ("schema_version", text r.schema_version)
    ∷ [])

-- the last two checks of `__post_init__`
unfoldable pub parent_consistent : ApprovalAuthorityGrant → Result (Unit {0})
parent_consistent r = do
  raise_if (r.grant_type == GrantType.direct && is_some r.parent_grant_digest)
      (value_error "direct grants must not specify parent_grant_digest")
  raise_if
      (r.grant_type == GrantType.delegated
        && elim r.parent_grant_digest [ none ↦ true | some digest ↦ not (is_hex_64 digest) ])
      (value_error "delegated grants require a parent grant digest")

module _ ⦃p : Platform⦄ where
  unfoldable pub artifact_digest : ApprovalAuthorityGrant → String
  artifact_digest r = digest_artifact (encode r)

  unfoldable pub post_init : ApprovalAuthorityGrant → Result (Unit {0})
  unfolding parent_consistent
  post_init r = do
    bounded_texts (
        ("grant_id", r.grant_id)
        ∷ ("institution_id", r.institution_id)
        ∷ ("issuer_principal_id", r.issuer_principal_id)
        ∷ ("subject_principal_id", r.subject_principal_id)
        ∷ ("role_id", r.role_id)
        ∷ [])
    raise_if (is_empty r.allowed_tool_ids || not (unique r.allowed_tool_ids))
        (value_error "allowed_tool_ids must be non-empty and unique")
    raise_if (is_empty r.allowed_actions || not (unique r.allowed_actions))
        (value_error "allowed_actions must be non-empty and unique")
    raise_if (is_empty r.allowed_environments || not (unique r.allowed_environments))
        (value_error "allowed_environments must be non-empty and unique")
    start ← timestamp "valid_from" r.valid_from
    finish ← timestamp "valid_until" r.valid_until
    raise_unless_less r.valid_from r.valid_until start finish
        (value_error "approval grant validity interval must be positive")
    parent_consistent r

  -- `start <= now < end`: the end is read only if the first comparison holds
  unfoldable pub valid_at : ApprovalAuthorityGrant → String → ℕ → Result Bool
  valid_at r at now = do
    start ← timestamp "valid_from" r.valid_from
    early ← less at r.valid_from now start
    if early
        then ok false
        else (do finish ← timestamp "valid_until" r.valid_until; less at r.valid_until now finish)

  unfoldable pub permits : ApprovalAuthorityGrant → AgentActionEnvelope → String → Result Bool
  permits r request at = do
    now ← timestamp "approval evaluation time" at
    let in_scope =
        r.institution_id == request.institution_id
        && r.subject_principal_id != request.human_owner_id
        && contains r.allowed_tool_ids request.tool_id
        && contains r.allowed_actions request.action
        && contains r.allowed_environments request.environment
        && leb (RiskTier.rank request.risk_tier) (RiskTier.rank r.max_risk_tier)
    if in_scope then valid_at r at now else ok false
