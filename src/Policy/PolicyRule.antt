-- ===== src/Policy/PolicyRule.antt =====
-- policy.py: `PolicyRule`, with `__post_init__` as `post_init`.
use reg_agent_ops.Models.DataClassification
use reg_agent_ops.Models.Decision
use reg_agent_ops.Models.Environment
use reg_agent_ops.Models.RiskTier
use reg_agent_ops.Base.{
  Bool, List, Result, String, [], contains, for_each, is_blank, is_empty, len, ltb, nat_eq, not,
  raise_if, string_eq, texts_eq, unique, value_error, ◌!=◌, ◌&&◌, ◌+++◌, ◌==◌, ◌>>◌, ◌||◌, ◌∷◌,
}
use reg_agent_ops.Models.AgentActionEnvelope.{AgentActionEnvelope}
use reg_agent_ops.Models.DataClassification.{DataClassification, data_classification_eq}
use reg_agent_ops.Models.Decision.{Decision, decision_eq}
use reg_agent_ops.Models.Environment.{Environment, environment_eq}
use reg_agent_ops.Models.RiskTier.{RiskTier, risk_tier_eq}
use reg_agent_ops.Models.Value.{Platform, Value, array_of, dict, text, texts}

pub record PolicyRule : Type 0 where
  pub rule_id : String
  pub institution_id : String
  pub agent_id : String
  pub tool_id : String
  pub action : String
  pub business_purposes : List String
  pub environments : List Environment
  pub data_classifications : List DataClassification
  pub risk_tiers : List RiskTier
  pub effect : Decision
  pub constraints : List String

-- `asdict`, with the members of enumerations as their values
unfoldable pub encode : PolicyRule → Value
encode r = dict (
    ("rule_id", text r.rule_id)
    ∷ ("institution_id", text r.institution_id)
    ∷ ("agent_id", text r.agent_id)
    ∷ ("tool_id", text r.tool_id)
    ∷ ("action", text r.action)
    ∷ ("business_purposes", texts r.business_purposes)
    ∷ ("environments", array_of (λ v. text (Environment.value v)) r.environments)
    ∷ (
      "data_classifications",
      array_of (λ v. text (DataClassification.value v)) r.data_classifications,
    )
    ∷ ("risk_tiers", array_of (λ v. text (RiskTier.value v)) r.risk_tiers)
    ∷ ("effect", text (Decision.value r.effect))
    ∷ ("constraints", texts r.constraints)
    ∷ [])

-- the last two checks of `__post_init__`
unfoldable pub effect_consistent : PolicyRule → Result (Unit {0})
effect_consistent r = do
  raise_if (r.effect == Decision.allow_with_constraints && is_empty r.constraints)
      (value_error "ALLOW_WITH_CONSTRAINTS rules require at least one constraint")
  raise_if (r.effect != Decision.allow_with_constraints && not (is_empty r.constraints))
      (value_error "constraints are only valid for ALLOW_WITH_CONSTRAINTS rules")

unfoldable pub matches : PolicyRule → AgentActionEnvelope → Bool
matches r request =
    r.institution_id == request.institution_id
    && r.agent_id == request.agent_id
    && r.tool_id == request.tool_id
    && r.action == request.action
    && contains r.business_purposes request.business_purpose
    && contains r.environments request.environment
    && contains r.data_classifications request.data_classification
    && contains r.risk_tiers request.risk_tier

module _ ⦃p : Platform⦄ where
  unfoldable pub post_init : PolicyRule → Result (Unit {0})
  post_init r = do
    for_each {A = String × String}
        (("rule_id", r.rule_id)
          ∷ ("institution_id", r.institution_id)
          ∷ ("agent_id", r.agent_id)
          ∷ ("tool_id", r.tool_id)
          ∷ ("action", r.action)
          ∷ [])
        (λ e.
          raise_if (is_blank e.1 || ltb 256 (len e.1))
            (value_error (e.0 +++ " must be non-empty bounded text")))
    raise_if
        (is_empty r.business_purposes
          || is_empty r.environments
          || is_empty r.data_classifications
          || is_empty r.risk_tiers)
        (value_error "policy rule match dimensions must not be empty")
    raise_if (not (unique r.business_purposes)) (value_error "business_purposes must be unique")
    effect_consistent r
