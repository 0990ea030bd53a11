-- ===== src/Policy/Engine.antt =====
-- policy.py, `PolicyEngine`: the order of the checks is the code's. The early returns before the
-- rules are read are `refusal`, the part that reads the matching rules is `by_matched`.
use reg_agent_ops.Models.AgentActionEnvelope
use reg_agent_ops.Models.AuthorizationDecision
use reg_agent_ops.Policy.PolicyBundle
use reg_agent_ops.Policy.PolicyRule
use reg_agent_ops.Registry.AgentRegistry
use reg_agent_ops.Registry.ToolRegistry
use reg_agent_ops.Base.{
  Bool, List, Option, Result, String, [], contains, distinct, if◌then◌else◌, is_empty, map, nat_eq,
  none, not, ok, select, some, string_eq, texts_eq, ◌!=◌, ◌&&◌, ◌++◌, ◌==◌, ◌>>◌, ◌||◌, ◌∷◌,
}
use reg_agent_ops.Base.Sort.{sort, sort_texts, text_le}
use reg_agent_ops.Models.AgentActionEnvelope.{AgentActionEnvelope}
use reg_agent_ops.Models.AgentDescriptor.{AgentDescriptor}
use reg_agent_ops.Models.AuthorizationDecision.{AuthorizationDecision}
use reg_agent_ops.Models.DataClassification.{data_classification_eq}
use reg_agent_ops.Models.Decision.{Decision, decision_eq}
use reg_agent_ops.Models.Environment.{Environment, environment_eq}
use reg_agent_ops.Models.RiskTier.{risk_tier_eq}
use reg_agent_ops.Models.ToolActionDescriptor.{ToolActionDescriptor}
use reg_agent_ops.Models.Value.{Platform}
use reg_agent_ops.Policy.PolicyBundle.{PolicyBundle}
use reg_agent_ops.Policy.PolicyRule.{PolicyRule}
use reg_agent_ops.Registry.AgentRegistry.{AgentRegistry}
use reg_agent_ops.Registry.ToolRegistry.{ToolRegistry}

pub record PolicyEngine : Type 0 where
  pub agents : AgentRegistry
  pub tools : ToolRegistry

unfoldable pub agent_refusal : AgentActionEnvelope → Option AgentDescriptor → Option String
agent_refusal request none = some "agent_not_registered"
agent_refusal request (some agent) =
    if not agent.enabled
    then some "agent_disabled"
    else if agent.human_owner_id != request.human_owner_id
        || agent.model_provider != request.model_provider
        || agent.model_id != request.model_id
    then some "agent_identity_context_mismatch"
    else none

unfoldable pub tool_refusal : AgentActionEnvelope → Option ToolActionDescriptor → Option String
tool_refusal request none = some "tool_action_not_registered"
tool_refusal request (some tool) =
    if not tool.enabled
    then some "tool_action_disabled"
    else if not (contains tool.allowed_data_classifications request.data_classification)
    then some "tool_data_classification_not_registered"
    else if request.environment == Environment.production && not tool.production_registered
    then some "tool_not_registered_for_production"
    else none

-- The reason of the first check that refuses the request.
unfoldable pub refusal : PolicyEngine → AgentActionEnvelope → PolicyBundle → Option String
refusal engine request policy =
    if policy.institution_id != request.institution_id
    then some "institution_policy_mismatch"
    else elim (agent_refusal request
        (AgentRegistry.get engine.agents request.institution_id request.agent_id)) [
          | some reason ↦ some reason
          | none ↦
              tool_refusal request (
                ToolRegistry.get engine.tools request.institution_id request.tool_id request.action)
        ]

abbrev pub rule_le : PolicyRule → PolicyRule → Bool
rule_le a b = text_le a.rule_id b.rule_id

-- The rules of the bundle that match, in the bundle's order.
abbrev pub matching : AgentActionEnvelope → List PolicyRule → List PolicyRule
matching request rules = select (λ rule. PolicyRule.matches rule request) rules

abbrev pub all_constraints : List PolicyRule → List String
all_constraints [] = []
all_constraints (rule ∷ rules) = rule.constraints ++ all_constraints rules

module _ ⦃p : Platform⦄ where
  -- `_decision`: the constructor's checks run
  unfoldable pub decision_record :
      AgentActionEnvelope
      → PolicyBundle
      → String
      → Decision
      → List String
      → List String
      → List String
      → AuthorizationDecision
  decision_record request policy evaluated_at decision matched_rule_ids constraints reason_codes =
      record {
        request_digest = AgentActionEnvelope.artifact_digest request;
        policy_bundle_digest = PolicyBundle.artifact_digest policy;
        decision = decision;
        matched_rule_ids = matched_rule_ids;
        constraints = constraints;
        reason_codes = reason_codes;
        human_approval_required = decision == Decision.require_human_approval;
        policy_permits_execution =
            contains (Decision.allow ∷ Decision.allow_with_constraints ∷ []) decision;
        evaluated_at = evaluated_at;
        governance_evidence_digests = [];
        schema_version = "regagentops.authorization-decision.v1";
      }

  unfoldable pub make_decision :
      AgentActionEnvelope
      → PolicyBundle
      → String
      → Decision
      → List String
      → List String
      → List String
      → Result AuthorizationDecision
  make_decision request policy evaluated_at decision matched_rule_ids constraints reason_codes =
      let d =
        decision_record request policy evaluated_at decision matched_rule_ids constraints
          reason_codes in
      AuthorizationDecision.post_init d >> ok d

  unfoldable pub deny :
      AgentActionEnvelope → PolicyBundle → String → String → Result AuthorizationDecision
  deny request policy evaluated_at reason =
      make_decision request policy evaluated_at Decision.deny [] [] (reason ∷ [])

  -- what `evaluate` returns for the matching rules, sorted by their ids
  unfoldable pub by_matched :
      AgentActionEnvelope → PolicyBundle → String → List PolicyRule → Result AuthorizationDecision
  by_matched request policy evaluated_at matched =
      let matched_ids = map (λ rule. rule.rule_id) matched in
      let effects = map (λ rule. rule.effect) matched in
      let constraints = sort_texts (distinct (all_constraints matched)) in
      if is_empty matched
      then deny request policy evaluated_at "default_deny_no_matching_rule"
      else if contains effects Decision.deny
      then make_decision request policy evaluated_at Decision.deny matched_ids []
          ("explicit_deny_rule" ∷ [])
      else if contains effects Decision.require_human_approval
      then make_decision request policy evaluated_at Decision.require_human_approval matched_ids []
          ("human_approval_required_by_policy" ∷ [])
      else if not (is_empty constraints)
      then make_decision request policy evaluated_at Decision.allow_with_constraints matched_ids
          constraints ("explicit_policy_allow_with_constraints" ∷ [])
      else make_decision request policy evaluated_at Decision.allow matched_ids []
          ("explicit_policy_allow" ∷ [])

  unfoldable pub evaluate :
      PolicyEngine → AgentActionEnvelope → PolicyBundle → String → Result AuthorizationDecision
  evaluate engine request policy evaluated_at = elim (refusal engine request policy) [
    | some reason ↦ deny request policy evaluated_at reason
    | none ↦ by_matched request policy evaluated_at (sort rule_le (matching request policy.rules))
  ]
