-- ===== src/Policy/Permission.antt =====
-- What must hold before `PolicyEngine.evaluate` lets an action go on.
use reg_agent_ops.Models.AuthorizationDecision
use reg_agent_ops.Policy.PolicyRule
use reg_agent_ops.Registry.AgentRegistry
use reg_agent_ops.Registry.ToolRegistry
use reg_agent_ops.Base.{
  >>-eq-ok, All, List, Option, Option-cases, String, [], any, ap, arith, contains, distinct,
  eq_of_bne, false, inl, inr, is_empty, is_empty-select, map, nat_eq, none, ok, ok-injective, refl,
  some, string_eq, sym, texts_eq, true, ◌∙◌, ◌∷◌, ◌≡◌, ◌⊎◌,
}
use reg_agent_ops.Base.Sort.{contains-map-sort, is_empty-sort, sort, sort_texts}
use reg_agent_ops.Models.AgentActionEnvelope.{AgentActionEnvelope}
use reg_agent_ops.Models.AgentDescriptor.{AgentDescriptor}
use reg_agent_ops.Models.AuthorizationDecision.{AuthorizationDecision}
use reg_agent_ops.Models.DataClassification.{data_classification_eq}
use reg_agent_ops.Models.Decision.{Decision, decision_eq}
use reg_agent_ops.Models.Environment.{Environment, environment_eq}
use reg_agent_ops.Models.RiskTier.{risk_tier_eq}
use reg_agent_ops.Models.ToolActionDescriptor.{ToolActionDescriptor}
use reg_agent_ops.Models.Value.{Platform}
use reg_agent_ops.Policy.Engine.{
  PolicyEngine, agent_refusal, all_constraints, by_matched, decision_record, deny, evaluate,
  make_decision, matching, refusal, rule_le, tool_refusal,
}
use reg_agent_ops.Policy.PolicyBundle.{PolicyBundle}
use reg_agent_ops.Policy.PolicyRule.{PolicyRule}
use reg_agent_ops.Policy.Precedence.{effects_of}
use reg_agent_ops.Registry.AgentRegistry.{AgentRegistry}
use reg_agent_ops.Registry.ToolRegistry.{ToolRegistry}

module _ ⦃p : Platform⦄ where
  module _ (request : AgentActionEnvelope) (policy : PolicyBundle) (evaluated_at : String) where
    pub make_decision-ok :
        (decision : Decision) (ids constraints reasons : List String) {d : AuthorizationDecision}
        → make_decision request policy evaluated_at decision ids constraints reasons ≡ ok d
        → d ≡ decision_record request policy evaluated_at decision ids constraints reasons
    unfolding make_decision
    make_decision-ok decision ids constraints reasons h =
        let d = decision_record request policy evaluated_at decision ids constraints reasons in
        sym (ok-injective ((>>-eq-ok (AuthorizationDecision.post_init d) (ok d) h).1))

    deny-not_permitted :
        (reason : String) {d : AuthorizationDecision}
        → deny request policy evaluated_at reason ≡ ok d
        → d.policy_permits_execution ≡ false
    unfolding deny decision_record
    deny-not_permitted reason h =
        ap (λ r. r.policy_permits_execution) (make_decision-ok Decision.deny [] [] (reason ∷ []) h)

    by_matched_permits :
        (ms : List PolicyRule) {d : AuthorizationDecision}
        → by_matched request policy evaluated_at ms ≡ ok d
        → d.policy_permits_execution ≡ true
        → (is_empty ms ≡ false)
          × (contains (map (λ rule. rule.effect) ms) Decision.deny ≡ false)
          × (contains (map (λ rule. rule.effect) ms) Decision.require_human_approval ≡ false)
    unfolding by_matched decision_record
    by_matched_permits ms {d = d} h k =
        let ids = map (λ rule. rule.rule_id) ms in
        let constraints = sort_texts (distinct (all_constraints ms)) in
        ground (
          arith,
          deny-not_permitted "default_deny_no_matching_rule" {d = d},
          make_decision-ok Decision.deny ids [] ("explicit_deny_rule" ∷ []) {d = d},
          make_decision-ok Decision.require_human_approval ids []
              ("human_approval_required_by_policy" ∷ []) {d = d},
        )

-- The registered agent is enabled, and the request names its owner and its model.
pub record IsAdmittedAgent (request : AgentActionEnvelope) (agent : AgentDescriptor) : Type 0 where
  pub enabled : agent.enabled ≡ true
  pub owner : agent.human_owner_id ≡ request.human_owner_id
  pub provider : agent.model_provider ≡ request.model_provider
  pub model : agent.model_id ≡ request.model_id

-- The registered tool action is enabled for the data and for the environment.
pub record IsAdmittedTool (request : AgentActionEnvelope) (tool : ToolActionDescriptor)
    : Type 0 where
  pub enabled : tool.enabled ≡ true
  pub classified : contains tool.allowed_data_classifications request.data_classification ≡ true
  pub production : request.environment ≡ Environment.production → tool.production_registered ≡ true

agent_refusal-none :
    (request : AgentActionEnvelope) (o : Option AgentDescriptor)
    → agent_refusal request o ≡ none
    → (agent : AgentDescriptor) × (o ≡ some agent) × IsAdmittedAgent request agent
unfolding agent_refusal
agent_refusal-none request none h = cc
agent_refusal-none request (some agent) h = (
  agent,
  refl,
  record {
    enabled = ground arith;
    owner = eq_of_bne _ _ (ground arith);
    provider = eq_of_bne _ _ (ground arith);
    model = eq_of_bne _ _ (ground arith);
  },
)

tool_refusal-none :
    (request : AgentActionEnvelope) (o : Option ToolActionDescriptor)
    → tool_refusal request o ≡ none
    → (tool : ToolActionDescriptor) × (o ≡ some tool) × IsAdmittedTool request tool
unfolding tool_refusal
tool_refusal-none request none h = cc
tool_refusal-none request (some tool) h = (
  tool,
  refl,
  record {
    enabled = ground arith;
    classified = ground arith;
    production =
        λ e. ground (arith, environment_eq.beq_iff request.environment Environment.production);
  },
)

-- What the registries and the bundle's institution say of a request that is not refused.
pub record IsAdmitted (engine : PolicyEngine) (request : AgentActionEnvelope)
    (policy : PolicyBundle) : Type 0 where
  pub institution : policy.institution_id ≡ request.institution_id
  pub agent : AgentDescriptor
  pub agent_found :
      AgentRegistry.get engine.agents request.institution_id request.agent_id ≡ some agent
  pub agent_admitted : IsAdmittedAgent request agent
  pub tool : ToolActionDescriptor
  pub tool_found :
      ToolRegistry.get engine.tools request.institution_id request.tool_id request.action
      ≡ some tool
  pub tool_admitted : IsAdmittedTool request tool

refusal-none :
    (engine : PolicyEngine) (request : AgentActionEnvelope) (policy : PolicyBundle)
    → refusal engine request policy ≡ none
    → IsAdmitted engine request policy
unfolding refusal
refusal-none engine request policy h =
    let o = AgentRegistry.get engine.agents request.institution_id request.agent_id in
    let t = ToolRegistry.get engine.tools request.institution_id request.tool_id request.action in
    let (agent, found, admitted) = agent_refusal-none request o (ground arith) in
    let (tool, tool_found, tool_admitted) = tool_refusal-none request t (ground arith) in
    record {
      institution = eq_of_bne _ _ (ground arith);
      agent = agent;
      agent_found = found;
      agent_admitted = admitted;
      tool = tool;
      tool_found = tool_found;
      tool_admitted = tool_admitted;
    }

-- Every rule that matches allows, perhaps with constraints.
abbrev pub Allows : AgentActionEnvelope → PolicyRule → Type 0
Allows request rule =
    PolicyRule.matches rule request ≡ true
    → (rule.effect ≡ Decision.allow) ⊎ (rule.effect ≡ Decision.allow_with_constraints)

Allows-of_effects :
    (request : AgentActionEnvelope) (rules : List PolicyRule)
    → contains (effects_of (matching request rules)) Decision.deny ≡ false
    → contains (effects_of (matching request rules)) Decision.require_human_approval ≡ false
    → All (Allows request) rules
Allows-of_effects request [] h k = tt
Allows-of_effects request (rule ∷ rules) h k =
    (λ m. ground arith, Allows-of_effects request rules (ground arith) (ground arith))

module _ ⦃p : Platform⦄ where
  -- A decision that permits execution was made for a registered, enabled agent and a registered,
  -- enabled tool action, under a bundle in which some rule matches and every rule that matches
  -- allows.
  pub evaluate-permits :
      (engine : PolicyEngine) (request : AgentActionEnvelope) (policy : PolicyBundle)
      (evaluated_at : String) {d : AuthorizationDecision}
      → evaluate engine request policy evaluated_at ≡ ok d
      → d.policy_permits_execution ≡ true
      → IsAdmitted engine request policy
        × (any (λ rule. PolicyRule.matches rule request) policy.rules ≡ true)
        × All (Allows request) policy.rules
  unfolding evaluate
  evaluate-permits engine request policy evaluated_at {d = d} h k =
      elim (Option-cases (refusal engine request policy)) [
        | inr (reason, refused) ↦ absurd (denied reason refused)
        | inl open_to_rules ↦
            let ms = matching request policy.rules in
            let (some_rule, no_deny, no_review) =
              by_matched_permits request policy evaluated_at (sort rule_le ms) {d = d}
                (rw (open_to_rules, evaluate) at h) k in
            (
              refusal-none engine request policy open_to_rules,
              ground (
                arith,
                is_empty-sort rule_le ms,
                is_empty-select (λ (rule : PolicyRule). PolicyRule.matches rule request)
                    policy.rules,
              ),
              Allows-of_effects request policy.rules
                  (sym (contains-map-sort rule_le (λ rule. rule.effect) Decision.deny ms) ∙ no_deny)
                  (sym (
                      contains-map-sort rule_le (λ rule. rule.effect)
                        Decision.require_human_approval ms)
                    ∙ no_review),
            )
      ]
    where
      denied : (reason : String) → refusal engine request policy ≡ some reason → ⊥
      denied reason refused = cc (
        deny-not_permitted request policy evaluated_at reason {d = d} (rw (refused, evaluate) at h),
        k,
      )
