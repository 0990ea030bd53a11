-- ===== src/Policy/Decides.antt =====
-- The whole of `PolicyEngine.evaluate` against a description that knows of no ladder: the decision
-- is the strongest effect, the record is filled from it, and nothing is raised.
use reg_agent_ops.Policy.PolicyBundle
use reg_agent_ops.Policy.PolicyRule
use reg_agent_ops.Base.{
  All, All-select, List, Option-cases, String, [], arith, distinct, false, if◌then◌else◌, inl, inr,
  is_empty, map, nat_eq, none, ok, refl, some, string_eq, texts_eq, true, unique, unique-distinct,
  unique-map-select, ◌&&◌, ◌==◌, ◌∙◌, ◌∷◌, ◌≡◌,
}
use reg_agent_ops.Base.Sort.{All-sort, sort, sort_texts, unique-map-sort, unique-sort_texts}
use reg_agent_ops.Models.AgentActionEnvelope.{AgentActionEnvelope}
use reg_agent_ops.Models.AuthenticatedAuthorizationDecision.{decision}
use reg_agent_ops.Models.AuthorizationDecision.{AuthorizationDecision}
use reg_agent_ops.Models.Checks.{require_utc_timestamp}
use reg_agent_ops.Models.DataClassification.{data_classification_eq}
use reg_agent_ops.Models.Decision.{Decision, decision_eq}
use reg_agent_ops.Models.Environment.{environment_eq}
use reg_agent_ops.Models.RiskTier.{risk_tier_eq}
use reg_agent_ops.Models.Value.{HexDigests, Platform}
use reg_agent_ops.Policy.Engine.{
  PolicyEngine, all_constraints, by_matched, decision_record, deny, evaluate, make_decision,
  matching, refusal, rule_le,
}
use reg_agent_ops.Policy.PolicyBundle.{PolicyBundle}
use reg_agent_ops.Policy.PolicyRule.{PolicyRule}
use reg_agent_ops.Policy.Precedence.{
  IsConsistent, collected-is_empty, effects_of, strongest, strongest-eq-ladder, strongest-sort,
}
use reg_agent_ops.Policy.Totality.{make_decision-returns}

pub reason_of : Decision → String
reason_of Decision.deny = "explicit_deny_rule"
reason_of Decision.require_human_approval = "human_approval_required_by_policy"
reason_of Decision.allow_with_constraints = "explicit_policy_allow_with_constraints"
reason_of Decision.allow = "explicit_policy_allow"

module _ ⦃p : Platform⦄ where
  -- What the matching rules lead to, in the order of their ids.
  unfoldable pub described :
      AgentActionEnvelope
      → PolicyBundle
      → String
      → Decision
      → List PolicyRule
      → AuthorizationDecision
  described request policy evaluated_at decision ms =
      decision_record request policy evaluated_at decision (map (λ rule. rule.rule_id) ms)
        (if decision == Decision.allow_with_constraints
          then sort_texts (distinct (all_constraints ms))
          else [])
        ((if is_empty ms then "default_deny_no_matching_rule" else reason_of decision) ∷ [])

  unfoldable pub specified :
      PolicyEngine → AgentActionEnvelope → PolicyBundle → String → AuthorizationDecision
  specified engine request policy evaluated_at = elim (refusal engine request policy) [
    | some reason ↦ decision_record request policy evaluated_at Decision.deny [] [] (reason ∷ [])
    | none ↦
        let ms = matching request policy.rules in
        described request policy evaluated_at (strongest (effects_of ms)) (sort rule_le ms)
  ]

  module _ (request : AgentActionEnvelope) (policy : PolicyBundle) (evaluated_at : String)
      (hex : HexDigests) (time : require_utc_timestamp "evaluated_at" evaluated_at ≡ ok tt) where
    returns :
        (decision : Decision) (ids constraints reasons : List String)
        → unique ids ≡ true
        → unique constraints ≡ true
        → (decision == Decision.allow_with_constraints && is_empty constraints) ≡ false
        → make_decision request policy evaluated_at decision ids constraints reasons
          ≡ ok (decision_record request policy evaluated_at decision ids constraints reasons)
    returns = make_decision-returns request policy evaluated_at hex time

    by_matched-described :
        (ms : List PolicyRule)
        → unique (map (λ rule. rule.rule_id) ms) ≡ true
        → All IsConsistent ms
        → by_matched request policy evaluated_at ms
          ≡ ok (described request policy evaluated_at (strongest (effects_of ms)) ms)
    unfolding by_matched deny described reason_of strongest
    by_matched-described [] u h = returns Decision.deny [] [] _ refl refl refl
    by_matched-described (rule ∷ rest) u h =
        let ms = rule ∷ rest in
        let ids = map (λ r. r.rule_id) ms in
        let constraints = sort_texts (distinct (all_constraints ms)) in
        rw (strongest-eq-ladder (effects_of ms)) (
          ground (
            arith,
            returns Decision.deny ids [] ("explicit_deny_rule" ∷ []) u refl refl,
            returns Decision.require_human_approval ids []
                ("human_approval_required_by_policy" ∷ []) u refl refl,
            returns Decision.allow_with_constraints ids constraints
                ("explicit_policy_allow_with_constraints" ∷ []) u
                (unique-sort_texts (distinct (all_constraints ms))
                  ∙ unique-distinct (all_constraints ms)),
            returns Decision.allow ids [] ("explicit_policy_allow" ∷ []) u refl refl,
            collected-is_empty ms h,
          ))

    unique_ids :
        PolicyBundle.post_init policy ≡ ok tt
        → unique (map (λ rule. rule.rule_id) (sort rule_le (matching request policy.rules))) ≡ true
    unfolding PolicyBundle.post_init
    unique_ids valid =
        unique-map-sort rule_le (λ rule. rule.rule_id) (matching request policy.rules)
        ∙ unique-map-select (λ rule. rule.rule_id) (λ rule. PolicyRule.matches rule request)
            policy.rules (ground arith)

    -- Where digests are 64 hexadecimal digits, and once the bundle, the effects of its rules and the
    -- evaluation time have passed their constructors' checks, `evaluate` raises nothing and returns
    -- the specified decision, field by field: a DENY with the first refusal's reason, or else the
    -- strongest effect of the matching rules.
    pub evaluate-specified :
        (engine : PolicyEngine)
        → PolicyBundle.post_init policy ≡ ok tt
        → All IsConsistent policy.rules
        → evaluate engine request policy evaluated_at
          ≡ ok (specified engine request policy evaluated_at)
    unfolding evaluate specified deny
    evaluate-specified engine valid consistent =
        elim (Option-cases (refusal engine request policy)) [
          | inl open_to_rules ↦
              rw (open_to_rules, evaluate, specified)
                (rw (← strongest-sort (matching request policy.rules)) (
                  by_matched-described (sort rule_le (matching request policy.rules))
                    (unique_ids valid)
                    (All-sort rule_le IsConsistent (matching request policy.rules) (
                      All-select IsConsistent (λ rule. PolicyRule.matches rule request) policy.rules
                        consistent))))
          | inr (reason, refused) ↦
              rw (refused, evaluate, specified)
                (returns Decision.deny [] [] (reason ∷ []) refl refl refl)
        ]
