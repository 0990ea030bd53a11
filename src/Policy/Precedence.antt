-- ===== src/Policy/Precedence.antt =====
-- The documented precedence of the effects,
-- DENY > REQUIRE_HUMAN_APPROVAL > ALLOW_WITH_CONSTRAINTS > ALLOW, as a maximum, and the decision of
-- the engine's ladder of set tests as an instance of it.
use reg_agent_ops.Policy.PolicyRule
use reg_agent_ops.Base.{
  All, List, [], arith, beq_comm, contains, distinct, if◌then◌else◌, is_empty, is_empty-append,
  is_empty-distinct, is_empty-map, ltb, map, nat_eq, not, ok, refl, string_eq, texts_eq, ℕ, ◌!=◌,
  ◌∙◌, ◌∷◌, ◌≡◌,
}
use reg_agent_ops.Base.Sort.{contains-map-sort, is_empty-sort, sort, sort_texts, text_le}
use reg_agent_ops.Models.DataClassification.{data_classification_eq}
use reg_agent_ops.Models.Decision.{Decision, decision_eq}
use reg_agent_ops.Models.Environment.{environment_eq}
use reg_agent_ops.Models.RiskTier.{risk_tier_eq}
use reg_agent_ops.Policy.Engine.{all_constraints, rule_le}
use reg_agent_ops.Policy.PolicyRule.{PolicyRule}

unfoldable pub severity : Decision → ℕ
severity Decision.deny = 3
severity Decision.require_human_approval = 2
severity Decision.allow_with_constraints = 1
severity Decision.allow = 0

abbrev pub stronger : Decision → Decision → Decision
stronger a b = if ltb (severity a) (severity b) then b else a

-- The strongest effect of the rules that match, and DENY where none does.
unfoldable pub strongest : List Decision → Decision
strongest [] = Decision.deny
strongest (x ∷ []) = x
strongest (x ∷ (y ∷ rest)) = stronger x (strongest (y ∷ rest))

-- The ladder of `evaluate`.
abbrev pub ladder : List Decision → Decision
ladder effects =
    if is_empty effects
    then Decision.deny
    else if contains effects Decision.deny
    then Decision.deny
    else if contains effects Decision.require_human_approval
    then Decision.require_human_approval
    else if contains effects Decision.allow_with_constraints
    then Decision.allow_with_constraints
    else Decision.allow

pub strongest-eq-ladder : (effects : List Decision) → strongest effects ≡ ladder effects
unfolding strongest severity
strongest-eq-ladder [] = refl
strongest-eq-ladder (Decision.allow ∷ []) = refl
strongest-eq-ladder (Decision.deny ∷ []) = refl
strongest-eq-ladder (Decision.require_human_approval ∷ []) = refl
strongest-eq-ladder (Decision.allow_with_constraints ∷ []) = refl
strongest-eq-ladder (Decision.allow ∷ (y ∷ rest)) = ground (arith, strongest-eq-ladder (y ∷ rest))
strongest-eq-ladder (Decision.deny ∷ (y ∷ rest)) = ground (arith, strongest-eq-ladder (y ∷ rest))
strongest-eq-ladder (Decision.require_human_approval ∷ (y ∷ rest)) =
    ground (arith, strongest-eq-ladder (y ∷ rest))
strongest-eq-ladder (Decision.allow_with_constraints ∷ (y ∷ rest)) =
    ground (arith, strongest-eq-ladder (y ∷ rest))

abbrev pub effects_of : List PolicyRule → List Decision
effects_of rules = map (λ rule. rule.effect) rules

-- A rule that `PolicyRule.__post_init__` accepts has constraints exactly if it says so.
abbrev pub IsConsistent : PolicyRule → Type 0
IsConsistent rule = PolicyRule.effect_consistent rule ≡ ok tt

constraints-is_empty :
    (rule : PolicyRule)
    → IsConsistent rule
    → is_empty rule.constraints ≡ (rule.effect != Decision.allow_with_constraints)
unfolding PolicyRule.effect_consistent
constraints-is_empty rule h = ground arith

all_constraints-is_empty :
    (ms : List PolicyRule)
    → All IsConsistent ms
    → is_empty (all_constraints ms) ≡ not (contains (effects_of ms) Decision.allow_with_constraints)
all_constraints-is_empty [] h = refl
all_constraints-is_empty (rule ∷ ms) h = ground (
  arith,
  constraints-is_empty rule h.0,
  is_empty-append {0} rule.constraints (all_constraints ms),
  all_constraints-is_empty ms h.1,
  beq_comm Decision.allow_with_constraints rule.effect,
)

pub collected-is_empty :
    (ms : List PolicyRule)
    → All IsConsistent ms
    → is_empty (sort_texts (distinct (all_constraints ms)))
      ≡ not (contains (effects_of ms) Decision.allow_with_constraints)
collected-is_empty ms h =
    is_empty-sort text_le (distinct (all_constraints ms))
    ∙ is_empty-distinct (all_constraints ms)
    ∙ all_constraints-is_empty ms h

-- Sorting the rules does not change the strongest effect.
pub strongest-sort :
    (ms : List PolicyRule) → strongest (effects_of (sort rule_le ms)) ≡ strongest (effects_of ms)
strongest-sort ms = rw (strongest-eq-ladder (effects_of (sort rule_le ms))) (
    rw (strongest-eq-ladder (effects_of ms)) (
      ground (
        arith,
        is_empty-map {0, 0} (λ (rule : PolicyRule). rule.effect) (sort rule_le ms),
        is_empty-map {0, 0} (λ (rule : PolicyRule). rule.effect) ms,
        is_empty-sort rule_le ms,
        contains-map-sort rule_le (λ rule. rule.effect) Decision.deny ms,
        contains-map-sort rule_le (λ rule. rule.effect) Decision.require_human_approval ms,
        contains-map-sort rule_le (λ rule. rule.effect) Decision.allow_with_constraints ms,
      )))
