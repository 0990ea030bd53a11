-- ===== src/Examples/Policies.antt =====
-- The registries and the policy engine on the request to pay.
use reg_agent_ops.Models.AgentActionEnvelope
use reg_agent_ops.Models.AuthorizationDecision
use reg_agent_ops.Policy.PolicyBundle
use reg_agent_ops.Policy.PolicyRule
use reg_agent_ops.Registry.AgentRegistry
use reg_agent_ops.Registry.ToolRegistry
use reg_agent_ops.Base.{
  All, [], any, codes, drop_last, ends_with_z, is_blank, is_hex, is_hex_64, is_space, len, ok, refl,
  some, true, ◌∷◌, ◌≡◌,
}
use reg_agent_ops.Base.Sort.{text_le}
use reg_agent_ops.Examples.Clock.{
  clock, example_platform, example_platform-HexDigests, first_of_fields, first_text, parity_digest,
}
use reg_agent_ops.Examples.Requests.{allowing, approving, engine, request}
use reg_agent_ops.Models.AgentActionEnvelope.{AgentActionEnvelope}
use reg_agent_ops.Models.AuthorizationDecision.{AuthorizationDecision}
use reg_agent_ops.Models.Checks.{
  is_aware, less, raise_if_less, raise_unless_less, require_digest, require_digests,
  require_optional_digest, require_positive, require_text, require_texts, require_utc_timestamp,
  utc_timestamp,
}
use reg_agent_ops.Models.Decision.{Decision}
use reg_agent_ops.Models.Value.{
  canonical, canonical_fields, canonical_items, canonical_json, digest_artifact, insert_field,
}
use reg_agent_ops.Policy.Decides.{evaluate-specified, specified}
use reg_agent_ops.Policy.Engine.{
  agent_refusal, by_matched, decision_record, evaluate, make_decision, refusal, tool_refusal,
}
use reg_agent_ops.Policy.Permission.{Allows, IsAdmitted, evaluate-permits}
use reg_agent_ops.Policy.PolicyBundle.{PolicyBundle}
use reg_agent_ops.Policy.PolicyRule.{PolicyRule}
use reg_agent_ops.Policy.Precedence.{IsConsistent}
use reg_agent_ops.Registry.AgentRegistry.{AgentRegistry}
use reg_agent_ops.Registry.Lookup.{get-registered}
use reg_agent_ops.Registry.ToolRegistry.{ToolRegistry}

get-registered_example :
    All
      (λ agent. AgentRegistry.get engine.agents agent.institution_id agent.agent_id ≡ some agent)
      engine.agents.agents
    × All
        (λ item.
          ToolRegistry.get engine.tools item.institution_id item.tool_id item.action ≡ some item)
        engine.tools.actions
unfolding AgentRegistry.post_init ToolRegistry.post_init
get-registered_example = get-registered engine.agents engine.tools refl refl

time_valid : require_utc_timestamp "evaluated_at" "2026-01-01T00:00:00Z" ≡ ok tt
unfolding require_utc_timestamp utc_timestamp require_text is_blank codes is_space len ends_with_z
    drop_last clock raise_if_less raise_unless_less less is_aware
time_valid = refl

approving-valid : PolicyBundle.post_init approving ≡ ok tt
unfolding PolicyBundle.post_init is_blank codes is_space
approving-valid = refl

approving-IsConsistent : All IsConsistent approving.rules
unfolding PolicyRule.effect_consistent
approving-IsConsistent = (refl, (refl, tt))

evaluate-specified_example :
    evaluate engine request approving "2026-01-01T00:00:00Z"
    ≡ ok (specified engine request approving "2026-01-01T00:00:00Z")
evaluate-specified_example =
    evaluate-specified request approving "2026-01-01T00:00:00Z" example_platform-HexDigests
      time_valid engine approving-valid approving-IsConsistent

-- the decision of the bundle whose two rules allow
abbrev allowed : AuthorizationDecision
allowed =
    decision_record request allowing "2026-01-01T00:00:00Z" Decision.allow ("a" ∷ "b" ∷ []) []
      ("explicit_policy_allow" ∷ [])

evaluate_allows : evaluate engine request allowing "2026-01-01T00:00:00Z" ≡ ok allowed
unfolding codes is_space is_blank len ends_with_z drop_last is_hex is_hex_64 clock first_text
    first_of_fields parity_digest canonical canonical_items canonical_fields insert_field text_le
    canonical_json digest_artifact require_text require_texts utc_timestamp require_utc_timestamp
    require_digest require_digests require_optional_digest require_positive
    AgentActionEnvelope.encode AgentActionEnvelope.artifact_digest PolicyRule.encode
    PolicyBundle.encode PolicyBundle.artifact_digest evaluate refusal agent_refusal tool_refusal
    AgentRegistry.get ToolRegistry.get PolicyRule.matches by_matched make_decision decision_record
    AuthorizationDecision.post_init AuthorizationDecision.flags_consistent raise_if_less
    raise_unless_less less is_aware
evaluate_allows = refl

evaluate-permits_example :
    IsAdmitted engine request allowing
    × (any (λ rule. PolicyRule.matches rule request) allowing.rules ≡ true)
    × All (Allows request) allowing.rules
unfolding decision_record
evaluate-permits_example =
    evaluate-permits engine request allowing "2026-01-01T00:00:00Z" evaluate_allows refl
