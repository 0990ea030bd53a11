-- ===== src/Policy/Totality.antt =====
-- `PolicyEngine.evaluate` builds only decisions that `AuthorizationDecision.__post_init__` accepts.
use reg_agent_ops.Models.AgentActionEnvelope
use reg_agent_ops.Models.AuthorizationDecision
use reg_agent_ops.Policy.PolicyBundle
use reg_agent_ops.Base.{
  List, String, arith, false, is_empty, is_hex_64, nat_eq, ok, string_eq, texts_eq, true, unique,
  ◌&&◌, ◌==◌, ◌≡◌,
}
use reg_agent_ops.Models.AgentActionEnvelope.{AgentActionEnvelope}
use reg_agent_ops.Models.AuthenticatedAuthorizationDecision.{decision}
use reg_agent_ops.Models.AuthorizationDecision.{AuthorizationDecision}
use reg_agent_ops.Models.Checks.{require_utc_timestamp}
use reg_agent_ops.Models.DataClassification.{data_classification_eq}
use reg_agent_ops.Models.Decision.{Decision, decision_eq}
use reg_agent_ops.Models.Environment.{environment_eq}
use reg_agent_ops.Models.RiskTier.{risk_tier_eq}
use reg_agent_ops.Models.Value.{HexDigests, Platform, digest_artifact-is_hex_64}
use reg_agent_ops.Policy.Engine.{decision_record, make_decision}
use reg_agent_ops.Policy.PolicyBundle.{PolicyBundle}

module _ ⦃p : Platform⦄ where
  module _ (request : AgentActionEnvelope) (policy : PolicyBundle) (evaluated_at : String)
      (hex : HexDigests) (time : require_utc_timestamp "evaluated_at" evaluated_at ≡ ok tt) where
    pub request_digest-hex : is_hex_64 (AgentActionEnvelope.artifact_digest request) ≡ true
    unfolding AgentActionEnvelope.artifact_digest
    request_digest-hex = digest_artifact-is_hex_64 hex (AgentActionEnvelope.encode request)

    policy_digest-hex : is_hex_64 (PolicyBundle.artifact_digest policy) ≡ true
    unfolding PolicyBundle.artifact_digest
    policy_digest-hex = digest_artifact-is_hex_64 hex (PolicyBundle.encode policy)

    pub make_decision-returns :
        (decision : Decision) (ids constraints reasons : List String)
        → unique ids ≡ true
        → unique constraints ≡ true
        → (decision == Decision.allow_with_constraints && is_empty constraints) ≡ false
        → make_decision request policy evaluated_at decision ids constraints reasons
          ≡ ok (decision_record request policy evaluated_at decision ids constraints reasons)
    unfolding make_decision decision_record AuthorizationDecision.post_init
    make_decision-returns decision ids constraints reasons u v w =
        ground (arith, request_digest-hex, policy_digest-hex)
