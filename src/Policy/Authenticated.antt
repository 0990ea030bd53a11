-- ===== src/Policy/Authenticated.antt =====
-- authenticated_policy.py, `AuthenticatedPolicyEngine`: the policy engine behind a verified
-- identity.
pub mod Total
pub mod Verified
use reg_agent_ops.Identity.AuthenticatedAgentIdentity
use reg_agent_ops.Identity.SignedAuthenticatedAgentIdentity
use reg_agent_ops.Models.AgentActionEnvelope
use reg_agent_ops.Models.AgentDescriptor
use reg_agent_ops.Models.AuthenticatedAuthorizationDecision
use reg_agent_ops.Models.AuthorizationDecision
use reg_agent_ops.Policy.PolicyBundle
use reg_agent_ops.Registry.AgentRegistry
use reg_agent_ops.Base.{
  Bool, Option, Result, String, [], err, false, if◌then◌else◌, nat_eq, none, not, ok, some,
  string_eq, texts_eq, true, ℕ, ◌!=◌, ◌>>=◌, ◌>>◌, ◌||◌, ◌∷◌,
}
use reg_agent_ops.Identity.AuthenticatedAgentIdentity.{AuthenticatedAgentIdentity}
use reg_agent_ops.Identity.Context.{is_signature_error, verify_signed_authenticated_agent_identity}
use reg_agent_ops.Identity.SignedAuthenticatedAgentIdentity.{SignedAuthenticatedAgentIdentity}
use reg_agent_ops.Identity.WorkloadIdentityTrustBundle.{WorkloadIdentityTrustBundle}
use reg_agent_ops.Models.AgentActionEnvelope.{AgentActionEnvelope}
use reg_agent_ops.Models.AgentDescriptor.{AgentDescriptor}
use reg_agent_ops.Models.AuthenticatedAuthorizationDecision.{
  AuthenticatedAuthorizationDecision, decision,
}
use reg_agent_ops.Models.AuthorizationDecision.{AuthorizationDecision}
use reg_agent_ops.Models.Checks.{instant, less}
use reg_agent_ops.Models.DataClassification.{data_classification_eq}
use reg_agent_ops.Models.Decision.{Decision, decision_eq}
use reg_agent_ops.Models.Environment.{environment_eq}
use reg_agent_ops.Models.RiskTier.{risk_tier_eq}
use reg_agent_ops.Models.Value.{Platform, digest_artifact}
use reg_agent_ops.Policy.Engine.{PolicyEngine, evaluate}
use reg_agent_ops.Policy.PolicyBundle.{PolicyBundle}
use reg_agent_ops.Registry.AgentRegistry.{AgentRegistry}
use reg_agent_ops.Registry.ToolRegistry.{ToolRegistry}

-- The argument `identity`: a signed identity, an unsigned one, or any other object.
pub data IdentityArgument : Type 0 where
  signed_context : SignedAuthenticatedAgentIdentity → IdentityArgument
  unsigned_context : AuthenticatedAgentIdentity → IdentityArgument
  other_object : IdentityArgument

pub record AuthenticatedPolicyEngine : Type 0 where
  pub agents : AgentRegistry
  pub base : PolicyEngine

-- `__init__`
unfoldable pub authenticated_engine : AgentRegistry → ToolRegistry → AuthenticatedPolicyEngine
authenticated_engine agents tools = record {
  agents = agents;
  base = record { agents = agents; tools = tools };
}

-- `"0" * 64`
abbrev pub zero_digest : String
zero_digest = "0000000000000000000000000000000000000000000000000000000000000000"

module _ ⦃p : Platform⦄ where
  -- `_denied_authorization`
  unfoldable pub denied_authorization :
      AgentActionEnvelope → PolicyBundle → String → String → Result AuthorizationDecision
  denied_authorization request policy evaluated_at reason = do
    let denied : AuthorizationDecision = record {
      request_digest = AgentActionEnvelope.artifact_digest request;
      policy_bundle_digest = PolicyBundle.artifact_digest policy;
      decision = Decision.deny;
      matched_rule_ids = [];
      constraints = [];
      reason_codes = reason ∷ [];
      human_approval_required = false;
      policy_permits_execution = false;
      evaluated_at = evaluated_at;
      governance_evidence_digests = [];
      schema_version = "regagentops.authorization-decision.v1";
    }
    AuthorizationDecision.post_init denied
    ok denied

  unfoldable pub authenticated_record :
      AgentActionEnvelope
      → String
      → AuthorizationDecision
      → Bool
      → String
      → AuthenticatedAuthorizationDecision
  authenticated_record request context_digest authorization verified evaluated_at = record {
    request_digest = AgentActionEnvelope.artifact_digest request;
    identity_context_digest = context_digest;
    authorization = authorization;
    identity_verified = verified;
    evaluated_at = evaluated_at;
    schema_version = "regagentops.authenticated-authorization-decision.v1";
  }

  -- the constructor's call at the end of `evaluate` and of `_identity_deny`
  unfoldable pub authenticated_decision :
      AgentActionEnvelope
      → String
      → AuthorizationDecision
      → Bool
      → String
      → Result AuthenticatedAuthorizationDecision
  authenticated_decision request context_digest authorization verified evaluated_at = do
    let d = authenticated_record request context_digest authorization verified evaluated_at
    AuthenticatedAuthorizationDecision.post_init d
    ok d

  -- `_identity_deny`
  unfoldable pub identity_deny :
      AgentActionEnvelope
      → PolicyBundle
      → String
      → String
      → String
      → Result AuthenticatedAuthorizationDecision
  identity_deny request policy context_digest evaluated_at reason = do
    denied ← denied_authorization request policy evaluated_at reason
    authenticated_decision request context_digest denied false evaluated_at

  -- the three times that `_identity_failure_reason` reads, `none` where one cannot be read
  abbrev pub context_times : AuthenticatedAgentIdentity → String → Option (ℕ × ℕ × ℕ)
  context_times identity evaluated_at = elim (instant evaluated_at) [
    | none ↦ none
    | some now ↦ elim (instant identity.established_at) [
      | none ↦ none
      | some established ↦ elim (instant identity.valid_until) [
        | none ↦ none
        | some valid_until ↦ some (now, established, valid_until)
      ]
    ]
  ]

  -- `not (now < established or now >= valid_until)`, of which the second test is only made where the
  -- first fails
  unfoldable pub within_context : AuthenticatedAgentIdentity → String → ℕ → ℕ → ℕ → Result Bool
  within_context identity evaluated_at now established valid_until = do
    early ← less evaluated_at identity.established_at now established
    if early then ok false else less evaluated_at identity.valid_until now valid_until

  -- the end of `_identity_failure_reason`, which looks the agent up
  abbrev pub agent_failure : AuthenticatedAgentIdentity → Option AgentDescriptor → Option String
  agent_failure identity none = some "authenticated_identity_agent_not_registered_or_disabled"
  agent_failure identity (some agent) =
      if not agent.enabled
      then some "authenticated_identity_agent_not_registered_or_disabled"
      else if digest_artifact (AgentDescriptor.encode agent) != identity.agent_descriptor_digest
      then some "authenticated_identity_agent_registration_changed"
      else none

  -- `_identity_failure_reason`
  unfoldable pub identity_failure_reason :
      AgentRegistry
      → AgentActionEnvelope
      → AuthenticatedAgentIdentity
      → String
      → Result (Option String)
  identity_failure_reason agents request identity evaluated_at =
      if identity.institution_id != request.institution_id
        || identity.agent_id != request.agent_id
        || identity.human_owner_id != request.human_owner_id
      then ok (some "authenticated_identity_context_mismatch")
      else elim (context_times identity evaluated_at) [
        | none ↦ ok (some "authenticated_identity_time_invalid")
        | some (now, established, valid_until) ↦
            elim (within_context identity evaluated_at now established valid_until) [
              | err e ↦ err e
              | ok true ↦ ok (
                  agent_failure identity
                    (AgentRegistry.get agents request.institution_id request.agent_id))
              | ok false ↦ ok (some "authenticated_identity_expired_or_not_yet_valid")
            ]
      ]

  -- `evaluate`, once the signature has been verified
  unfoldable pub evaluate_verified :
      AuthenticatedPolicyEngine
      → AgentActionEnvelope
      → PolicyBundle
      → SignedAuthenticatedAgentIdentity
      → AuthenticatedAgentIdentity
      → String
      → Result AuthenticatedAuthorizationDecision
  evaluate_verified engine request policy signed_identity verified_identity evaluated_at =
      elim (identity_failure_reason engine.agents request verified_identity evaluated_at) [
        | err e ↦ err e
        | ok none ↦ (do
          decided ← evaluate engine.base request policy evaluated_at
          authenticated_decision request
              (SignedAuthenticatedAgentIdentity.artifact_digest signed_identity) decided true
              evaluated_at)
        | ok (some reason) ↦ (do
          denied ← denied_authorization request policy evaluated_at reason
          authenticated_decision request
              (SignedAuthenticatedAgentIdentity.artifact_digest signed_identity) denied false
              evaluated_at)
      ]

  unfoldable pub evaluate_authenticated :
      AuthenticatedPolicyEngine
      → AgentActionEnvelope
      → PolicyBundle
      → IdentityArgument
      → WorkloadIdentityTrustBundle
      → String
      → Result AuthenticatedAuthorizationDecision
  evaluate_authenticated engine request policy (signed_context identity) trust_bundle evaluated_at =
      elim (verify_signed_authenticated_agent_identity identity trust_bundle evaluated_at) [
        | ok verified_identity ↦
            evaluate_verified engine request policy identity verified_identity evaluated_at
        | err e ↦
            if is_signature_error e
            then identity_deny request policy
                (SignedAuthenticatedAgentIdentity.artifact_digest identity) evaluated_at
                "authenticated_identity_context_untrusted_or_expired"
            else err e
      ]
  evaluate_authenticated engine request policy (unsigned_context identity) trust_bundle
        evaluated_at =
      identity_deny request policy (AuthenticatedAgentIdentity.artifact_digest identity)
        evaluated_at "authenticated_identity_context_unsigned"
  evaluate_authenticated engine request policy other_object trust_bundle evaluated_at =
      identity_deny request policy zero_digest evaluated_at
        "authenticated_identity_context_unsigned"
