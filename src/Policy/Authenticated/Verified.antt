-- ===== src/Policy/Authenticated/Verified.antt =====
-- What `AuthenticatedPolicyEngine.evaluate` has established about who acts.
use reg_agent_ops.Identity.SignedAuthenticatedAgentIdentity
use reg_agent_ops.Models.AgentDescriptor
use reg_agent_ops.Models.AuthenticatedAuthorizationDecision
use reg_agent_ops.Registry.AgentRegistry
use reg_agent_ops.Base.{
  >>-eq-ok, >>=-eq-ok, Bool, Bool-cases, Option-cases, Result-cases, String, ap, arith, eq_of_bne,
  false, inl, inr, nat_eq, none, ok, ok-injective, refl, some, string_eq, sym, texts_eq, true, ◌∙◌,
  ◌≡◌,
}
use reg_agent_ops.Identity.AuthenticatedAgentIdentity.{AuthenticatedAgentIdentity}
use reg_agent_ops.Identity.Context.{is_signature_error, verify_signed_authenticated_agent_identity}
use reg_agent_ops.Identity.Context.Verified.{
  IsVerifiedContext, verify_signed_authenticated_agent_identity-IsVerifiedContext,
}
use reg_agent_ops.Identity.Ed25519.Trusted.{IsOnlyKey}
use reg_agent_ops.Identity.SignedAuthenticatedAgentIdentity.{SignedAuthenticatedAgentIdentity}
use reg_agent_ops.Identity.WorkloadIdentityTrustBundle.{WorkloadIdentityTrustBundle}
use reg_agent_ops.Identity.WorkloadIdentityTrustKey.{WorkloadIdentityTrustKey}
use reg_agent_ops.Models.AgentActionEnvelope.{AgentActionEnvelope}
use reg_agent_ops.Models.AgentDescriptor.{AgentDescriptor}
use reg_agent_ops.Models.AuthenticatedAuthorizationDecision.{AuthenticatedAuthorizationDecision}
use reg_agent_ops.Models.AuthorizationDecision.{AuthorizationDecision}
use reg_agent_ops.Models.DataClassification.{data_classification_eq}
use reg_agent_ops.Models.Decision.{Decision, decision_eq}
use reg_agent_ops.Models.Environment.{environment_eq}
use reg_agent_ops.Models.RiskTier.{risk_tier_eq}
use reg_agent_ops.Models.Value.{Platform, digest_artifact}
use reg_agent_ops.Policy.Authenticated.{
  AuthenticatedPolicyEngine, IdentityArgument, authenticated_decision, authenticated_record,
  denied_authorization, evaluate_authenticated, evaluate_verified, identity_deny,
  identity_failure_reason, other_object, signed_context, unsigned_context,
}
use reg_agent_ops.Policy.Engine.{evaluate}
use reg_agent_ops.Policy.PolicyBundle.{PolicyBundle}
use reg_agent_ops.Registry.AgentRegistry.{AgentRegistry}

module _ ⦃p : Platform⦄ where
  -- The identity's agent is the registered one: enabled, and unchanged since the identity was made.
  pub record IsRegisteredAgent (agents : AgentRegistry) (request : AgentActionEnvelope)
      (identity : AuthenticatedAgentIdentity) : Type 0 where
    pub institution : identity.institution_id ≡ request.institution_id
    pub agent_id : identity.agent_id ≡ request.agent_id
    pub owner : identity.human_owner_id ≡ request.human_owner_id
    pub agent : AgentDescriptor
    pub found : AgentRegistry.get agents request.institution_id request.agent_id ≡ some agent
    pub enabled : agent.enabled ≡ true
    pub unchanged :
        digest_artifact (AgentDescriptor.encode agent) ≡ identity.agent_descriptor_digest

  -- The decision rests on a signed identity that the trust bundle verifies, and is the base engine's.
  pub record IsAuthenticated (engine : AuthenticatedPolicyEngine) (request : AgentActionEnvelope)
      (policy : PolicyBundle) (identity : IdentityArgument) (trust : WorkloadIdentityTrustBundle)
      (at : String) (d : AuthenticatedAuthorizationDecision) : Type 0 where
    pub context : SignedAuthenticatedAgentIdentity
    pub is_signed : identity ≡ signed_context context
    pub context_digest :
        d.identity_context_digest ≡ SignedAuthenticatedAgentIdentity.artifact_digest context
    pub key : WorkloadIdentityTrustKey
    pub only : IsOnlyKey trust context.key_id key
    pub by_key : IsVerifiedContext key context at context.identity
    pub registered : IsRegisteredAgent engine.agents request context.identity
    pub decided : evaluate engine.base request policy at ≡ ok d.authorization

  -- A decision on which nothing follows.
  pub record IsDenied (d : AuthenticatedAuthorizationDecision) : Type 0 where
    pub denied : d.authorization.decision ≡ Decision.deny
    pub not_permitted : d.authorization.policy_permits_execution ≡ false
    pub no_approval : d.authorization.human_approval_required ≡ false

  module _ (request : AgentActionEnvelope) (policy : PolicyBundle) (at : String) where
    authenticated_decision-ok :
        (context_digest : String) (a : AuthorizationDecision) (verified : Bool)
        {d : AuthenticatedAuthorizationDecision}
        → authenticated_decision request context_digest a verified at ≡ ok d
        → d ≡ authenticated_record request context_digest a verified at
    unfolding authenticated_decision
    authenticated_decision-ok context_digest a verified h =
        let d = authenticated_record request context_digest a verified at in
        sym (ok-injective ((>>-eq-ok (AuthenticatedAuthorizationDecision.post_init d) (ok d) h).1))

    denied_authorization-IsDenied :
        (context_digest reason : String) {a : AuthorizationDecision}
        {d : AuthenticatedAuthorizationDecision}
        → denied_authorization request policy at reason ≡ ok a
        → authenticated_decision request context_digest a false at ≡ ok d
        → (d.identity_verified ≡ false) × IsDenied d
    unfolding denied_authorization authenticated_record
    denied_authorization-IsDenied context_digest reason {a = a} h k =
        let built = sym (ok-injective ((>>-eq-ok _ _ h).1)) in
        let made = authenticated_decision-ok context_digest a false k in
        (
          ap (λ d. d.identity_verified) made,
          record {
            denied = ap (λ d. d.authorization.decision) made ∙ ap (λ a. a.decision) built;
            not_permitted =
                ap (λ d. d.authorization.policy_permits_execution) made
                ∙ ap (λ a. a.policy_permits_execution) built;
            no_approval =
                ap (λ d. d.authorization.human_approval_required) made
                ∙ ap (λ a. a.human_approval_required) built;
          },
        )

    identity_deny-IsDenied :
        (context_digest reason : String) {d : AuthenticatedAuthorizationDecision}
        → identity_deny request policy context_digest at reason ≡ ok d
        → (d.identity_verified ≡ false) × IsDenied d
    unfolding identity_deny
    identity_deny-IsDenied context_digest reason h =
        let (a, built, made) = >>=-eq-ok (denied_authorization request policy at reason) _ h in
        denied_authorization-IsDenied context_digest reason built made

    identity_failure_reason-none :
        (agents : AgentRegistry) (identity : AuthenticatedAgentIdentity)
        → identity_failure_reason agents request identity at ≡ ok none
        → IsRegisteredAgent agents request identity
    unfolding identity_failure_reason
    identity_failure_reason-none agents identity h =
        elim (Option-cases (AgentRegistry.get agents request.institution_id request.agent_id)) [
          | inl missing ↦ absurd (ground arith)
          | inr (agent, found) ↦ record {
            institution = eq_of_bne identity.institution_id request.institution_id (ground arith);
            agent_id = eq_of_bne identity.agent_id request.agent_id (ground arith);
            owner = eq_of_bne identity.human_owner_id request.human_owner_id (ground arith);
            agent = agent;
            found = found;
            enabled = ground arith;
            unchanged =
                eq_of_bne (digest_artifact (AgentDescriptor.encode agent))
                  identity.agent_descriptor_digest (ground arith);
          }
        ]

    module _ (engine : AuthenticatedPolicyEngine) (trust : WorkloadIdentityTrustBundle) where
      -- What a decision says of the request and of who acts.
      abbrev pub IsJustified : IdentityArgument → AuthenticatedAuthorizationDecision → Type 0
      IsJustified identity d =
          (d.identity_verified ≡ true → IsAuthenticated engine request policy identity trust at d)
          × (d.identity_verified ≡ false → IsDenied d)

      denied-IsJustified :
          (identity : IdentityArgument) (d : AuthenticatedAuthorizationDecision)
          → (d.identity_verified ≡ false) × IsDenied d
          → IsJustified identity d
      denied-IsJustified identity d (unverified, denied) = (λ verified. cc, λ h. denied)

      evaluate_verified-IsJustified :
          (context : SignedAuthenticatedAgentIdentity) {d : AuthenticatedAuthorizationDecision}
          → verify_signed_authenticated_agent_identity context trust at ≡ ok context.identity
          → evaluate_verified engine request policy context context.identity at ≡ ok d
          → IsJustified (signed_context context) d
      unfolding evaluate_verified authenticated_record
      evaluate_verified-IsJustified context {d = d} trusted h =
          let context_digest = SignedAuthenticatedAgentIdentity.artifact_digest context in
          elim (Result-cases (identity_failure_reason engine.agents request context.identity at)) [
            | inr (e, raised) ↦ absurd (ground (arith, raised))
            | inl (some reason, failed) ↦
                let (a, built, made) =
                  >>=-eq-ok (denied_authorization request policy at reason) _
                    (rw (failed, evaluate_verified) at h) in
                denied-IsJustified (signed_context context) d
                  (denied_authorization-IsDenied context_digest reason built made)
            | inl (none, passed) ↦
                let (a, decided, made) =
                  >>=-eq-ok (evaluate engine.base request policy at) _
                    (rw (passed, evaluate_verified) at h) in
                let built = authenticated_decision-ok context_digest a true made in
                let (key, only, by_key) =
                  verify_signed_authenticated_agent_identity-IsVerifiedContext context trust at
                    trusted in
                (
                  λ verified. record {
                    context = context;
                    is_signed = refl;
                    context_digest = ap (λ d. d.identity_context_digest) built;
                    key = key;
                    only = only;
                    by_key = by_key;
                    registered = identity_failure_reason-none engine.agents context.identity passed;
                    decided = decided ∙ ap (λ d. ok d.authorization) (sym built);
                  },
                  λ unverified. cc (ap (λ d. d.identity_verified) built, unverified),
                )
          ]

      verified-is-own :
          (context : SignedAuthenticatedAgentIdentity) {identity : AuthenticatedAgentIdentity}
          → verify_signed_authenticated_agent_identity context trust at ≡ ok identity
          → identity ≡ context.identity
      verified-is-own context h =
          let (key, only, by_key) =
            verify_signed_authenticated_agent_identity-IsVerifiedContext context trust at h in
          by_key.returned

      -- Every decision that `evaluate` returns says the truth of who acts. Where it says that the
      -- identity is verified, the argument was a signed identity, one active key of the trust bundle
      -- verifies it at the time of the evaluation, it is the identity of the request's institution,
      -- agent and owner, that agent is registered, enabled and has the descriptor the identity was
      -- made for, and the decision is that of the engine without identities. Where it does not, the
      -- decision is DENY, permits nothing and asks for no approval.
      pub evaluate_authenticated-IsJustified :
          (identity : IdentityArgument) {d : AuthenticatedAuthorizationDecision}
          → evaluate_authenticated engine request policy identity trust at ≡ ok d
          → IsJustified identity d
      unfolding evaluate_authenticated
      evaluate_authenticated-IsJustified (unsigned_context identity) {d = d} h =
          denied-IsJustified (unsigned_context identity) d (identity_deny-IsDenied _ _ h)
      evaluate_authenticated-IsJustified other_object {d = d} h =
          denied-IsJustified other_object d (identity_deny-IsDenied _ _ h)
      evaluate_authenticated-IsJustified (signed_context context) {d = d} h =
          elim (Result-cases (verify_signed_authenticated_agent_identity context trust at)) [
            | inl (identity, trusted) ↦
                let own = verified-is-own context trusted in
                evaluate_verified-IsJustified context (trusted ∙ ap ok own) (
                  ap (λ i. evaluate_verified engine request policy context i at) (sym own)
                  ∙ (rw (trusted, evaluate_authenticated) at h))
            | inr (e, refused) ↦ elim (Bool-cases (is_signature_error e)) [
              | inr other ↦ absurd (ground (arith, refused, other))
              | inl own ↦ denied-IsJustified (signed_context context) d (
                  identity_deny-IsDenied _ _
                    (rw own at (rw (refused, evaluate_authenticated) at h)))
            ]
          ]
