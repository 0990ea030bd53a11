-- ===== src/Policy/Authenticated/Total.antt =====
-- When `AuthenticatedPolicyEngine.evaluate` returns a decision; and its agreement with the engine
-- without identities on every request whose identity is verified.
use reg_agent_ops.Identity.AuthenticatedAgentIdentity
use reg_agent_ops.Identity.SignedAuthenticatedAgentIdentity
use reg_agent_ops.Identity.WorkloadIdentityTrustKey
use reg_agent_ops.Models.AgentActionEnvelope
use reg_agent_ops.Models.AuthenticatedAuthorizationDecision
use reg_agent_ops.Policy.PolicyBundle
use reg_agent_ops.Approval.Checks.{parse_with}
use reg_agent_ops.Base.{
  All, Bool, Option, Option-cases, Result-cases, String, [], ap, arith, beq_self, codes, false, inl,
  inr, is_hex, is_hex_64, ltb, nat_eq, none, not, ok, refl, some, string_eq, sym, texts_eq, true, ℕ,
  ◌!=◌, ◌&&◌, ◌||◌, ◌∙◌, ◌∷◌, ◌≡◌,
}
use reg_agent_ops.Identity.AuthenticatedAgentIdentity.{AuthenticatedAgentIdentity}
use reg_agent_ops.Identity.Context.{context_time, verify_signed_authenticated_agent_identity}
use reg_agent_ops.Identity.Context.Total.{made-AreAware, verify_context-is_signature_error}
use reg_agent_ops.Identity.Context.Verified.{
  IsVerifiedContext, verify_signed_authenticated_agent_identity-IsVerifiedContext,
}
use reg_agent_ops.Identity.SignedAuthenticatedAgentIdentity.{SignedAuthenticatedAgentIdentity}
use reg_agent_ops.Identity.WorkloadIdentityTrustBundle.{WorkloadIdentityTrustBundle}
use reg_agent_ops.Identity.WorkloadIdentityTrustKey.{WorkloadIdentityTrustKey}
use reg_agent_ops.Models.AgentActionEnvelope.{AgentActionEnvelope}
use reg_agent_ops.Models.AuthenticatedAuthorizationDecision.{AuthenticatedAuthorizationDecision}
use reg_agent_ops.Models.AuthorizationDecision.{AuthorizationDecision}
use reg_agent_ops.Models.Checks.{instant, is_aware, less-aware, require_utc_timestamp}
use reg_agent_ops.Models.DataClassification.{data_classification_eq}
use reg_agent_ops.Models.Decision.{Decision, decision_eq}
use reg_agent_ops.Models.Environment.{environment_eq}
use reg_agent_ops.Models.RiskTier.{risk_tier_eq}
use reg_agent_ops.Models.Value.{HexDigests, Platform, digest_artifact-is_hex_64}
use reg_agent_ops.Policy.Authenticated.{
  AuthenticatedPolicyEngine, IdentityArgument, authenticated_decision, authenticated_record,
  context_times, denied_authorization, evaluate_authenticated, evaluate_verified, identity_deny,
  identity_failure_reason, other_object, signed_context, unsigned_context, within_context,
  zero_digest,
}
use reg_agent_ops.Policy.Authenticated.Verified.{IsRegisteredAgent}
use reg_agent_ops.Policy.Decides.{described, evaluate-specified, specified}
use reg_agent_ops.Policy.Engine.{decision_record, make_decision, refusal}
use reg_agent_ops.Policy.PolicyBundle.{PolicyBundle}
use reg_agent_ops.Policy.Precedence.{IsConsistent}
use reg_agent_ops.Policy.Totality.{make_decision-returns, request_digest-hex}
use reg_agent_ops.Registry.AgentRegistry.{AgentRegistry}

module _ ⦃p : Platform⦄ where
  context_time-instant :
      (value : String) {t : ℕ} → context_time value ≡ ok t → instant value ≡ some t
  unfolding context_time parse_with
  context_time-instant value h = ground arith

  within_context-returns :
      (identity : AuthenticatedAgentIdentity) (at : String) (now established until : ℕ)
      → is_aware at ≡ is_aware identity.established_at
      → is_aware at ≡ is_aware identity.valid_until
      → within_context identity at now established until
        ≡ ok (not (ltb now established) && ltb now until)
  unfolding within_context
  within_context-returns identity at now established until same same' = ground (
    arith,
    less-aware at identity.established_at now established same,
    less-aware at identity.valid_until now until same',
  )

  identity_failure_reason-returns :
      (agents : AgentRegistry) (request : AgentActionEnvelope)
      (identity : AuthenticatedAgentIdentity) (at : String)
      → is_aware at ≡ is_aware identity.established_at
      → is_aware at ≡ is_aware identity.valid_until
      → (reason : Option String) × (identity_failure_reason agents request identity at ≡ ok reason)
  unfolding identity_failure_reason
  identity_failure_reason-returns agents request identity at same same' =
      elim (Result-cases (identity_failure_reason agents request identity at)) [
        | inl returned ↦ returned
        | inr (e, raised) ↦ elim (Option-cases (context_times identity at)) [
          | inl unread ↦ absurd (ground (arith, unread))
          | inr ((now, established, until), read) ↦ absurd (
              ground
                (arith, read, within_context-returns identity at now established until same same'))
        ]
      ]

  -- what `identity_failure_reason-none` says, the other way round
  identity_failure_reason-passes :
      (agents : AgentRegistry) (request : AgentActionEnvelope) (at : String)
      (key : WorkloadIdentityTrustKey) (context : SignedAuthenticatedAgentIdentity)
      → IsVerifiedContext key context at context.identity
      → IsRegisteredAgent agents request context.identity
      → identity_failure_reason agents request context.identity at ≡ ok none
  unfolding identity_failure_reason
  identity_failure_reason-passes agents request at key context v registered = ground (
    arith,
    registered.institution,
    registered.agent_id,
    registered.owner,
    registered.found,
    registered.enabled,
    registered.unchanged,
    beq_self request.institution_id,
    beq_self request.agent_id,
    beq_self request.human_owner_id,
    beq_self context.identity.agent_descriptor_digest,
    context_time-instant at v.now_parsed,
    context_time-instant context.identity.established_at v.established_parsed,
    context_time-instant context.identity.valid_until v.valid_until_parsed,
    v.begun,
    v.unexpired,
    within_context-returns context.identity at v.now v.established v.valid_until
        v.established_comparable v.valid_until_comparable,
  )

  zero_digest-is_hex_64 : is_hex_64 zero_digest ≡ true
  unfolding is_hex_64 codes is_hex
  zero_digest-is_hex_64 = refl

  -- Where the identity is signed, it and the trust keys have passed their constructors' checks.
  abbrev pub IsMade : WorkloadIdentityTrustBundle → IdentityArgument → Type 0
  IsMade trust (signed_context context) =
      (AuthenticatedAgentIdentity.post_init context.identity ≡ ok tt)
      × All (λ key. WorkloadIdentityTrustKey.post_init key ≡ ok tt) trust.keys
  IsMade trust (unsigned_context identity) = Unit
  IsMade trust other_object = Unit

  module _ (request : AgentActionEnvelope) (policy : PolicyBundle) (at : String) (hex : HexDigests)
      (time : require_utc_timestamp "evaluated_at" at ≡ ok tt) where
    abbrev denied : String → AuthorizationDecision
    denied reason = decision_record request policy at Decision.deny [] [] (reason ∷ [])

    denied_authorization-returns :
        (reason : String) → denied_authorization request policy at reason ≡ ok (denied reason)
    unfolding denied_authorization make_decision decision_record
    denied_authorization-returns reason =
        make_decision-returns request policy at hex time Decision.deny [] [] (reason ∷ []) refl refl
          refl

    authenticated_decision-returns :
        (context_digest : String) (a : AuthorizationDecision) (verified : Bool)
        → is_hex_64 context_digest ≡ true
        → a.request_digest ≡ AgentActionEnvelope.artifact_digest request
        → a.evaluated_at ≡ at
        → (not verified
            && (a.decision != Decision.deny
                || a.human_approval_required
                || a.policy_permits_execution))
          ≡ false
        → authenticated_decision request context_digest a verified at
          ≡ ok (authenticated_record request context_digest a verified at)
    unfolding authenticated_decision authenticated_record
        AuthenticatedAuthorizationDecision.post_init
    authenticated_decision-returns context_digest a verified c r e v = ground (
      arith,
      request_digest-hex request policy at hex time,
      beq_self (AgentActionEnvelope.artifact_digest request),
      beq_self at,
    )

    -- the decision that refuses an identity
    abbrev refused : String → String → AuthenticatedAuthorizationDecision
    refused context_digest reason =
        authenticated_record request context_digest (denied reason) false at

    refused-returns :
        (context_digest reason : String)
        → is_hex_64 context_digest ≡ true
        → authenticated_decision request context_digest (denied reason) false at
          ≡ ok (refused context_digest reason)
    unfolding decision_record
    refused-returns context_digest reason c =
        authenticated_decision-returns context_digest (denied reason) false c refl refl refl

    identity_deny-returns :
        (context_digest reason : String)
        → is_hex_64 context_digest ≡ true
        → identity_deny request policy context_digest at reason ≡ ok (refused context_digest reason)
    unfolding identity_deny
    identity_deny-returns context_digest reason c =
        rw (denied_authorization-returns reason) (refused-returns context_digest reason c)

    module _ (engine : AuthenticatedPolicyEngine) (valid : PolicyBundle.post_init policy ≡ ok tt)
        (consistent : All IsConsistent policy.rules) where
      context_digest-is_hex_64 :
          (context : SignedAuthenticatedAgentIdentity)
          → is_hex_64 (SignedAuthenticatedAgentIdentity.artifact_digest context) ≡ true
      unfolding SignedAuthenticatedAgentIdentity.artifact_digest
      context_digest-is_hex_64 context =
          digest_artifact-is_hex_64 hex (SignedAuthenticatedAgentIdentity.encode context)

      unsigned_digest-is_hex_64 :
          (identity : AuthenticatedAgentIdentity)
          → is_hex_64 (AuthenticatedAgentIdentity.artifact_digest identity) ≡ true
      unfolding AuthenticatedAgentIdentity.artifact_digest
      unsigned_digest-is_hex_64 identity =
          digest_artifact-is_hex_64 hex (AuthenticatedAgentIdentity.encode identity)

      -- the decision on a verified identity
      abbrev agreed : SignedAuthenticatedAgentIdentity → AuthenticatedAuthorizationDecision
      agreed context =
          authenticated_record request (SignedAuthenticatedAgentIdentity.artifact_digest context)
            (specified engine.base request policy at) true at

      specified-request :
          (specified engine.base request policy at).request_digest
          ≡ AgentActionEnvelope.artifact_digest request
      unfolding specified described decision_record
      specified-request = elim (Option-cases (refusal engine.base request policy)) [
        | inl free ↦ rw (free, specified) refl
        | inr (reason, closed) ↦ rw (closed, specified) refl
      ]

      specified-time : (specified engine.base request policy at).evaluated_at ≡ at
      unfolding specified described decision_record
      specified-time = elim (Option-cases (refusal engine.base request policy)) [
        | inl free ↦ rw (free, specified) refl
        | inr (reason, closed) ↦ rw (closed, specified) refl
      ]

      agreed-returns :
          (context : SignedAuthenticatedAgentIdentity) (identity : AuthenticatedAgentIdentity)
          → identity_failure_reason engine.agents request identity at ≡ ok none
          → evaluate_verified engine request policy context identity at ≡ ok (agreed context)
      unfolding evaluate_verified
      agreed-returns context identity passed =
          rw (passed, evaluate_verified)
            (rw (evaluate-specified request policy at hex time engine.base valid consistent) (
              authenticated_decision-returns
                (SignedAuthenticatedAgentIdentity.artifact_digest context)
                (specified engine.base request policy at) true (context_digest-is_hex_64 context)
                specified-request specified-time refl))

      evaluate_verified-returns :
          (context : SignedAuthenticatedAgentIdentity) (identity : AuthenticatedAgentIdentity)
          → is_aware at ≡ is_aware identity.established_at
          → is_aware at ≡ is_aware identity.valid_until
          → (d : AuthenticatedAuthorizationDecision) × (evaluate_verified engine request policy
                context identity at
              ≡ ok d)
      unfolding evaluate_verified
      evaluate_verified-returns context identity same same' =
          let (reason, returned) =
            identity_failure_reason-returns engine.agents request identity at same same' in
          elim (Option-cases reason) [
            | inl no_reason ↦
                (agreed context, agreed-returns context identity (returned ∙ ap ok no_reason))
            | inr (reason, is_reason) ↦ (
              refused (SignedAuthenticatedAgentIdentity.artifact_digest context) reason,
              rw (returned ∙ ap ok is_reason, evaluate_verified)
                  (rw (denied_authorization-returns reason) (
                    refused-returns (SignedAuthenticatedAgentIdentity.artifact_digest context)
                      reason (context_digest-is_hex_64 context))),
            )
          ]

      -- Where digests are 64 hexadecimal digits, the evaluation time is not naive, it, the bundle and
      -- the effects of its rules have passed their constructors' checks, and so have the identity and
      -- the trust keys where the identity is signed: `evaluate` raises nothing, it returns a decision.
      pub evaluate_authenticated-returns :
          (identity : IdentityArgument) (trust : WorkloadIdentityTrustBundle)
          → is_aware at ≡ true
          → IsMade trust identity
          → (d : AuthenticatedAuthorizationDecision) × (evaluate_authenticated engine request policy
                identity trust at
              ≡ ok d)
      unfolding evaluate_authenticated
      evaluate_authenticated-returns (unsigned_context identity) trust aware made =
          (_, identity_deny-returns _ _ (unsigned_digest-is_hex_64 identity))
      evaluate_authenticated-returns other_object trust aware made =
          (_, identity_deny-returns _ _ zero_digest-is_hex_64)
      evaluate_authenticated-returns (signed_context context) trust aware (own, keys) =
          elim (Result-cases (verify_signed_authenticated_agent_identity context trust at)) [
            | inl (identity, trusted) ↦
                let (key, only, by_key) =
                  verify_signed_authenticated_agent_identity-IsVerifiedContext context trust at
                    trusted in
                rw (trusted, evaluate_authenticated)
                  (evaluate_verified-returns context identity
                    (by_key.established_comparable
                      ∙ ap (λ i. is_aware i.established_at) (sym by_key.returned))
                    (by_key.valid_until_comparable
                      ∙ ap (λ i. is_aware i.valid_until) (sym by_key.returned)))
            | inr (e, refuses) ↦
                rw (refuses, evaluate_authenticated)
                  (rw
                    (verify_context-is_signature_error context trust at
                      (made-AreAware context trust at aware own keys) refuses)
                    (_, identity_deny-returns _ _ (context_digest-is_hex_64 context)))
          ]

      -- Where digests are 64 hexadecimal digits, and the evaluation time, the bundle and the effects of
      -- its rules have passed their constructors' checks, a signed identity that the trust bundle
      -- verifies, and that is the identity of the request's registered, enabled and unchanged agent,
      -- is never in the way: the decision carries, as verified, what the engine without identities is
      -- specified to decide.
      pub evaluate_authenticated-agrees :
          (context : SignedAuthenticatedAgentIdentity) (trust : WorkloadIdentityTrustBundle)
          → verify_signed_authenticated_agent_identity context trust at ≡ ok context.identity
          → IsRegisteredAgent engine.agents request context.identity
          → evaluate_authenticated engine request policy (signed_context context) trust at
            ≡ ok (agreed context)
      unfolding evaluate_authenticated
      evaluate_authenticated-agrees context trust trusted registered =
          let (key, only, by_key) =
            verify_signed_authenticated_agent_identity-IsVerifiedContext context trust at trusted in
          rw (trusted, evaluate_authenticated)
            (agreed-returns context context.identity (
              identity_failure_reason-passes engine.agents request at key context by_key
                registered))
