-- ===== src/Mcp/EnforcementPoint/Enforced.antt =====
-- What an outcome of `McpPolicyEnforcementPoint.evaluate` guarantees.
use reg_agent_ops.Mcp.McpPolicyEnforcementOutcome
use reg_agent_ops.Mcp.McpPolicyEnforcementResult
use reg_agent_ops.Mcp.McpToolBinding
use reg_agent_ops.Mcp.McpToolDescriptor
use reg_agent_ops.Mcp.Registry.Current
use reg_agent_ops.Base.{
  >>-eq-ok, >>=-eq-ok, Bool-cases, Option, Result-cases, String, [], ap, arith, contains, eq_of_bne,
  false, inl, inr, nat_eq, none, ok, ok-injective, raise_if, raise_if-ok, refl, some, string_eq,
  subst, sym, texts_eq, true, unit_result, ◌!=◌, ◌==◌, ◌∙◌, ◌∷◌, ◌≡◌,
}
use reg_agent_ops.Identity.WorkloadIdentityTrustBundle.{WorkloadIdentityTrustBundle}
use reg_agent_ops.Mcp.Checks.{mcp_tool_action}
use reg_agent_ops.Mcp.EnforcementPoint.{
  Evidence, McpPolicyEnforcementPoint, after_preconditions, authorized_result, denied_result,
  enforce, enforcement_outcome, evidence_of, governed_binding, no_evidence, precondition_reason,
  preconditions,
}
use reg_agent_ops.Mcp.McpPolicyEnforcementOutcome.{McpPolicyEnforcementOutcome}
use reg_agent_ops.Mcp.McpPolicyEnforcementResult.{McpPolicyEnforcementResult, high_impact}
use reg_agent_ops.Mcp.McpToolBinding.{McpToolBinding}
use reg_agent_ops.Mcp.McpToolDescriptor.{McpToolDescriptor}
use reg_agent_ops.Mcp.Registry.{binding_ids}
use reg_agent_ops.Mcp.Registry.Current.{
  assert_binding_current, current_binding_for_tool, current_tool_registry, is_value_error,
}
use reg_agent_ops.Mcp.Registry.Live.{Agrees, IsLive, current_binding_for_tool-IsLive}
use reg_agent_ops.Models.AgentActionEnvelope.{AgentActionEnvelope}
use reg_agent_ops.Models.AuthenticatedAuthorizationDecision.{AuthenticatedAuthorizationDecision}
use reg_agent_ops.Models.DataClassification.{data_classification_eq}
use reg_agent_ops.Models.Decision.{Decision, decision_eq}
use reg_agent_ops.Models.Environment.{environment_eq}
use reg_agent_ops.Models.RiskTier.{risk_tier_eq}
use reg_agent_ops.Models.Value.{Platform}
use reg_agent_ops.Policy.Authenticated.{
  IdentityArgument, authenticated_engine, evaluate_authenticated,
}
use reg_agent_ops.Policy.Authenticated.Verified.{
  IsAuthenticated, evaluate_authenticated-IsJustified,
}
use reg_agent_ops.Policy.PolicyBundle.{PolicyBundle}
use reg_agent_ops.Registry.ToolRegistry.{ToolRegistry}

module _ ⦃p : Platform⦄ where
  -- What stands behind an outcome that is not DENY: a live binding of the tool, of which every live
  -- binding of the tool in the registry has the digest, and a verified identity on the tools that are
  -- current.
  pub record IsGovernedBy (point : McpPolicyEnforcementPoint) (request : AgentActionEnvelope)
      (policy : PolicyBundle) (identity : IdentityArgument) (trust : WorkloadIdentityTrustBundle)
      (at : String) (outcome : McpPolicyEnforcementOutcome) : Type 0 where
    pub invoked : request.action ≡ mcp_tool_action
    pub binding : McpToolBinding
    pub live : IsLive point.mcp request.institution_id request.tool_id binding
    pub only :
        Agrees point.mcp request.institution_id request.tool_id
          (binding_ids point.mcp request.institution_id)
          (McpToolBinding.artifact_digest binding)
    pub descriptor : McpToolDescriptor
    pub asserted : assert_binding_current point.mcp binding ≡ ok descriptor
    pub server_named :
        outcome.result.server_registration_digest ≡ some binding.server_registration_digest
    pub snapshot_named : outcome.result.tool_snapshot_digest ≡ some binding.tool_snapshot_digest
    pub descriptor_named :
        outcome.result.tool_descriptor_digest ≡ some (McpToolDescriptor.artifact_digest descriptor)
    pub tools : ToolRegistry
    pub tools_current : current_tool_registry point.mcp request.institution_id ≡ ok tools
    pub authorization : AuthenticatedAuthorizationDecision
    pub attached : outcome.authorization ≡ some authorization
    pub decided : outcome.result.decision ≡ authorization.authorization.decision
    pub authenticated :
        IsAuthenticated
          (authenticated_engine point.agents tools)
          request
          policy
          identity
          trust
          at
          authorization

  -- What holds of every outcome.
  pub record IsEnforced (point : McpPolicyEnforcementPoint) (request : AgentActionEnvelope)
      (policy : PolicyBundle) (identity : IdentityArgument) (trust : WorkloadIdentityTrustBundle)
      (at : String) (outcome : McpPolicyEnforcementOutcome) : Type 0 where
    pub own_request : outcome.request ≡ request
    pub never_executes : outcome.result.execution_performed ≡ false
    pub registry_named :
        outcome.result.mcp_registry_snapshot_digest
        ≡ Current.snapshot_digest point.mcp request.institution_id
    pub denial_is_final :
        outcome.result.decision ≡ Decision.deny
        → (outcome.result.execution_permitted ≡ false)
          × (outcome.result.human_approval_required ≡ false)
    pub continuation_governed :
        (outcome.result.decision == Decision.deny) ≡ false
        → IsGovernedBy point request policy identity trust at outcome
    pub permission_narrow :
        outcome.result.execution_permitted ≡ true
        → (high_impact request.risk_tier ≡ false)
          × (contains
                (Decision.allow ∷ Decision.allow_with_constraints ∷ [])
                outcome.result.decision
              ≡ true)

  enforcement_outcome-ok :
      (request : AgentActionEnvelope) (result : McpPolicyEnforcementResult)
      (authorization : Option AuthenticatedAuthorizationDecision)
      {outcome : McpPolicyEnforcementOutcome}
      → enforcement_outcome request result authorization ≡ ok outcome
      → (outcome ≡ record { request = request; result = result; authorization = authorization })
        × (McpPolicyEnforcementResult.flags_consistent result ≡ ok tt)
  unfolding enforcement_outcome McpPolicyEnforcementResult.post_init
  enforcement_outcome-ok request result authorization h =
      let (checked, h₁) = >>-eq-ok (McpPolicyEnforcementResult.post_init result) _ h in
      (
        sym (ok-injective ((>>-eq-ok (McpPolicyEnforcementOutcome.post_init _) _ h₁).1)),
        ground (arith, checked, unit_result (McpPolicyEnforcementResult.flags_consistent result)),
      )

  -- what the result's constructor has checked of its flags
  flags_consistent-inverts :
      (result : McpPolicyEnforcementResult)
      → McpPolicyEnforcementResult.flags_consistent result ≡ ok tt
      → (result.decision ≡ Decision.deny
          → (result.execution_permitted ≡ false) × (result.human_approval_required ≡ false))
        × (result.execution_permitted ≡ true
            → (high_impact result.risk_tier ≡ false)
              × (contains (Decision.allow ∷ Decision.allow_with_constraints ∷ []) result.decision
                  ≡ true))
  unfolding McpPolicyEnforcementResult.flags_consistent
  flags_consistent-inverts result h =
      (λ deny. (ground arith, ground arith), λ permitted. (ground arith, ground arith))

  governed_binding-inverts :
      (point : McpPolicyEnforcementPoint) (request : AgentActionEnvelope) {binding : McpToolBinding}
      {descriptor : McpToolDescriptor}
      → governed_binding point request ≡ ok (binding, descriptor)
      → (request.action ≡ mcp_tool_action)
        × (current_binding_for_tool point.mcp request.institution_id request.tool_id ≡ ok binding)
        × (assert_binding_current point.mcp binding ≡ ok descriptor)
  unfolding governed_binding
  governed_binding-inverts point request h =
      let (invoked, h₁) = >>-eq-ok (raise_if (request.action != mcp_tool_action) _) _ h in
      let (binding, found, h₂) =
        >>=-eq-ok (current_binding_for_tool point.mcp request.institution_id request.tool_id) _
          h₁ in
      let (descriptor, asserted, h₃) = >>=-eq-ok (assert_binding_current point.mcp binding) _ h₂ in
      let own = ok-injective h₃ in
      (
        eq_of_bne request.action mcp_tool_action (raise_if-ok _ _ invoked),
        found ∙ ap (λ pair. ok pair.0) own,
        ap (λ pair. assert_binding_current point.mcp pair.0) (sym own)
            ∙ asserted
            ∙ ap (λ pair. ok pair.1) own,
      )

  module _ (point : McpPolicyEnforcementPoint) (request : AgentActionEnvelope)
      (policy : PolicyBundle) (identity : IdentityArgument) (trust : WorkloadIdentityTrustBundle)
      (at : String) where
    refused-IsEnforced :
        (evidence : Evidence) (reason : String) {outcome : McpPolicyEnforcementOutcome}
        → enforcement_outcome request
            (denied_result request
              (Current.snapshot_digest point.mcp request.institution_id)
              evidence
              reason
              at)
            none
          ≡ ok outcome
        → IsEnforced point request policy identity trust at outcome
    unfolding denied_result
    refused-IsEnforced evidence reason h =
        let (made, flags) = enforcement_outcome-ok request _ none h in
        subst (IsEnforced point request policy identity trust at) (sym made) (record {
          own_request = refl;
          never_executes = refl;
          registry_named = refl;
          denial_is_final = λ deny. (refl, refl);
          continuation_governed = λ continues. cc continues;
          permission_narrow = λ permitted. cc permitted;
        })

    authorized-IsEnforced :
        (binding : McpToolBinding) (descriptor : McpToolDescriptor) (tools : ToolRegistry)
        (authorization : AuthenticatedAuthorizationDecision) {outcome : McpPolicyEnforcementOutcome}
        → governed_binding point request ≡ ok (binding, descriptor)
        → current_tool_registry point.mcp request.institution_id ≡ ok tools
        → evaluate_authenticated
            (authenticated_engine point.agents tools)
            request
            policy
            identity
            trust
            at
          ≡ ok authorization
        → enforcement_outcome request
            (authorized_result request
              (Current.snapshot_digest point.mcp request.institution_id)
              (evidence_of binding descriptor)
              authorization
              at)
            (some authorization)
          ≡ ok outcome
        → IsEnforced point request policy identity trust at outcome
    unfolding authorized_result
    authorized-IsEnforced binding descriptor tools authorization governed tools_current authorized
          h =
        let result =
          authorized_result request (Current.snapshot_digest point.mcp request.institution_id)
            (evidence_of binding descriptor) authorization at in
        let (made, flags) = enforcement_outcome-ok request result (some authorization) h in
        let (final, narrow) = flags_consistent-inverts result flags in
        let (verified, unverified) =
          evaluate_authenticated-IsJustified request policy at
            (authenticated_engine point.agents tools) trust identity authorized in
        subst (IsEnforced point request policy identity trust at) (sym made) (record {
          own_request = refl;
          never_executes = refl;
          registry_named = refl;
          denial_is_final = final;
          continuation_governed = λ continues. elim (Bool-cases authorization.identity_verified) [
            | inr unknown ↦ absurd (ground (arith, (unverified unknown).denied))
            | inl known ↦
                let (invoked, found, asserted) = governed_binding-inverts point request governed in
                let (live, only) =
                  current_binding_for_tool-IsLive point.mcp request.institution_id request.tool_id
                    found in
                record {
                  invoked = invoked;
                  binding = binding;
                  live = live;
                  only = only;
                  descriptor = descriptor;
                  asserted = asserted;
                  server_named = refl;
                  snapshot_named = refl;
                  descriptor_named = refl;
                  tools = tools;
                  tools_current = tools_current;
                  authorization = authorization;
                  attached = refl;
                  decided = refl;
                  authenticated = verified known;
                }
          ];
          permission_narrow = narrow;
        })

    -- Whatever `evaluate` of the enforcement point returns is about its own request and registry and
    -- has executed nothing. DENY permits nothing and asks for no approval. Any other decision
    -- invokes a tool with a live binding, which, with its descriptor, the outcome names, and of which
    -- every live binding of the tool in the registry has the digest; the decision is the policy's, on
    -- the tools that are current, about a verified identity of the request's registered agent.
    -- Execution is permitted only on ALLOW, with constraints or without, and never for a request of
    -- high or critical risk.
    pub enforce-IsEnforced :
        {outcome : McpPolicyEnforcementOutcome}
        → enforce point request policy identity trust at ≡ ok outcome
        → IsEnforced point request policy identity trust at outcome
    unfolding enforce preconditions after_preconditions
    enforce-IsEnforced h = elim (Result-cases (governed_binding point request)) [
      | inr (e, failed) ↦ elim (Bool-cases (is_value_error e)) [
        | inr other ↦ absurd (ground arith)
        | inl caught ↦ refused-IsEnforced no_evidence (precondition_reason e) (ground arith)
      ]
      | inl ((binding, descriptor), governed) ↦
          let after = rw (governed, preconditions) at h in
          elim (Result-cases (current_tool_registry point.mcp request.institution_id)) [
            | inr (e, failed) ↦ elim (Bool-cases (is_value_error e)) [
              | inr other ↦ absurd (ground arith)
              | inl caught ↦
                  refused-IsEnforced (evidence_of binding descriptor) (precondition_reason e)
                    (rw caught at (rw failed at after))
            ]
            | inl (tools, tools_current) ↦
                let (authorization, authorized, made) =
                  >>=-eq-ok
                    (evaluate_authenticated (authenticated_engine point.agents tools) request policy
                      identity trust at)
                    _ (rw tools_current at after) in
                authorized-IsEnforced binding descriptor tools authorization governed tools_current
                  authorized made
          ]
    ]
