-- ===== src/Execution/Gate/Issue.antt =====
-- What `ExecutionGate.issue_lease` has checked when it returns a lease.
use reg_agent_ops.Approval.ApprovalRequirement
use reg_agent_ops.Approval.ApprovalResolution
use reg_agent_ops.Execution.EmergencyStopState
use reg_agent_ops.Execution.ExecutionLease
use reg_agent_ops.Models.AgentActionEnvelope
use reg_agent_ops.Models.AuthenticatedAuthorizationDecision
use reg_agent_ops.Approval.ApprovalRequirement.{ApprovalRequirement}
use reg_agent_ops.Approval.ApprovalResolution.{ApprovalResolution}
use reg_agent_ops.Approval.Checks.{digests}
use reg_agent_ops.Approval.Gate.{resolution}
use reg_agent_ops.Base.{
  >>-eq-ok, >>=-eq-ok, Error, Option, Result-cases, String, ap, arith, eq_of_bne, false, inl, inr,
  ltb, nat_eq, none, ok, ok-injective, raise_if, raise_if-ok, refl, some, string_eq, subst, sym,
  texts_eq, true, unit_result, value_error, ℕ, ◌*◌, ◌+◌, ◌-◌, ◌<◌, ◌∙◌, ◌≡◌, ◌≢◌, ◌≤◌,
}
use reg_agent_ops.Execution.ApprovalChain.{
  approval_chain, approval_resolved, approval_scope, validate_approval_chain,
}
use reg_agent_ops.Execution.EmergencyStopState.{EmergencyStopState}
use reg_agent_ops.Execution.EmergencyStops.{EmergencyStopRegistry, current, scope}
use reg_agent_ops.Execution.ExecutionLease.{ExecutionLease}
use reg_agent_ops.Execution.Gate.{
  ExecutionGate, issue_lease, lease_record, max_authorization_age_seconds, running_state,
}
use reg_agent_ops.Execution.Outcome.{assert_current_governance, validate_outcome}
use reg_agent_ops.Mcp.EnforcementPoint.{message}
use reg_agent_ops.Mcp.McpPolicyEnforcementOutcome.{McpPolicyEnforcementOutcome}
use reg_agent_ops.Models.AgentActionEnvelope.{AgentActionEnvelope}
use reg_agent_ops.Models.AuthenticatedAuthorizationDecision.{AuthenticatedAuthorizationDecision}
use reg_agent_ops.Models.Checks.{
  default_limit, raise_if_less, raise_if_less-ok, raise_unless_less, raise_unless_less-ok,
  require_text, utc_timestamp,
}
use reg_agent_ops.Models.DataClassification.{data_classification_eq}
use reg_agent_ops.Models.Decision.{Decision, decision_eq}
use reg_agent_ops.Models.Environment.{environment_eq}
use reg_agent_ops.Models.RiskTier.{risk_tier_eq}
use reg_agent_ops.Models.Value.{Platform}

validate_outcome-ok :
    (outcome : McpPolicyEnforcementOutcome) {authorization : AuthenticatedAuthorizationDecision}
    → validate_outcome outcome ≡ ok authorization
    → (outcome.authorization ≡ some authorization)
      × (authorization.identity_verified ≡ true)
      × (outcome.result.decision ≢ Decision.deny)
unfolding validate_outcome
validate_outcome-ok outcome {authorization = a} h = (
  ground arith,
  ground arith,
  λ e. ground (arith, decision_eq.beq_iff outcome.result.decision Decision.deny),
)

module _ ⦃p : Platform⦄ where
  -- The institution's emergency stop lets actions run at a time.
  pub record IsRunning (stops : EmergencyStopRegistry) (institution_id : String) (now : ℕ)
      (stop : EmergencyStopState) : Type 0 where
    pub is_current : current stops institution_id ≡ ok stop
    pub effective : ℕ
    pub effective_parsed :
        utc_timestamp "emergency-stop effective_at" stop.effective_at ≡ ok effective
    pub in_force : effective ≤ now
    pub not_halted : stop.halted ≡ false

  pub running_state-IsRunning :
      (stops : EmergencyStopRegistry) (institution_id at : String) (now : ℕ) (message : String)
      {stop : EmergencyStopState}
      → running_state stops institution_id at now message ≡ ok stop
      → IsRunning stops institution_id now stop
  unfolding running_state
  running_state-IsRunning stops institution_id at now message {stop = stop} h =
      let (s, found, h₁) = >>=-eq-ok (current stops institution_id) _ h in
      let (effective, parsed, h₂) =
        >>=-eq-ok (utc_timestamp "emergency-stop effective_at" s.effective_at) _ h₁ in
      let (begun, h₃) = >>-eq-ok (raise_if_less _ _ _ _ _) _ h₂ in
      let (runs, h₄) = >>-eq-ok (raise_if s.halted _) _ h₃ in
      let same : s ≡ stop = ok-injective h₄ in
      record {
        is_current = found ∙ ap ok same;
        effective = effective;
        effective_parsed =
            ap (λ x. utc_timestamp "emergency-stop effective_at" x.effective_at) (sym same)
            ∙ parsed;
        in_force = (raise_if_less-ok _ _ _ _ _ begun).1;
        not_halted = ap (λ x. x.halted) (sym same) ∙ raise_if-ok _ _ runs;
      }

  -- The approval that a lease rests on, where the policy result requires one.
  pub record IsApproved (outcome : McpPolicyEnforcementOutcome)
      (authorization : AuthenticatedAuthorizationDecision)
      (requirement : Option ApprovalRequirement) (resolution : Option ApprovalResolution)
      (lease : ExecutionLease) : Type 0 where
    pub q : ApprovalRequirement
    pub r : ApprovalResolution
    pub requirement_given : requirement ≡ some q
    pub resolution_given : resolution ≡ some r
    pub request_bound : q.request_digest ≡ AgentActionEnvelope.artifact_digest outcome.request
    pub authorization_bound :
        q.authenticated_authorization_digest
        ≡ AuthenticatedAuthorizationDecision.artifact_digest authorization
    pub resolution_bound : r.requirement_digest ≡ ApprovalRequirement.artifact_digest q
    pub continues : r.authorization_continuation_permitted ≡ true
    pub lease_names : lease.approval_resolution_digest ≡ some (ApprovalResolution.artifact_digest r)

  approval_chain-ok :
      (outcome : McpPolicyEnforcementOutcome) (authorization : AuthenticatedAuthorizationDecision)
      (q : ApprovalRequirement) (r : ApprovalResolution) (at : String)
      → approval_chain outcome authorization q r at ≡ ok tt
      → (approval_scope outcome authorization q ≡ ok tt) × (approval_resolved outcome q r ≡ ok tt)
  unfolding approval_chain
  approval_chain-ok outcome authorization q r at h =
      let (a, _, h₁) = >>=-eq-ok (utc_timestamp "lease issue time" at) _ h in
      let (b, _, h₂) =
        >>=-eq-ok (utc_timestamp "approval requirement issued_at" q.issued_at) _ h₁ in
      let (c, _, h₃) =
        >>=-eq-ok (utc_timestamp "approval requirement expires_at" q.expires_at) _ h₂ in
      let (d, _, h₄) = >>=-eq-ok (utc_timestamp "approval evaluated_at" r.evaluated_at) _ h₃ in
      let (scope, h₅) = >>-eq-ok (approval_scope outcome authorization q) _ h₄ in
      (scope, ground arith)

  approved :
      (outcome : McpPolicyEnforcementOutcome) (authorization : AuthenticatedAuthorizationDecision)
      (requirement : Option ApprovalRequirement) (resolution : Option ApprovalResolution)
      (at : String) (lease : ExecutionLease) {digests : Option String × Option String}
      → validate_approval_chain outcome authorization requirement resolution at ≡ ok digests
      → lease.approval_resolution_digest ≡ digests.1
      → outcome.result.human_approval_required ≡ true
      → IsApproved outcome authorization requirement resolution lease
  unfolding validate_approval_chain approval_scope approval_resolved
  approved outcome authorization none resolution at lease h l k = absurd (ground arith)
  approved outcome authorization (some q) none at lease h l k = absurd (ground arith)
  approved outcome authorization (some q) (some r) at lease h l k =
      let (scope, resolved) = approval_chain-ok outcome authorization q r at (ground arith) in
      record {
        q = q;
        r = r;
        requirement_given = refl;
        resolution_given = refl;
        request_bound =
            eq_of_bne q.request_digest (AgentActionEnvelope.artifact_digest outcome.request)
              (ground arith);
        authorization_bound =
            eq_of_bne q.authenticated_authorization_digest
              (AuthenticatedAuthorizationDecision.artifact_digest authorization) (ground arith);
        resolution_bound =
            eq_of_bne r.requirement_digest (ApprovalRequirement.artifact_digest q) (ground arith);
        continues = ground arith;
        lease_names = ground arith;
      }

  unapproved :
      (outcome : McpPolicyEnforcementOutcome) (authorization : AuthenticatedAuthorizationDecision)
      (requirement : Option ApprovalRequirement) (resolution : Option ApprovalResolution)
      (at : String) {digests : Option String × Option String}
      → validate_approval_chain outcome authorization requirement resolution at ≡ ok digests
      → outcome.result.human_approval_required ≡ false
      → outcome.result.execution_permitted ≡ true
  unfolding validate_approval_chain
  unapproved outcome authorization requirement resolution at h k = ground arith

  -- A lease lives for more than nothing and for at most 120 seconds.
  pub record IsShortLived (lease : ExecutionLease) : Type 0 where
    pub issued : ℕ
    pub expires : ℕ
    pub issued_parsed : utc_timestamp "issued_at" lease.issued_at ≡ ok issued
    pub expires_parsed : utc_timestamp "expires_at" lease.expires_at ≡ ok expires
    pub positive : issued < expires
    pub bounded : expires ≤ issued + 120000000

  abbrev lifetime_error : Error
  lifetime_error = value_error "execution lease lifetime must be between 1 and 120 seconds"

  post_init-IsShortLived :
      (lease : ExecutionLease) → ExecutionLease.post_init lease ≡ ok tt → IsShortLived lease
  unfolding ExecutionLease.post_init
  post_init-IsShortLived lease h = elim (Result-cases (utc_timestamp "issued_at" lease.issued_at)) [
    | inr (e, failed) ↦ absurd (ground arith)
    | inl (issued, issued_parsed) ↦
        elim (Result-cases (utc_timestamp "expires_at" lease.expires_at)) [
          | inr (e, failed) ↦ absurd (ground arith)
          | inl (expires, expires_parsed) ↦ record {
            issued = issued;
            expires = expires;
            issued_parsed = issued_parsed;
            expires_parsed = expires_parsed;
            positive =
                elim (unit_result (
                  raise_unless_less lease.issued_at lease.expires_at issued expires
                    lifetime_error)) [
                      | inr (e, failed) ↦ absurd (ground arith)
                      | inl later ↦ (raise_unless_less-ok _ _ _ _ _ later).1
                    ];
            bounded =
                elim (unit_result (
                  raise_unless_less lease.issued_at lease.expires_at issued expires
                    lifetime_error)) [
                      | inr (e, failed) ↦ absurd (ground arith)
                      | inl later ↦ ground (arith, (raise_unless_less-ok _ _ _ _ _ later).1)
                    ];
          }
        ]
  ]

  -- Everything that a lease rests on when it is issued.
  pub record IsIssued (gate : ExecutionGate) (outcome : McpPolicyEnforcementOutcome)
      (requirement : Option ApprovalRequirement) (resolution : Option ApprovalResolution)
      (lease : ExecutionLease) : Type 0 where
    pub authorization : AuthenticatedAuthorizationDecision
    pub authorized : outcome.authorization ≡ some authorization
    pub verified : authorization.identity_verified ≡ true
    pub undenied : outcome.result.decision ≢ Decision.deny
    pub governed : assert_current_governance gate.mcp outcome ≡ ok tt
    pub lifetime : IsShortLived lease
    pub evaluated : ℕ
    pub evaluated_parsed :
        utc_timestamp "policy evaluated_at" outcome.result.evaluated_at ≡ ok evaluated
    pub not_early : evaluated ≤ lifetime.issued
    pub not_stale : lifetime.issued ≤ evaluated + 120000000
    pub stop : EmergencyStopState
    pub running : IsRunning gate.stops outcome.request.institution_id lifetime.issued stop
    pub binds_stop : lease.emergency_stop_state_digest ≡ EmergencyStopState.artifact_digest stop
    pub with_approval :
        outcome.result.human_approval_required ≡ true
        → IsApproved outcome authorization requirement resolution lease
    pub without_approval :
        outcome.result.human_approval_required ≡ false → outcome.result.execution_permitted ≡ true

  -- A lease is issued only for a verified, not denied authorization, under the governance state that
  -- was evaluated, at most 120 seconds after the evaluation, while the emergency stop is in force and
  -- not halted; where the policy result requires approval, with the continuing resolution of a
  -- requirement for this request and authorization, and where it does not, only if the result itself
  -- permits execution. It lives for at most 120 seconds.
  pub issue_lease-IsIssued :
      (gate : ExecutionGate) (outcome : McpPolicyEnforcementOutcome)
      (lease_id executor_id issued_at expires_at : String)
      (requirement : Option ApprovalRequirement) (resolution : Option ApprovalResolution)
      {lease : ExecutionLease}
      → issue_lease gate outcome lease_id executor_id issued_at expires_at requirement resolution
        ≡ ok lease
      → IsIssued gate outcome requirement resolution lease
  unfolding issue_lease lease_record
  issue_lease-IsIssued gate outcome lease_id executor_id issued_at expires_at requirement resolution
        {lease = lease} h =
      let (authorization, valid, h₁) = >>=-eq-ok (validate_outcome outcome) _ h in
      let (governed, h₂) = >>-eq-ok (assert_current_governance gate.mcp outcome) _ h₁ in
      let (_, h₃) = >>-eq-ok (require_text "executor_id" executor_id default_limit) _ h₂ in
      let (issue_time, issue_parsed, h₄) = >>=-eq-ok (utc_timestamp "issued_at" issued_at) _ h₃ in
      let (evaluated, evaluated_parsed, h₅) =
        >>=-eq-ok (utc_timestamp "policy evaluated_at" outcome.result.evaluated_at) _ h₄ in
      let (early, h₆) = >>-eq-ok (raise_if_less _ _ _ _ _) _ h₅ in
      let (stale, h₇) =
        >>-eq-ok
          (raise_if (ltb (max_authorization_age_seconds * 1000000) (issue_time - evaluated)) _) _
          h₆ in
      let (stop, runs, h₈) =
        >>=-eq-ok
          (running_state gate.stops outcome.request.institution_id issued_at issue_time
            "emergency stop is active; execution lease issuance denied")
          _ h₇ in
      let (digests, chain, h₉) =
        >>=-eq-ok (validate_approval_chain outcome authorization requirement resolution issued_at) _
          h₈ in
      let made =
        lease_record outcome authorization lease_id executor_id issued_at expires_at stop digests in
      let (checked, h₁₀) = >>-eq-ok (ExecutionLease.post_init made) (ok made) h₉ in
      let same : made ≡ lease = ok-injective h₁₀ in
      let (authorized, verified, undenied) = validate_outcome-ok outcome valid in
      let life = post_init-IsShortLived made checked in
      let times : life.issued ≡ issue_time = ok-injective (sym life.issued_parsed ∙ issue_parsed) in
      subst (IsIssued gate outcome requirement resolution) same (record {
        authorization = authorization;
        authorized = authorized;
        verified = verified;
        undenied = undenied;
        governed = governed;
        lifetime = life;
        evaluated = evaluated;
        evaluated_parsed = evaluated_parsed;
        not_early = rw times (raise_if_less-ok _ _ _ _ _ early).1;
        not_stale = ground arith;
        stop = stop;
        running = rw times (
            running_state-IsRunning gate.stops outcome.request.institution_id issued_at issue_time
              "emergency stop is active; execution lease issuance denied" runs);
        binds_stop = refl;
        with_approval =
            approved outcome authorization requirement resolution issued_at made chain refl;
        without_approval = unapproved outcome authorization requirement resolution issued_at chain;
      })
