-- ===== src/Approval/Gate.antt =====
-- approval_engine.py, `ApprovalGate`: what a request needs (`build_requirement`) and what a signed
-- package gives it (`resolve`). `resolve` writes to the replay ledger, so it takes the ledger and
-- returns it, also beside an exception.
pub mod OneTime
pub mod Requirement
pub mod Continuation
pub mod Counting
use reg_agent_ops.Approval.ApprovalEscalationPolicy
use reg_agent_ops.Approval.ApprovalRequirement
use reg_agent_ops.Approval.ApprovalResolution
use reg_agent_ops.Approval.SignedApprovalPackage
use reg_agent_ops.Models.AgentActionEnvelope
use reg_agent_ops.Models.AuthenticatedAuthorizationDecision
use reg_agent_ops.Approval.ApprovalAuthorityGrant.{ApprovalAuthorityGrant}
use reg_agent_ops.Approval.ApprovalEscalationPolicy.{ApprovalEscalationPolicy}
use reg_agent_ops.Approval.ApprovalRequirement.{ApprovalRequirement}
use reg_agent_ops.Approval.ApprovalResolution.{ApprovalResolution}
use reg_agent_ops.Approval.ApprovalTrustBundle.{ApprovalTrustBundle}
use reg_agent_ops.Approval.ApprovalVote.{ApprovalVote, approval_vote_eq}
use reg_agent_ops.Approval.Authority.{ApprovalAuthorityRegistry, authorize_approver}
use reg_agent_ops.Approval.Checks.{parse_with}
use reg_agent_ops.Approval.Replay.{ApprovalReplayLedger, Redemption, consume}
use reg_agent_ops.Approval.Signature.{verify_signed_approval}
use reg_agent_ops.Approval.SignedApprovalPackage.{SignedApprovalPackage}
use reg_agent_ops.Approval.SignedApprovalStatement.{SignedApprovalStatement}
use reg_agent_ops.Base.{
  Bool, List, Option, Result, String, [], approval_authority_error, approval_gate_error, contains,
  eqb, err, false, if◌then◌else◌, is_empty, length, ltb, max, nat_eq, none, not, ok, overflow_error,
  raise_if, some, string_eq, take_text, texts_eq, true, utc_suffix, ℕ, ◌!=◌, ◌%◌, ◌&&◌, ◌*◌, ◌+++◌,
  ◌++◌, ◌+◌, ◌-◌, ◌==◌, ◌>>=◌, ◌>>◌, ◌||◌, ◌∷◌,
}
use reg_agent_ops.Base.Sort.{sort_texts}
use reg_agent_ops.Models.AgentActionEnvelope.{AgentActionEnvelope}
use reg_agent_ops.Models.AuthenticatedAuthorizationDecision.{
  AuthenticatedAuthorizationDecision, decision,
}
use reg_agent_ops.Models.Checks.{is_aware, less}
use reg_agent_ops.Models.DataClassification.{data_classification_eq}
use reg_agent_ops.Models.Decision.{Decision, decision_eq}
use reg_agent_ops.Models.Environment.{environment_eq}
use reg_agent_ops.Models.RiskTier.{RiskTier, risk_tier_eq}
use reg_agent_ops.Models.Value.{Platform, dict, digest_artifact, text}

pub record ApprovalGate : Type 0 where
  pub authority : ApprovalAuthorityRegistry
  pub trust : ApprovalTrustBundle

-- What the loop over the approvals ends with: an early return, or the two lists of principals.
pub data Tally : Type 0 where
  rejected : String → Tally
  counted : List String → List String → Tally

-- `datetime.max`, in microseconds from the year 1
abbrev pub max_datetime : ℕ
max_datetime = 315537897599999999

-- the minimum of approvals that the decision and the risk tier ask for; 0 is "no approval"
unfoldable pub minimum_approvals : Decision → RiskTier → ApprovalEscalationPolicy → ℕ
minimum_approvals decision risk policy =
    let by_policy =
      if decision == Decision.require_human_approval then policy.policy_approval_minimum else 0 in
    let by_high =
      if risk == RiskTier.high then max by_policy policy.high_risk_minimum else by_policy in
    if risk == RiskTier.critical then max by_high policy.critical_risk_minimum else by_high

unfoldable pub separation : Decision → RiskTier → Bool
separation decision risk =
    decision == Decision.require_human_approval
    || risk == RiskTier.high
    || risk == RiskTier.critical

module _ ⦃p : Platform⦄ where
  -- `__init__`
  unfoldable pub init : ApprovalAuthorityRegistry → ApprovalTrustBundle → Result ApprovalGate
  init authority trust = do
    raise_if (authority.bundle.institution_id != trust.institution_id)
        (approval_gate_error "approval authority and trust bundle institutions must match")
    ok (record { authority = authority; trust = trust })

  -- `_parse`
  unfoldable pub gate_time : String → Result ℕ
  gate_time =
      parse_with (approval_gate_error "approval time must be RFC3339 UTC")
        (approval_gate_error "approval time is invalid")

  -- `_format`: whole seconds, in UTC. Of a time that was computed from the one whose text comes
  -- first, and that is naive where that is.
  unfoldable pub format_time : String → ℕ → String
  format_time origin t = utc_suffix (
      if is_aware origin
      then p.isoformat (t - t % 1000000)
      else p.isoformat_local (t - t % 1000000))

  -- `issued + timedelta(seconds=seconds)`
  unfoldable pub add_seconds : ℕ → ℕ → Result ℕ
  add_seconds t seconds =
      if ltb max_datetime (t + seconds * 1000000)
      then err (overflow_error "date value out of range")
      else ok (t + seconds * 1000000)

  -- the identifier `f"approval-{digest_artifact(seed)[:24]}"`
  unfoldable pub requirement_identifier :
      AgentActionEnvelope
      → AuthenticatedAuthorizationDecision
      → ApprovalEscalationPolicy
      → String
      → String
  requirement_identifier request authorization policy issued_at =
      "approval-"
      +++ take_text 24 (
          digest_artifact (
            dict (
              ("purpose", text "regagentops.approval-requirement-id.v1")
              ∷ ("request_digest", text (AgentActionEnvelope.artifact_digest request))
              ∷ (
                "authenticated_authorization_digest",
                text (AuthenticatedAuthorizationDecision.artifact_digest authorization),
              )
              ∷ ("escalation_policy_digest", text (ApprovalEscalationPolicy.artifact_digest policy))
              ∷ ("issued_at", text issued_at)
              ∷ [])))

  unfoldable pub requirement_record :
      AgentActionEnvelope
      → AuthenticatedAuthorizationDecision
      → ApprovalEscalationPolicy
      → String
      → ℕ
      → ApprovalRequirement
  requirement_record request authorization policy issued_at expires = record {
    requirement_id = requirement_identifier request authorization policy issued_at;
    institution_id = request.institution_id;
    request_digest = AgentActionEnvelope.artifact_digest request;
    authenticated_authorization_digest =
        AuthenticatedAuthorizationDecision.artifact_digest authorization;
    identity_context_digest = authorization.identity_context_digest;
    requester_id = request.human_owner_id;
    tool_id = request.tool_id;
    action = request.action;
    environment = request.environment;
    risk_tier = request.risk_tier;
    min_approvals =
        minimum_approvals (AuthenticatedAuthorizationDecision.decision authorization)
          request.risk_tier policy;
    requester_separation_required =
        separation (AuthenticatedAuthorizationDecision.decision authorization) request.risk_tier;
    escalation_policy_digest = ApprovalEscalationPolicy.artifact_digest policy;
    issued_at = issued_at;
    expires_at = format_time issued_at expires;
    schema_version = "regagentops.approval-requirement.v1";
  }

  unfoldable pub build_requirement :
      AgentActionEnvelope
      → AuthenticatedAuthorizationDecision
      → ApprovalEscalationPolicy
      → String
      → Result (Option ApprovalRequirement)
  build_requirement request authorization policy issued_at = do
    raise_if (policy.institution_id != request.institution_id)
        (approval_gate_error "approval escalation policy institution mismatch")
    raise_if (authorization.request_digest != AgentActionEnvelope.artifact_digest request)
        (approval_gate_error "authenticated authorization does not bind the request")
    raise_if (not authorization.identity_verified)
        (approval_gate_error "unverified identity cannot enter the approval gate")
    raise_if (AuthenticatedAuthorizationDecision.decision authorization == Decision.deny)
        (approval_gate_error "DENY decisions cannot be overridden by human approval")
    let minimum =
        minimum_approvals (AuthenticatedAuthorizationDecision.decision authorization)
          request.risk_tier policy
    if eqb minimum 0 then ok none else (do
      issued ← gate_time issued_at
      expires ← add_seconds issued policy.max_requirement_lifetime_seconds
      let requirement = requirement_record request authorization policy issued_at expires
      ApprovalRequirement.post_init requirement
      ok (some requirement))

  -- `_resolution`, whose constructor runs its checks
  unfoldable pub resolution_record :
      SignedApprovalPackage
      → AgentActionEnvelope
      → String
      → Bool
      → Bool
      → List String
      → List String
      → String
      → ApprovalResolution
  resolution_record pack request evaluated_at satisfied consumed approved_by denied_by reason =
      record {
        institution_id = request.institution_id;
        requirement_digest = ApprovalRequirement.artifact_digest pack.requirement;
        request_digest = AgentActionEnvelope.artifact_digest request;
        approval_package_digest = SignedApprovalPackage.artifact_digest pack;
        approval_satisfied = satisfied;
        replay_consumed = consumed;
        approved_by = approved_by;
        denied_by = denied_by;
        reason_codes = reason ∷ [];
        authorization_continuation_permitted = satisfied && consumed && is_empty denied_by;
        evaluated_at = evaluated_at;
        schema_version = "regagentops.approval-resolution.v1";
      }

  unfoldable pub resolution :
      SignedApprovalPackage
      → AgentActionEnvelope
      → String
      → Bool
      → Bool
      → List String
      → List String
      → String
      → Result ApprovalResolution
  resolution pack request evaluated_at satisfied consumed approved_by denied_by reason =
      let r =
        resolution_record pack request evaluated_at satisfied consumed approved_by denied_by
          reason in
      ApprovalResolution.post_init r >> ok r

  -- the checks of `resolve` before the approvals are read: the reason of the first that fails
  unfoldable pub binding_failure :
      ApprovalGate
      → AgentActionEnvelope
      → AuthenticatedAuthorizationDecision
      → ApprovalRequirement
      → Option String
  binding_failure gate request authorization requirement =
      if requirement.institution_id != request.institution_id
        || gate.trust.institution_id != request.institution_id
      then some "approval_institution_mismatch"
      else if requirement.request_digest != AgentActionEnvelope.artifact_digest request
      then some "approval_request_digest_mismatch"
      else if requirement.authenticated_authorization_digest
          != AuthenticatedAuthorizationDecision.artifact_digest authorization
      then some "approval_authorization_digest_mismatch"
      else if requirement.identity_context_digest != authorization.identity_context_digest
      then some "approval_identity_context_mismatch"
      else if not authorization.identity_verified
          || AuthenticatedAuthorizationDecision.decision authorization == Decision.deny
      then some "approval_cannot_override_identity_or_policy_deny"
      else none

  -- `_parse(issued_at) <= now < _parse(expires_at)`
  unfoldable pub requirement_current : ApprovalRequirement → String → ℕ → Result Bool
  requirement_current requirement at now = do
    issued ← gate_time requirement.issued_at
    early ← less at requirement.issued_at now issued
    if early then ok false else (do
      expires ← gate_time requirement.expires_at
      less at requirement.expires_at now expires)

  -- `except ApprovalAuthorityError`: the other exceptions pass
  abbrev pub authority_outcome : Result ApprovalAuthorityGrant → Result Bool
  authority_outcome (ok _) = ok true
  authority_outcome (err (approval_authority_error _)) = ok false
  authority_outcome (err e) = err e

  -- the loop over the approvals; `seen_principals` are those in the two lists
  unfoldable pub tally :
      ApprovalGate
      → AgentActionEnvelope
      → ApprovalRequirement
      → String
      → List SignedApprovalStatement
      → List String
      → List String
      → Result Tally
  tally gate request requirement evaluated_at [] approved denied = ok (counted approved denied)
  tally gate request requirement evaluated_at (signed ∷ rest) approved denied =
      elim (verify_signed_approval signed gate.trust evaluated_at) [
        | err _ ↦ ok (rejected "approval_signature_invalid")
        | ok statement ↦
            if statement.requirement_digest != ApprovalRequirement.artifact_digest requirement
            then ok (rejected "approval_requirement_digest_mismatch")
            else if statement.request_digest != AgentActionEnvelope.artifact_digest request
            then ok (rejected "approval_statement_request_mismatch")
            else if contains (approved ++ denied) statement.approver_id
            then ok (rejected "duplicate_approver_not_counted")
            else (do
              authorized ← authority_outcome (
                  authorize_approver gate.authority statement.approver_id
                    statement.authority_grant_digest request evaluated_at
                    requirement.requester_separation_required)
              let denial =
                  tally gate request requirement evaluated_at rest approved
                    (denied ++ statement.approver_id ∷ [])
              let approval =
                  tally gate request requirement evaluated_at rest
                    (approved ++ statement.approver_id ∷ []) denied
              if not authorized
                  then ok (rejected "approver_outside_delegated_authority")
                  else if statement.vote == ApprovalVote.deny
                  then denial
                  else approval)
      ]

  -- the row that `self._replay.consume` writes
  unfoldable pub redemption : SignedApprovalPackage → AgentActionEnvelope → String → Redemption
  redemption pack request evaluated_at = record {
    requirement_digest = ApprovalRequirement.artifact_digest pack.requirement;
    approval_package_digest = SignedApprovalPackage.artifact_digest pack;
    institution_id = request.institution_id;
    request_digest = AgentActionEnvelope.artifact_digest request;
    redeemed_at = evaluated_at;
  }

  -- what `resolve` does once every approval has been counted
  unfoldable pub conclude :
      AgentActionEnvelope
      → SignedApprovalPackage
      → String
      → List String
      → List String
      → ApprovalReplayLedger
      → Result ApprovalResolution × ApprovalReplayLedger
  conclude request pack evaluated_at approved denied rows =
      let (consumed, rows') = consume rows (redemption pack request evaluated_at) in
      if is_empty denied && ltb (length approved) pack.requirement.min_approvals
      then (
        resolution pack request evaluated_at false false (sort_texts approved) []
            "insufficient_valid_approvals",
        rows,
      )
      else if not consumed
      then (
        resolution pack request evaluated_at false false (sort_texts approved) (sort_texts denied)
            "approval_requirement_already_redeemed",
        rows',
      )
      else if not (is_empty denied)
      then (
        resolution pack request evaluated_at false true (sort_texts approved) (sort_texts denied)
            "valid_approval_denial_present",
        rows',
      )
      else (
        resolution pack request evaluated_at true true (sort_texts approved) []
            "approval_requirement_satisfied",
        rows',
      )

  -- `resolve` after the bindings have been checked
  unfoldable pub after_binding :
      ApprovalGate
      → AgentActionEnvelope
      → SignedApprovalPackage
      → String
      → ApprovalReplayLedger
      → Result ApprovalResolution × ApprovalReplayLedger
  after_binding gate request pack evaluated_at rows =
      elim (do
        now ← gate_time evaluated_at
        requirement_current pack.requirement evaluated_at now) [
          | err e ↦ (err e, rows)
          | ok false ↦ (
            resolution pack request evaluated_at false false [] []
                "approval_requirement_expired_or_not_yet_valid",
            rows,
          )
          | ok true ↦ elim (tally gate request pack.requirement evaluated_at pack.approvals [] []) [
            | err e ↦ (err e, rows)
            | ok (rejected reason) ↦
                (resolution pack request evaluated_at false false [] [] reason, rows)
            | ok (counted approved denied) ↦ conclude request pack evaluated_at approved denied rows
          ]
        ]

  unfoldable pub resolve :
      ApprovalGate
      → AgentActionEnvelope
      → AuthenticatedAuthorizationDecision
      → SignedApprovalPackage
      → String
      → ApprovalReplayLedger
      → Result ApprovalResolution × ApprovalReplayLedger
  resolve gate request authorization pack evaluated_at rows =
      elim (binding_failure gate request authorization pack.requirement) [
        | some reason ↦ (resolution pack request evaluated_at false false [] [] reason, rows)
        | none ↦ after_binding gate request pack evaluated_at rows
      ]
