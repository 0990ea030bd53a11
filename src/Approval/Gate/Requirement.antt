-- ===== src/Approval/Gate/Requirement.antt =====
-- What `ApprovalGate.build_requirement` demands.
use reg_agent_ops.Approval.ApprovalEscalationPolicy
use reg_agent_ops.Models.AuthenticatedAuthorizationDecision
use reg_agent_ops.Approval.ApprovalEscalationPolicy.{ApprovalEscalationPolicy}
use reg_agent_ops.Approval.ApprovalRequirement.{ApprovalRequirement}
use reg_agent_ops.Approval.Gate.{
  build_requirement, minimum_approvals, requirement_record, separation,
}
use reg_agent_ops.Base.{
  Bool, Option, String, arith, nat_eq, none, ok, refl, some, string_eq, texts_eq, true, ℕ, ◌==◌,
  ◌≡◌, ◌≤◌,
}
use reg_agent_ops.Models.AgentActionEnvelope.{AgentActionEnvelope}
use reg_agent_ops.Models.AuthenticatedAuthorizationDecision.{AuthenticatedAuthorizationDecision}
use reg_agent_ops.Models.DataClassification.{data_classification_eq}
use reg_agent_ops.Models.Decision.{Decision, decision_eq}
use reg_agent_ops.Models.Environment.{environment_eq}
use reg_agent_ops.Models.RiskTier.{RiskTier, risk_tier_eq}
use reg_agent_ops.Models.Value.{Platform}

-- A case that asks for approvals: there is a requirement, with at least so many approvals, and the
-- requester cannot be one of the approvers.
abbrev pub Demands : Bool → ℕ → Option ApprovalRequirement → Type 0
Demands test minimum o =
    test ≡ true
    → (q : ApprovalRequirement) × (o ≡ some q)
      × (minimum ≤ q.min_approvals)
      × (q.requester_separation_required ≡ true)

module _ ⦃p : Platform⦄ where
  module _ (request : AgentActionEnvelope) (authorization : AuthenticatedAuthorizationDecision)
      (policy : ApprovalEscalationPolicy) (issued_at : String) where
    abbrev decided : Decision
    decided = AuthenticatedAuthorizationDecision.decision authorization

    abbrev minimum : ℕ
    minimum = minimum_approvals decided request.risk_tier policy

    positive_minimums :
        ApprovalEscalationPolicy.post_init policy ≡ ok tt
        → (1 ≤ policy.policy_approval_minimum)
          × (1 ≤ policy.high_risk_minimum)
          × (1 ≤ policy.critical_risk_minimum)
    unfolding ApprovalEscalationPolicy.post_init
    positive_minimums v = ground arith

    -- a call that returns and has a minimum to ask for returns the requirement
    returned :
        {o : Option ApprovalRequirement}
        → build_requirement request authorization policy issued_at ≡ ok o
        → 1 ≤ minimum
        → separation decided request.risk_tier ≡ true
        → (q : ApprovalRequirement) × (o ≡ some q)
          × (q.min_approvals ≡ minimum)
          × (q.requester_separation_required ≡ true)
    unfolding build_requirement requirement_record
    returned {o = none} h m s = absurd (ground arith)
    returned {o = some q} h m s = (q, refl, ground arith, ground arith)

    -- With a policy that its constructor accepts, a call that returns asks at least for the approvals
    -- of every case that applies, and for an approver other than the requester: the policy's minimum
    -- where the decision requires human approval, the high-risk and the critical-risk minimum for
    -- those tiers, whatever the decision.
    pub build_requirement-Demands :
        {o : Option ApprovalRequirement}
        → ApprovalEscalationPolicy.post_init policy ≡ ok tt
        → build_requirement request authorization policy issued_at ≡ ok o
        → Demands (decided == Decision.require_human_approval) policy.policy_approval_minimum o
          × Demands (request.risk_tier == RiskTier.high) policy.high_risk_minimum o
          × Demands (request.risk_tier == RiskTier.critical) policy.critical_risk_minimum o
    unfolding minimum_approvals separation
    build_requirement-Demands {o = o} v h = (
      λ t.
          let (q, e, m, s) = returned h (ground (arith, positive_minimums v)) (ground arith) in
          (q, e, ground arith, s),
      λ t.
          let (q, e, m, s) = returned h (ground (arith, positive_minimums v)) (ground arith) in
          (q, e, ground arith, s),
      λ t.
          let (q, e, m, s) = returned h (ground (arith, positive_minimums v)) (ground arith) in
          (q, e, ground arith, s),
    )
