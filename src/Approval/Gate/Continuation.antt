-- ===== src/Approval/Gate/Continuation.antt =====
-- What `ApprovalGate.resolve` has checked when its resolution lets the authorization continue.
use reg_agent_ops.Approval.ApprovalResolution
use reg_agent_ops.Models.AgentActionEnvelope
use reg_agent_ops.Models.AuthenticatedAuthorizationDecision
use reg_agent_ops.Approval.ApprovalRequirement.{ApprovalRequirement}
use reg_agent_ops.Approval.ApprovalResolution.{ApprovalResolution}
use reg_agent_ops.Approval.ApprovalVote.{ApprovalVote, approval_vote_eq}
use reg_agent_ops.Approval.Gate.{
  ApprovalGate, Tally, after_binding, binding_failure, conclude, counted, gate_time, redemption,
  rejected, requirement_current, resolution, resolution_record, resolve, tally,
}
use reg_agent_ops.Approval.Gate.Counting.{Casts, tally-counts}
use reg_agent_ops.Approval.Replay.{ApprovalReplayLedger, consume, violates}
use reg_agent_ops.Approval.SignedApprovalPackage.{SignedApprovalPackage}
use reg_agent_ops.Base.{
  >>-eq-ok, >>=-eq-ok, All, Bool, Bool-cases, List, Option-cases, Result, Result-cases, String, [],
  ap, arith, eq_of_bne, false, inl, inr, is_empty, length, nat_eq, none, ok, ok-injective,
  string_eq, sym, texts_eq, true, unique, ℕ, ◌&&◌, ◌++◌, ◌<◌, ◌>>=◌, ◌∷◌, ◌≡◌, ◌≢◌, ◌≤◌,
}
use reg_agent_ops.Base.Sort.{sort_texts}
use reg_agent_ops.Models.AgentActionEnvelope.{AgentActionEnvelope}
use reg_agent_ops.Models.AuthenticatedAuthorizationDecision.{AuthenticatedAuthorizationDecision}
use reg_agent_ops.Models.Checks.{less, less-ok}
use reg_agent_ops.Models.DataClassification.{data_classification_eq}
use reg_agent_ops.Models.Decision.{Decision, decision_eq}
use reg_agent_ops.Models.Environment.{environment_eq}
use reg_agent_ops.Models.RiskTier.{risk_tier_eq}
use reg_agent_ops.Models.Value.{Platform}

module _ ⦃p : Platform⦄ where
  module _ (request : AgentActionEnvelope) (pack : SignedApprovalPackage)
      (evaluated_at : String) where
    pub resolution-ok :
        (satisfied consumed : Bool) (approved_by denied_by : List String) (reason : String)
        {r : ApprovalResolution}
        → resolution pack request evaluated_at satisfied consumed approved_by denied_by reason
          ≡ ok r
        → r
          ≡ resolution_record pack request evaluated_at satisfied consumed approved_by denied_by
              reason
    unfolding resolution
    resolution-ok satisfied consumed approved_by denied_by reason h =
        let r =
          resolution_record pack request evaluated_at satisfied consumed approved_by denied_by
            reason in
        sym (ok-injective ((>>-eq-ok (ApprovalResolution.post_init r) (ok r) h).1))

    pub resolution-flag :
        (satisfied consumed : Bool) (approved_by denied_by : List String) (reason : String)
        {r : ApprovalResolution}
        → resolution pack request evaluated_at satisfied consumed approved_by denied_by reason
          ≡ ok r
        → r.authorization_continuation_permitted ≡ (satisfied && consumed && is_empty denied_by)
    unfolding resolution_record
    resolution-flag satisfied consumed approved_by denied_by reason h =
        ap (λ r. r.authorization_continuation_permitted)
          (resolution-ok satisfied consumed approved_by denied_by reason h)

    -- What a continuing resolution says of the counted principals and of the ledger.
    pub record Concludes (approved denied : List String) (rows rows' : ApprovalReplayLedger)
        (r : ApprovalResolution) : Type 0 where
      pub undenied : is_empty denied ≡ true
      pub enough_approvals : pack.requirement.min_approvals ≤ length approved
      pub fresh : violates (redemption pack request evaluated_at) rows ≡ false
      pub recorded : rows' ≡ redemption pack request evaluated_at ∷ rows
      pub described_by :
          r
          ≡ resolution_record pack request evaluated_at true true
              (sort_texts approved)
              []
              "approval_requirement_satisfied"

    conclude-Concludes :
        (approved denied : List String) (rows rows' : ApprovalReplayLedger) {r : ApprovalResolution}
        → conclude request pack evaluated_at approved denied rows ≡ (ok r, rows')
        → r.authorization_continuation_permitted ≡ true
        → Concludes approved denied rows rows' r
    unfolding conclude consume
    conclude-Concludes approved denied rows rows' {r = r} h k =
        let insufficient =
          resolution-flag false false (sort_texts approved) [] "insufficient_valid_approvals"
            {r = r} in
        let redeemed =
          resolution-flag false false (sort_texts approved) (sort_texts denied)
            "approval_requirement_already_redeemed" {r = r} in
        let vetoed =
          resolution-flag false true (sort_texts approved) (sort_texts denied)
            "valid_approval_denial_present" {r = r} in
        record {
          undenied = ground (arith, insufficient, redeemed, vetoed);
          enough_approvals = ground (arith, insufficient, redeemed, vetoed);
          fresh = ground (arith, insufficient, redeemed, vetoed);
          recorded = ground (arith, insufficient, redeemed, vetoed);
          described_by = ground (
            arith,
            insufficient,
            redeemed,
            vetoed,
            resolution-ok true true (sort_texts approved) [] "approval_requirement_satisfied"
                {r = r},
          );
        }

module _ ⦃p : Platform⦄ where
  -- the bindings between the request, the authorization and the requirement
  pub record IsBound (gate : ApprovalGate) (request : AgentActionEnvelope)
      (authorization : AuthenticatedAuthorizationDecision) (requirement : ApprovalRequirement)
      : Type 0 where
    pub institution : requirement.institution_id ≡ request.institution_id
    pub trusted : gate.trust.institution_id ≡ request.institution_id
    pub request_bound : requirement.request_digest ≡ AgentActionEnvelope.artifact_digest request
    pub authorization_bound :
        requirement.authenticated_authorization_digest
        ≡ AuthenticatedAuthorizationDecision.artifact_digest authorization
    pub identity_bound : requirement.identity_context_digest ≡ authorization.identity_context_digest
    pub verified : authorization.identity_verified ≡ true
    pub undenied : AuthenticatedAuthorizationDecision.decision authorization ≢ Decision.deny

  binding_failure-none :
      (gate : ApprovalGate) (request : AgentActionEnvelope)
      (authorization : AuthenticatedAuthorizationDecision) (requirement : ApprovalRequirement)
      → binding_failure gate request authorization requirement ≡ none
      → IsBound gate request authorization requirement
  unfolding binding_failure
  binding_failure-none gate request authorization requirement h = record {
    institution = eq_of_bne _ _ (ground arith);
    trusted = eq_of_bne _ _ (ground arith);
    request_bound = eq_of_bne _ _ (ground arith);
    authorization_bound = eq_of_bne _ _ (ground arith);
    identity_bound = eq_of_bne _ _ (ground arith);
    verified = ground arith;
    undenied =
        λ e. ground (arith, decision_eq.beq_iff authorization.authorization.decision Decision.deny);
  }

  -- the requirement's window at the time of evaluation
  pub record IsOpen (requirement : ApprovalRequirement) (evaluated_at : String) : Type 0 where
    pub now : ℕ
    pub issued : ℕ
    pub expires : ℕ
    pub now_parsed : gate_time evaluated_at ≡ ok now
    pub issued_parsed : gate_time requirement.issued_at ≡ ok issued
    pub expires_parsed : gate_time requirement.expires_at ≡ ok expires
    pub started : issued ≤ now
    pub unexpired : now < expires

  requirement_current-IsOpen :
      (requirement : ApprovalRequirement) (evaluated_at : String)
      → (do now ← gate_time evaluated_at; requirement_current requirement evaluated_at now)
        ≡ ok true
      → IsOpen requirement evaluated_at
  unfolding requirement_current
  requirement_current-IsOpen requirement evaluated_at h =
      let (now, now_parsed, h₁) =
        >>=-eq-ok (gate_time evaluated_at) (requirement_current requirement evaluated_at) h in
      let (issued, issued_parsed, h₂) = >>=-eq-ok (gate_time requirement.issued_at) _ h₁ in
      let (early, compared, h₃) =
        >>=-eq-ok (less evaluated_at requirement.issued_at now issued) _ h₂ in
      elim (Bool-cases early) [
        | inl too_early ↦ absurd (ground (arith, h₃, too_early))
        | inr begun ↦
            let (expires, expires_parsed, h₄) =
              >>=-eq-ok (gate_time requirement.expires_at) _ (rw begun at h₃) in
            record {
              now = now;
              issued = issued;
              expires = expires;
              now_parsed = now_parsed;
              issued_parsed = issued_parsed;
              expires_parsed = expires_parsed;
              started = ground (
                arith,
                begun,
                (less-ok evaluated_at requirement.issued_at now issued compared).1,
              );
              unexpired =
                  ground (arith, (less-ok evaluated_at requirement.expires_at now expires h₄).1);
            }
      ]

  -- Everything that a continuing resolution rests on.
  pub record Continues (gate : ApprovalGate) (request : AgentActionEnvelope)
      (authorization : AuthenticatedAuthorizationDecision) (pack : SignedApprovalPackage)
      (evaluated_at : String) (rows rows' : ApprovalReplayLedger) (r : ApprovalResolution)
      : Type 0 where
    pub bound : IsBound gate request authorization pack.requirement
    pub window : IsOpen pack.requirement evaluated_at
    pub approved : List String
    pub denied : List String
    pub votes :
        (unique (approved ++ denied) ≡ true)
        × All
            (λ who.
              Casts gate request pack.requirement evaluated_at ApprovalVote.approve who
                pack.approvals)
            approved
        × All
            (λ who.
              Casts gate request pack.requirement evaluated_at ApprovalVote.deny who pack.approvals)
            denied
    pub concluded : Concludes request pack evaluated_at approved denied rows rows' r

  after_binding-Continues :
      (gate : ApprovalGate) (request : AgentActionEnvelope)
      (authorization : AuthenticatedAuthorizationDecision) (pack : SignedApprovalPackage)
      (evaluated_at : String) (rows rows' : ApprovalReplayLedger) {r : ApprovalResolution}
      → IsBound gate request authorization pack.requirement
      → after_binding gate request pack evaluated_at rows ≡ (ok r, rows')
      → r.authorization_continuation_permitted ≡ true
      → Continues gate request authorization pack evaluated_at rows rows' r
  unfolding after_binding
  after_binding-Continues gate request authorization pack evaluated_at rows rows' {r = r} b h k =
      elim (Result-cases window) [
        | inr (e, failed) ↦ absurd (ground arith)
        | inl (false, closed) ↦ absurd (
            ground (
              arith,
              resolution-flag request pack evaluated_at false false [] []
                  "approval_requirement_expired_or_not_yet_valid" {r = r},
            ))
        | inl (true, opened) ↦ elim (Result-cases votes) [
          | inr (e, failed) ↦ absurd (ground arith)
          | inl (rejected reason, early) ↦ absurd (
              ground
                (arith, resolution-flag request pack evaluated_at false false [] [] reason {r = r}))
          | inl (counted approved denied, done) ↦ record {
            bound = b;
            window = requirement_current-IsOpen pack.requirement evaluated_at opened;
            approved = approved;
            denied = denied;
            votes =
                tally-counts gate request pack.requirement evaluated_at pack.approvals approved
                  denied done;
            concluded =
                conclude-Concludes request pack evaluated_at approved denied rows rows'
                  (ground arith) k;
          }
        ]
      ]
    where
      window : Result Bool
      window = do
        now ← gate_time evaluated_at
        requirement_current pack.requirement evaluated_at now

      votes : Result Tally
      votes = tally gate request pack.requirement evaluated_at pack.approvals [] []

  -- When a resolution lets the authorization continue: the requirement is bound to the verified,
  -- not denied authorization and is open; nobody denies; at least the required number of principals
  -- approve, no two of them equal, each by a signed approval that verifies and that the authority
  -- registry authorizes; and the requirement was not redeemed before and is redeemed now.
  pub resolve-Continues :
      (gate : ApprovalGate) (request : AgentActionEnvelope)
      (authorization : AuthenticatedAuthorizationDecision) (pack : SignedApprovalPackage)
      (evaluated_at : String) (rows rows' : ApprovalReplayLedger) {r : ApprovalResolution}
      → resolve gate request authorization pack evaluated_at rows ≡ (ok r, rows')
      → r.authorization_continuation_permitted ≡ true
      → Continues gate request authorization pack evaluated_at rows rows' r
  unfolding resolve
  resolve-Continues gate request authorization pack evaluated_at rows rows' {r = r} h k =
      elim (Option-cases (binding_failure gate request authorization pack.requirement)) [
        | inr (reason, failed) ↦ absurd (
            ground
              (arith, resolution-flag request pack evaluated_at false false [] [] reason {r = r}))
        | inl bound ↦
            after_binding-Continues gate request authorization pack evaluated_at rows rows'
              (binding_failure-none gate request authorization pack.requirement bound)
              (ground arith) k
      ]
