-- ===== src/Approval/Gate/Counting.antt =====
-- The loop of `resolve` over the signed approvals: whom it counts.
use mathlib.Core.Path.{subst₂}
use mathlib.Core.List.{append_assoc}
use reg_agent_ops.Approval.ApprovalRequirement
use reg_agent_ops.Models.AgentActionEnvelope
use reg_agent_ops.Approval.ApprovalAuthorityGrant.{ApprovalAuthorityGrant}
use reg_agent_ops.Approval.ApprovalRequirement.{ApprovalRequirement}
use reg_agent_ops.Approval.ApprovalStatement.{ApprovalStatement}
use reg_agent_ops.Approval.ApprovalVote.{ApprovalVote, approval_vote_eq}
use reg_agent_ops.Approval.Authority.{authorize_approver}
use reg_agent_ops.Approval.Gate.{ApprovalGate, counted, tally}
use reg_agent_ops.Approval.Signature.{verify_signed_approval}
use reg_agent_ops.Approval.SignedApprovalStatement.{SignedApprovalStatement}
use reg_agent_ops.Base.{
  All, All-contains, All-map, Bool-cases, List, Result-cases, String, [], arith, contains,
  contains-snoc, eq_of_beq, eq_of_bne, false, inl, inr, nat_eq, ok, refl, string_eq, subst, sym,
  texts_eq, true, unique, unique-middle, unique-snoc, ◌++◌, ◌==◌, ◌∷◌, ◌≡◌, ◌⊎◌,
}
use reg_agent_ops.Models.AgentActionEnvelope.{AgentActionEnvelope}
use reg_agent_ops.Models.DataClassification.{data_classification_eq}
use reg_agent_ops.Models.Decision.{decision_eq}
use reg_agent_ops.Models.Environment.{environment_eq}
use reg_agent_ops.Models.RiskTier.{risk_tier_eq}
use reg_agent_ops.Models.Value.{Platform}

module _ ⦃p : Platform⦄ where
  module _ (gate : ApprovalGate) (request : AgentActionEnvelope) (requirement : ApprovalRequirement)
      (evaluated_at : String) where
    -- One signed approval is verified, its signer is authorized by a grant, and the vote is `vote`.
    pub record IsVote (vote : ApprovalVote) (signed : SignedApprovalStatement) (who : String)
        : Type 0 where
      pub statement : ApprovalStatement
      pub grant : ApprovalAuthorityGrant
      pub verified : verify_signed_approval signed gate.trust evaluated_at ≡ ok statement
      pub signer : statement.approver_id ≡ who
      pub bound : statement.requirement_digest ≡ ApprovalRequirement.artifact_digest requirement
      pub bound_request : statement.request_digest ≡ AgentActionEnvelope.artifact_digest request
      pub authorized :
          authorize_approver gate.authority who statement.authority_grant_digest request
            evaluated_at requirement.requester_separation_required
          ≡ ok grant
      pub cast : statement.vote ≡ vote

    pub data Casts (vote : ApprovalVote) (who : String)
        : List SignedApprovalStatement → Type 0 where
      here :
          {signed : SignedApprovalStatement} {rest : List SignedApprovalStatement}
          → IsVote vote signed who
          → Casts vote who (signed ∷ rest)
      there :
          {signed : SignedApprovalStatement} {rest : List SignedApprovalStatement}
          → Casts vote who rest
          → Casts vote who (signed ∷ rest)

    -- counted before the loop came to these approvals, or for one of them
    abbrev Counted : ApprovalVote → List String → List SignedApprovalStatement → String → Type 0
    Counted vote before approvals who = (contains before who ≡ true) ⊎ Casts vote who approvals

    -- What the loop has established when it ends with two lists.
    record Tallied (approvals : List SignedApprovalStatement)
        (before_a before_d approved denied : List String) : Type 0 where
      once : unique (approved ++ denied) ≡ true
      approvers : All (Counted ApprovalVote.approve before_a approvals) approved
      deniers : All (Counted ApprovalVote.deny before_d approvals) denied

    -- the step that counts one approval
    record Step (signed : SignedApprovalStatement) (rest : List SignedApprovalStatement)
        (before_a before_d approved denied : List String) : Type 0 where
      who : String
      vote : ApprovalVote
      valid : IsVote vote signed who
      new : contains (before_a ++ before_d) who ≡ false
      next_a : List String
      next_d : List String
      goes_on :
          tally gate request requirement evaluated_at rest next_a next_d
          ≡ ok (counted approved denied)
      placed :
          ((vote ≡ ApprovalVote.approve) × (next_a ≡ before_a ++ who ∷ []) × (next_d ≡ before_d))
          ⊎ ((vote ≡ ApprovalVote.deny) × (next_a ≡ before_a) × (next_d ≡ before_d ++ who ∷ []))

    tally-Step :
        (signed : SignedApprovalStatement) (rest : List SignedApprovalStatement)
        (before_a before_d approved denied : List String)
        → tally gate request requirement evaluated_at (signed ∷ rest) before_a before_d
          ≡ ok (counted approved denied)
        → Step signed rest before_a before_d approved denied
    unfolding tally
    tally-Step signed rest before_a before_d approved denied h =
        elim (Result-cases (verify_signed_approval signed gate.trust evaluated_at)) [
          | inr (e, failed) ↦ absurd (ground arith)
          | inl (st, verified) ↦
              elim (Result-cases (
                authorize_approver gate.authority st.approver_id st.authority_grant_digest request
                  evaluated_at requirement.requester_separation_required)) [
                    | inr (e, failed) ↦ absurd (ground arith)
                    | inl (grant, authorized) ↦ elim (Bool-cases (st.vote == ApprovalVote.deny)) [
                      | inl denial ↦ record {
                        who = st.approver_id;
                        vote = ApprovalVote.deny;
                        valid = record {
                          statement = st;
                          grant = grant;
                          verified = verified;
                          signer = refl;
                          bound =
                              eq_of_bne st.requirement_digest
                                (ApprovalRequirement.artifact_digest requirement) (ground arith);
                          bound_request =
                              eq_of_bne st.request_digest
                                (AgentActionEnvelope.artifact_digest request) (ground arith);
                          authorized = authorized;
                          cast = ground arith;
                        };
                        new = ground arith;
                        next_a = before_a;
                        next_d = before_d ++ st.approver_id ∷ [];
                        goes_on = ground arith;
                        placed = inr (refl, refl, refl);
                      }
                      | inr approval ↦ record {
                        who = st.approver_id;
                        vote = ApprovalVote.approve;
                        valid = record {
                          statement = st;
                          grant = grant;
                          verified = verified;
                          signer = refl;
                          bound =
                              eq_of_bne st.requirement_digest
                                (ApprovalRequirement.artifact_digest requirement) (ground arith);
                          bound_request =
                              eq_of_bne st.request_digest
                                (AgentActionEnvelope.artifact_digest request) (ground arith);
                          authorized = authorized;
                          cast = ground arith;
                        };
                        new = ground arith;
                        next_a = before_a ++ st.approver_id ∷ [];
                        next_d = before_d;
                        goes_on = ground arith;
                        placed = inl (refl, refl, refl);
                      }
                    ]
                  ]
        ]

    -- one more name in the list before the loop, counted by the approval just read
    Counted-snoc :
        (vote : ApprovalVote) (signed : SignedApprovalStatement)
        (rest : List SignedApprovalStatement) (before : List String) (who : String)
        → IsVote vote signed who
        → (a : String) → Counted vote (before ++ who ∷ []) rest a
        → Counted vote before (signed ∷ rest) a
    Counted-snoc vote signed rest before who v a (inr later) = inr (there later)
    Counted-snoc vote signed rest before who v a (inl seen) = elim (Bool-cases (a == who)) [
      | inl same ↦ inr (here (subst (IsVote vote signed) (sym (eq_of_beq a who same)) v))
      | inr other ↦ inl (ground (arith, contains-snoc before who a))
    ]

    Counted-there :
        (vote : ApprovalVote) (signed : SignedApprovalStatement)
        (rest : List SignedApprovalStatement) (before : List String) (a : String)
        → Counted vote before rest a
        → Counted vote before (signed ∷ rest) a
    Counted-there vote signed rest before a (inl seen) = inl seen
    Counted-there vote signed rest before a (inr later) = inr (there later)

    -- the loop counted `who` for `signed`, and then what it counts in the rest
    module _ (signed : SignedApprovalStatement) (rest : List SignedApprovalStatement)
        (before_a before_d approved denied : List String) (who : String) where
      with_approval :
          IsVote ApprovalVote.approve signed who
          → Tallied rest (before_a ++ who ∷ []) before_d approved denied
          → Tallied (signed ∷ rest) before_a before_d approved denied
      with_approval v t = record {
        once = t.once;
        approvers =
            All-map (Counted-snoc ApprovalVote.approve signed rest before_a who v) approved
              t.approvers;
        deniers = All-map (Counted-there ApprovalVote.deny signed rest before_d) denied t.deniers;
      }

      with_denial :
          IsVote ApprovalVote.deny signed who
          → Tallied rest before_a (before_d ++ who ∷ []) approved denied
          → Tallied (signed ∷ rest) before_a before_d approved denied
      with_denial v t = record {
        once = t.once;
        approvers =
            All-map (Counted-there ApprovalVote.approve signed rest before_a) approved t.approvers;
        deniers =
            All-map (Counted-snoc ApprovalVote.deny signed rest before_d who v) denied t.deniers;
      }

    tally-Tallied :
        (approvals : List SignedApprovalStatement) (before_a before_d approved denied : List String)
        → unique (before_a ++ before_d) ≡ true
        → tally gate request requirement evaluated_at approvals before_a before_d
          ≡ ok (counted approved denied)
        → Tallied approvals before_a before_d approved denied
    tally-Tallied [] before_a before_d approved denied u h =
        let same_a : before_a ≡ approved = unfold tally in cc h in
        let same_d : before_d ≡ denied = unfold tally in cc h in
        subst₂ (λ x y. Tallied [] before_a before_d x y) same_a same_d
          (record {
            once = u;
            approvers = All-map (λ a seen. inl seen) before_a (All-contains before_a);
            deniers = All-map (λ a seen. inl seen) before_d (All-contains before_d);
          })
    tally-Tallied (signed ∷ rest) before_a before_d approved denied u h =
        let s = tally-Step signed rest before_a before_d approved denied h in
        elim s.placed [
          | inl (v, ea, ed) ↦
              with_approval signed rest before_a before_d approved denied s.who
                (subst (λ vote. IsVote vote signed s.who) v s.valid)
                (subst₂ (λ x y. Tallied rest x y approved denied) ea ed
                  (tally-Tallied rest s.next_a s.next_d approved denied
                    (rw (ea, ed) (unique-middle before_a s.who before_d u s.new)) s.goes_on))
          | inr (v, ea, ed) ↦
              with_denial signed rest before_a before_d approved denied s.who
                (subst (λ vote. IsVote vote signed s.who) v s.valid)
                (subst₂ (λ x y. Tallied rest x y approved denied) ea ed
                  (tally-Tallied rest s.next_a s.next_d approved denied
                    (rw (ea, ed)
                      (rw (← append_assoc before_a before_d (s.who ∷ []))
                        (unique-snoc (before_a ++ before_d) s.who u s.new)))
                    s.goes_on))
        ]

    unseen :
        (vote : ApprovalVote) (approvals : List SignedApprovalStatement) (who : String)
        → Counted vote [] approvals who
        → Casts vote who approvals
    unseen vote approvals who (inl seen) = absurd (ground arith)
    unseen vote approvals who (inr cast) = cast

    -- When the loop over the approvals ends with the principals that approve and those that deny, no
    -- principal stands there twice, and each stands there for a signed approval that verifies, that
    -- its signer is authorized to give, and that votes so.
    pub tally-counts :
        (approvals : List SignedApprovalStatement) (approved denied : List String)
        → tally gate request requirement evaluated_at approvals [] [] ≡ ok (counted approved denied)
        → (unique (approved ++ denied) ≡ true)
          × All (λ who. Casts ApprovalVote.approve who approvals) approved
          × All (λ who. Casts ApprovalVote.deny who approvals) denied
    tally-counts approvals approved denied h =
        let t = tally-Tallied approvals [] [] approved denied refl h in
        (
          t.once,
          All-map (unseen ApprovalVote.approve approvals) approved t.approvers,
          All-map (unseen ApprovalVote.deny approvals) denied t.deniers,
        )
