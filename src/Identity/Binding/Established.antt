-- ===== src/Identity/Binding/Established.antt =====
-- What an established agent identity stands on, and for how long it stands.
use reg_agent_ops.Identity.AuthenticatedAgentIdentity
use reg_agent_ops.Base.{
  >>-eq-ok, >>=-eq-ok, String, ap, arith, eq_of_bne, leb, nat_eq, ok, ok-injective, raise_if,
  raise_if-ok, string_eq, subst, sym, texts_eq, ℕ, ◌!=◌, ◌<◌, ◌∙◌, ◌≡◌, ◌≤◌,
}
use reg_agent_ops.Identity.AuthenticatedAgentIdentity.{AuthenticatedAgentIdentity}
use reg_agent_ops.Identity.Binding.{
  bind_identity, earlier, establish_authenticated_agent_identity, human_valid_until,
  identity_record, statement_matches,
}
use reg_agent_ops.Identity.Ed25519.Trusted.{IsOnlyKey}
use reg_agent_ops.Identity.HumanIdentityAssertion.{HumanIdentityAssertion}
use reg_agent_ops.Identity.SignedWorkloadIdentity.{SignedWorkloadIdentity}
use reg_agent_ops.Identity.Workload.{verify_workload_identity, workload_time}
use reg_agent_ops.Identity.Workload.Verified.{
  IsVerifiedWorkload, verify_workload_identity-IsVerifiedWorkload,
}
use reg_agent_ops.Identity.WorkloadIdentityStatement.{WorkloadIdentityStatement}
use reg_agent_ops.Identity.WorkloadIdentityTrustBundle.{WorkloadIdentityTrustBundle}
use reg_agent_ops.Identity.WorkloadIdentityTrustKey.{WorkloadIdentityTrustKey}
use reg_agent_ops.Models.AgentDescriptor.{AgentDescriptor}
use reg_agent_ops.Models.Checks.{
  raise_if_less, raise_if_less-ok, raise_unless_less, raise_unless_less-ok,
}
use reg_agent_ops.Models.DataClassification.{data_classification_eq}
use reg_agent_ops.Models.Decision.{decision_eq}
use reg_agent_ops.Models.Environment.{environment_eq}
use reg_agent_ops.Models.RiskTier.{risk_tier_eq}
use reg_agent_ops.Models.Value.{Platform}

module _ ⦃p : Platform⦄ where
  -- The statement is about the agent.
  pub record IsStatementOf (agent : AgentDescriptor) (statement : WorkloadIdentityStatement)
      : Type 0 where
    pub institution : statement.institution_id ≡ agent.institution_id
    pub agent_id : statement.agent_id ≡ agent.agent_id
    pub owner : statement.human_owner_id ≡ agent.human_owner_id
    pub provider : statement.model_provider ≡ agent.model_provider
    pub model : statement.model_id ≡ agent.model_id

  -- The human identity is the owner's, and valid at a time, until another.
  pub record IsHumanOf (agent : AgentDescriptor) (human : HumanIdentityAssertion) (now expires : ℕ)
      : Type 0 where
    pub institution : human.institution_id ≡ agent.institution_id
    pub owner : human.human_owner_id ≡ agent.human_owner_id
    pub issued : ℕ
    pub issued_parsed : workload_time human.issued_at ≡ ok issued
    pub expires_parsed : workload_time human.expires_at ≡ ok expires
    pub begun : issued ≤ now
    pub unexpired : now < expires

  -- Both identities have been checked, and the new one ends with the first of them to end.
  pub record IsEstablished (agent : AgentDescriptor) (human : HumanIdentityAssertion)
      (workload : SignedWorkloadIdentity) (trust : WorkloadIdentityTrustBundle) (at : String)
      (identity : AuthenticatedAgentIdentity) : Type 0 where
    pub key : WorkloadIdentityTrustKey
    pub only : IsOnlyKey trust workload.key_id key
    pub verified : WorkloadIdentityStatement
    pub by_key : IsVerifiedWorkload key workload at verified
    pub about : IsStatementOf agent workload.statement
    pub human_expires : ℕ
    pub human_valid : IsHumanOf agent human by_key.now human_expires
    pub not_over : by_key.now < earlier human_expires by_key.expires
    pub built :
        identity
        ≡ identity_record agent human workload workload.statement at
            (earlier human_expires by_key.expires)

  statement_matches-IsStatementOf :
      (statement : WorkloadIdentityStatement) (agent : AgentDescriptor)
      → statement_matches statement agent ≡ ok tt
      → IsStatementOf agent statement
  unfolding statement_matches
  statement_matches-IsStatementOf statement agent h = record {
    institution = eq_of_bne statement.institution_id agent.institution_id (ground arith);
    agent_id = eq_of_bne statement.agent_id agent.agent_id (ground arith);
    owner = eq_of_bne statement.human_owner_id agent.human_owner_id (ground arith);
    provider = eq_of_bne statement.model_provider agent.model_provider (ground arith);
    model = eq_of_bne statement.model_id agent.model_id (ground arith);
  }

  human_valid_until-IsHumanOf :
      (agent : AgentDescriptor) (human : HumanIdentityAssertion) (at : String) (now : ℕ)
      {expires : ℕ}
      → human_valid_until agent human at now ≡ ok expires
      → IsHumanOf agent human now expires
  unfolding human_valid_until
  human_valid_until-IsHumanOf agent human at now h =
      let (same_institution, h₁) =
        >>-eq-ok (raise_if (human.institution_id != agent.institution_id) _) _ h in
      let (same_owner, h₂) =
        >>-eq-ok (raise_if (human.human_owner_id != agent.human_owner_id) _) _ h₁ in
      let (issued, issued_parsed, h₃) = >>=-eq-ok (workload_time human.issued_at) _ h₂ in
      let (expires, expires_parsed, h₄) = >>=-eq-ok (workload_time human.expires_at) _ h₃ in
      let (begun, h₅) = >>-eq-ok (raise_if_less _ _ _ _ _) _ h₄ in
      let (unexpired, h₆) = >>-eq-ok (raise_unless_less _ _ _ _ _) _ h₅ in
      subst (IsHumanOf agent human now) (ok-injective h₆) (record {
        institution =
            eq_of_bne human.institution_id agent.institution_id (raise_if-ok _ _ same_institution);
        owner = eq_of_bne human.human_owner_id agent.human_owner_id (raise_if-ok _ _ same_owner);
        issued = issued;
        issued_parsed = issued_parsed;
        expires_parsed = expires_parsed;
        begun = (raise_if_less-ok _ _ _ _ _ begun).1;
        unexpired = (raise_unless_less-ok _ _ _ _ _ unexpired).1;
      })

  bind_identity-inverts :
      (agent : AgentDescriptor) (human : HumanIdentityAssertion) (workload : SignedWorkloadIdentity)
      (statement : WorkloadIdentityStatement) (at : String) (now human_expires expires : ℕ)
      {identity : AuthenticatedAgentIdentity}
      → workload_time statement.expires_at ≡ ok expires
      → bind_identity agent human workload statement at now human_expires ≡ ok identity
      → IsStatementOf agent statement
        × (now < earlier human_expires expires)
        × (identity
            ≡ identity_record agent human workload statement at (earlier human_expires expires))
  unfolding bind_identity
  bind_identity-inverts agent human workload statement at now human_expires expires parsed h =
      let (matched, h₁) = >>-eq-ok (statement_matches statement agent) _ h in
      let (own_expires, own_parsed, h₂) = >>=-eq-ok (workload_time statement.expires_at) _ h₁ in
      let (not_over, h₃) =
        >>-eq-ok (raise_if (leb (earlier human_expires own_expires) now) _) _ h₂ in
      let (checked, built) = >>-eq-ok (AuthenticatedAgentIdentity.post_init _) _ h₃ in
      let same = ok-injective (sym own_parsed ∙ parsed) in
      (
        statement_matches-IsStatementOf statement agent matched,
        subst (λ e. now < earlier human_expires e) same (ground (arith, raise_if-ok _ _ not_over)),
        sym (ok-injective built)
            ∙ ap (λ e. identity_record agent human workload statement at (earlier human_expires e))
                same,
      )

  -- When an agent identity is established, the human identity is that of the agent's institution and
  -- owner and has been issued; the workload's statement is about the agent's institution, id, owner,
  -- provider and model, and one active key of the trust bundle verifies it; and the identity, which
  -- has the agent's ids and the digests of all three, ends when the first of both ends, which is
  -- later than the time of its establishment.
  pub establish-IsEstablished :
      (agent : AgentDescriptor) (human : HumanIdentityAssertion) (workload : SignedWorkloadIdentity)
      (trust : WorkloadIdentityTrustBundle) (at : String) {identity : AuthenticatedAgentIdentity}
      → establish_authenticated_agent_identity agent human workload trust at ≡ ok identity
      → IsEstablished agent human workload trust at identity
  unfolding establish_authenticated_agent_identity
  establish-IsEstablished agent human workload trust at h =
      let (now, now_parsed, h₁) = >>=-eq-ok (workload_time at) _ h in
      let (human_expires, human_valid, h₂) =
        >>=-eq-ok (human_valid_until agent human at now) _ h₁ in
      let (statement, verified, h₃) = >>=-eq-ok (verify_workload_identity workload trust at) _ h₂ in
      let (key, only, by_key) =
        verify_workload_identity-IsVerifiedWorkload workload trust at verified in
      let own : statement ≡ workload.statement = by_key.returned in
      let same_now : now ≡ by_key.now = ok-injective (sym now_parsed ∙ by_key.now_parsed) in
      let (about, not_over, built) =
        bind_identity-inverts agent human workload workload.statement at now human_expires
          by_key.expires by_key.expires_parsed
          (ap (λ s. bind_identity agent human workload s at now human_expires) (sym own) ∙ h₃) in
      record {
        key = key;
        only = only;
        verified = statement;
        by_key = by_key;
        about = about;
        human_expires = human_expires;
        human_valid =
            subst (λ n. IsHumanOf agent human n human_expires) same_now
              (human_valid_until-IsHumanOf agent human at now human_valid);
        not_over = subst (λ n. n < earlier human_expires by_key.expires) same_now not_over;
        built = built;
      }
