-- ===== src/Identity/Binding/Bounds.antt =====
-- For how long an established agent identity can be valid.
use reg_agent_ops.Identity.WorkloadIdentityStatement
use reg_agent_ops.Base.{
  >>-eq-ok, >>=-eq-ok, Result-cases, String, ap, arith, inl, inr, leb, ok, ok-injective, raise_if,
  sym, ℕ, ◌*◌, ◌+◌, ◌<◌, ◌∙◌, ◌≡◌, ◌≤◌,
}
use reg_agent_ops.Identity.AuthenticatedAgentIdentity.{AuthenticatedAgentIdentity}
use reg_agent_ops.Identity.Binding.{
  binding_timestamp, earlier, establish_authenticated_agent_identity, identity_record,
}
use reg_agent_ops.Identity.Binding.Established.{establish-IsEstablished}
use reg_agent_ops.Identity.Checks.{aware_timestamp, interval}
use reg_agent_ops.Identity.HumanIdentityAssertion.{HumanIdentityAssertion}
use reg_agent_ops.Identity.SignedWorkloadIdentity.{SignedWorkloadIdentity}
use reg_agent_ops.Identity.Workload.{workload_time}
use reg_agent_ops.Identity.WorkloadIdentityStatement.{WorkloadIdentityStatement}
use reg_agent_ops.Identity.WorkloadIdentityTrustBundle.{WorkloadIdentityTrustBundle}
use reg_agent_ops.Models.AgentDescriptor.{AgentDescriptor}
use reg_agent_ops.Models.Checks.{utc_timestamp}
use reg_agent_ops.Models.Value.{Platform}

module _ ⦃p : Platform⦄ where
  aware_timestamp-workload_time :
      (name value : String) {t : ℕ} → aware_timestamp name value ≡ ok t → workload_time value ≡ ok t
  unfolding aware_timestamp utc_timestamp workload_time
  aware_timestamp-workload_time name value h = ground arith

  interval-inverts :
      (start_name start end_name finish : String) {length : ℕ}
      → interval start_name start end_name finish ≡ ok length
      → (from to : ℕ) × (workload_time start ≡ ok from)
        × (workload_time finish ≡ ok to)
        × (to ≤ from + length)
  unfolding interval
  interval-inverts start_name start end_name finish h =
      let (from, from_parsed, h₁) = >>=-eq-ok (aware_timestamp start_name start) _ h in
      let (to, to_parsed, h₂) = >>=-eq-ok (aware_timestamp end_name finish) _ h₁ in
      let (ordered, h₃) = >>-eq-ok (raise_if (leb to from) _) _ h₂ in
      (
        from,
        to,
        aware_timestamp-workload_time start_name start from_parsed,
        aware_timestamp-workload_time end_name finish to_parsed,
        omega (arith, ok-injective h₃),
      )

  -- the longest lifetime of a workload's statement, in microseconds
  abbrev pub max_workload_lifetime : ℕ
  max_workload_lifetime = 900 * 1000000

  statement-lifetime :
      (statement : WorkloadIdentityStatement)
      → WorkloadIdentityStatement.post_init statement ≡ ok tt
      → (lifetime : ℕ) × (interval "issued_at" statement.issued_at "expires_at" statement.expires_at
          ≡ ok lifetime)
        × (lifetime ≤ max_workload_lifetime)
  unfolding WorkloadIdentityStatement.post_init
  statement-lifetime statement h =
      elim (Result-cases
        (interval "issued_at" statement.issued_at "expires_at" statement.expires_at)) [
          | inr (e, raised) ↦ absurd (ground arith)
          | inl (lifetime, measured) ↦ (lifetime, measured, ground arith)
        ]

  -- When an agent identity is established from a workload's statement that its constructor accepts,
  -- the identity is valid for longer than no time, and for no more than 900 seconds.
  pub establish-bounded :
      (agent : AgentDescriptor) (human : HumanIdentityAssertion) (workload : SignedWorkloadIdentity)
      (trust : WorkloadIdentityTrustBundle) (at : String) {identity : AuthenticatedAgentIdentity}
      → WorkloadIdentityStatement.post_init workload.statement ≡ ok tt
      → establish_authenticated_agent_identity agent human workload trust at ≡ ok identity
      → (now valid_until : ℕ) × (workload_time at ≡ ok now)
        × (identity.valid_until ≡ binding_timestamp valid_until)
        × (now < valid_until)
        × (valid_until ≤ now + max_workload_lifetime)
  unfolding identity_record
  establish-bounded agent human workload trust at accepted h =
      let e = establish-IsEstablished agent human workload trust at h in
      let v = e.by_key in
      let (lifetime, measured, short) = statement-lifetime workload.statement accepted in
      let (from, to, from_parsed, to_parsed, apart) =
        interval-inverts "issued_at" workload.statement.issued_at "expires_at"
          workload.statement.expires_at measured in
      let same_from = ok-injective (sym from_parsed ∙ v.issued_parsed) in
      let same_to = ok-injective (sym to_parsed ∙ v.expires_parsed) in
      (
        v.now,
        earlier e.human_expires v.expires,
        v.now_parsed,
        ap (λ i. i.valid_until) e.built,
        e.not_over,
        ground (arith, same_from, same_to, apart, short, v.begun),
      )
