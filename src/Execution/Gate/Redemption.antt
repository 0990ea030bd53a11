-- ===== src/Execution/Gate/Redemption.antt =====
-- A lease is redeemed once, and never while the emergency stop is halted or has changed.
use reg_agent_ops.Execution.EmergencyStopState
use reg_agent_ops.Execution.ExecutionLease
use reg_agent_ops.Base.{
  >>-eq-ok, >>=-eq-ok, Bool-cases, Error, Result-cases, String, ap, arith, eq_of_bne, err, false,
  inl, inr, nat_eq, ok, ok-injective, raise_if, raise_if-ok, refl, string_eq, sym, texts_eq, true,
  ℕ, ◌!=◌, ◌<◌, ◌∙◌, ◌∷◌, ◌≡◌, ◌≢◌, ◌≤◌, ◌⊎◌,
}
use reg_agent_ops.Execution.EmergencyStopState.{EmergencyStopState}
use reg_agent_ops.Execution.EmergencyStops.{current}
use reg_agent_ops.Execution.ExecutionLease.{ExecutionLease}
use reg_agent_ops.Execution.ExecutionLeaseConsumption.{ExecutionLeaseConsumption}
use reg_agent_ops.Execution.Gate.{
  ExecutionGate, consumption_record, prepare_redemption, redeem_lease, running_state,
  validate_lease_linkage,
}
use reg_agent_ops.Execution.Gate.Issue.{IsRunning, running_state-IsRunning}
use reg_agent_ops.Execution.Ledger.{ExecutionLeaseLedger, conflicts, consume_lease, row_of}
use reg_agent_ops.Execution.Outcome.{assert_current_governance}
use reg_agent_ops.Mcp.McpPolicyEnforcementOutcome.{McpPolicyEnforcementOutcome}
use reg_agent_ops.Mcp.Registry.Current.{is_current, snapshot_digest}
use reg_agent_ops.Models.Checks.{
  default_limit, raise_if_less, raise_if_less-ok, raise_unless_less, raise_unless_less-ok,
  require_text, utc_timestamp,
}
use reg_agent_ops.Models.DataClassification.{data_classification_eq}
use reg_agent_ops.Models.Decision.{decision_eq}
use reg_agent_ops.Models.Environment.{environment_eq}
use reg_agent_ops.Models.RiskTier.{risk_tier_eq}
use reg_agent_ops.Models.Value.{Platform}

module _ ⦃p : Platform⦄ where
  -- What a redemption has checked about the lease, the time and the emergency stop.
  pub record IsRedeemable (gate : ExecutionGate) (lease : ExecutionLease)
      (executor_id consumed_at : String) (consumption : ExecutionLeaseConsumption) : Type 0 where
    pub executor : executor_id ≡ lease.executor_id
    pub consumed : ℕ
    pub issued : ℕ
    pub expires : ℕ
    pub consumed_parsed : utc_timestamp "consumed_at" consumed_at ≡ ok consumed
    pub issued_parsed : utc_timestamp "issued_at" lease.issued_at ≡ ok issued
    pub expires_parsed : utc_timestamp "expires_at" lease.expires_at ≡ ok expires
    pub started : issued ≤ consumed
    pub unexpired : consumed < expires
    pub stop : EmergencyStopState
    pub running : IsRunning gate.stops lease.institution_id consumed stop
    pub same_stop : EmergencyStopState.artifact_digest stop ≡ lease.emergency_stop_state_digest
    pub same_governance :
        snapshot_digest gate.mcp lease.institution_id ≡ lease.mcp_registry_snapshot_digest
    pub recorded_lease : consumption.lease_digest ≡ ExecutionLease.artifact_digest lease

  prepare_redemption-IsRedeemable :
      (gate : ExecutionGate) (lease : ExecutionLease) (outcome : McpPolicyEnforcementOutcome)
      (executor_id consumed_at : String) {consumption : ExecutionLeaseConsumption}
      → prepare_redemption gate lease outcome executor_id consumed_at ≡ ok consumption
      → IsRedeemable gate lease executor_id consumed_at consumption
  unfolding prepare_redemption consumption_record
  prepare_redemption-IsRedeemable gate lease outcome executor_id consumed_at {consumption = c} h =
      let (_, _, h₁) = >>=-eq-ok (validate_lease_linkage lease outcome) _ h in
      let (_, h₂) = >>-eq-ok (require_text "executor_id" executor_id default_limit) _ h₁ in
      let (bound, h₃) = >>-eq-ok (raise_if (executor_id != lease.executor_id) _) _ h₂ in
      let (_, h₄) = >>-eq-ok (assert_current_governance gate.mcp outcome) _ h₃ in
      let (consumed, consumed_parsed, h₅) =
        >>=-eq-ok (utc_timestamp "consumed_at" consumed_at) _ h₄ in
      let (issued, issued_parsed, h₆) =
        >>=-eq-ok (utc_timestamp "issued_at" lease.issued_at) _ h₅ in
      let (started, h₇) = >>-eq-ok (raise_if_less _ _ _ _ _) _ h₆ in
      let (expires, expires_parsed, h₈) =
        >>=-eq-ok (utc_timestamp "expires_at" lease.expires_at) _ h₇ in
      let (unexpired, h₉) = >>-eq-ok (raise_unless_less _ _ _ _ _) _ h₈ in
      let (stop, runs, h₁₀) =
        >>=-eq-ok
          (running_state gate.stops lease.institution_id consumed_at consumed
            "emergency stop is active; execution lease redemption denied")
          _ h₉ in
      record {
        executor = eq_of_bne executor_id lease.executor_id (raise_if-ok _ _ bound);
        consumed = consumed;
        issued = issued;
        expires = expires;
        consumed_parsed = consumed_parsed;
        issued_parsed = issued_parsed;
        expires_parsed = expires_parsed;
        started = (raise_if_less-ok _ _ _ _ _ started).1;
        unexpired = (raise_unless_less-ok _ _ _ _ _ unexpired).1;
        stop = stop;
        running =
            running_state-IsRunning gate.stops lease.institution_id consumed_at consumed
              "emergency stop is active; execution lease redemption denied" runs;
        same_stop =
            eq_of_bne (EmergencyStopState.artifact_digest stop) lease.emergency_stop_state_digest
              (ground arith);
        same_governance =
            eq_of_bne (snapshot_digest gate.mcp lease.institution_id)
              lease.mcp_registry_snapshot_digest (ground arith);
        recorded_lease = ground arith;
      }

  -- a redemption that returns has passed its checks and added the row
  redeem_lease-added :
      (gate : ExecutionGate) (lease : ExecutionLease) (outcome : McpPolicyEnforcementOutcome)
      (executor_id consumed_at : String) (rows : ExecutionLeaseLedger)
      {consumption : ExecutionLeaseConsumption}
      → (redeem_lease gate lease outcome executor_id consumed_at rows).0 ≡ ok consumption
      → (prepare_redemption gate lease outcome executor_id consumed_at ≡ ok consumption)
        × (conflicts (row_of consumption) rows ≡ false)
        × ((redeem_lease gate lease outcome executor_id consumed_at rows).1
            ≡ row_of consumption ∷ rows)
  unfolding redeem_lease consume_lease
  redeem_lease-added gate lease outcome executor_id consumed_at rows h =
      elim (Result-cases (prepare_redemption gate lease outcome executor_id consumed_at)) [
        | inr (e, failed) ↦ absurd (ground arith)
        | inl (c, prepared) ↦ elim (Bool-cases (conflicts (row_of c) rows)) [
          | inl taken ↦ absurd (ground arith)
          | inr free ↦ (ground arith, ground arith, ground arith)
        ]
      ]

  -- A redemption that returns was made by the lease's executor, within the lease's lifetime, while
  -- the same emergency-stop state as at issuance was current, in force and not halted, and under the
  -- same governance state; its lease was not in the ledger before, and its row is there now.
  pub redeem_lease-IsRedeemable :
      (gate : ExecutionGate) (lease : ExecutionLease) (outcome : McpPolicyEnforcementOutcome)
      (executor_id consumed_at : String) (rows : ExecutionLeaseLedger)
      {consumption : ExecutionLeaseConsumption}
      → (redeem_lease gate lease outcome executor_id consumed_at rows).0 ≡ ok consumption
      → IsRedeemable gate lease executor_id consumed_at consumption
        × (conflicts (row_of consumption) rows ≡ false)
        × ((redeem_lease gate lease outcome executor_id consumed_at rows).1
            ≡ row_of consumption ∷ rows)
  redeem_lease-IsRedeemable gate lease outcome executor_id consumed_at rows h =
      let (prepared, free, added) =
        redeem_lease-added gate lease outcome executor_id consumed_at rows h in
      (
        prepare_redemption-IsRedeemable gate lease outcome executor_id consumed_at prepared,
        free,
        added,
      )

  -- While the institution's current emergency-stop state is halted, or is another than the lease
  -- binds, every redemption of the lease raises and leaves the ledger alone.
  pub redeem_lease-stopped :
      (gate : ExecutionGate) (lease : ExecutionLease) (outcome : McpPolicyEnforcementOutcome)
      (executor_id consumed_at : String) (rows : ExecutionLeaseLedger) (stop : EmergencyStopState)
      → current gate.stops lease.institution_id ≡ ok stop
      → (stop.halted ≡ true)
        ⊎ (EmergencyStopState.artifact_digest stop ≢ lease.emergency_stop_state_digest)
      → (e : Error) × (redeem_lease gate lease outcome executor_id consumed_at rows ≡ (err e, rows))
  unfolding redeem_lease
  redeem_lease-stopped gate lease outcome executor_id consumed_at rows stop is_current why =
      elim (Result-cases (prepare_redemption gate lease outcome executor_id consumed_at)) [
        | inr (e, failed) ↦ (e, rw (failed, redeem_lease) refl)
        | inl (c, prepared) ↦ absurd (blocked c prepared)
      ]
    where
      blocked :
          (c : ExecutionLeaseConsumption)
          → prepare_redemption gate lease outcome executor_id consumed_at ≡ ok c
          → ⊥
      blocked c prepared =
          let r =
            prepare_redemption-IsRedeemable gate lease outcome executor_id consumed_at prepared in
          let same : r.stop ≡ stop = ok-injective (sym r.running.is_current ∙ is_current) in
          elim why [
            | inl halted ↦ cc (ap (λ s. s.halted) same, halted, r.running.not_halted)
            | inr other ↦
                other (ap (λ s. EmergencyStopState.artifact_digest s) (sym same) ∙ r.same_stop)
          ]
