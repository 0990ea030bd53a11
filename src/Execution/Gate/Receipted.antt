-- ===== src/Execution/Gate/Receipted.antt =====
-- What a receipt proves: its lease was consumed, once, before the execution started.
use reg_agent_ops.Execution.ExecutionLease
use reg_agent_ops.Execution.ExecutionLeaseConsumption
use reg_agent_ops.Execution.ToolExecutionReceipt
use reg_agent_ops.Models.AgentActionEnvelope
use reg_agent_ops.Base.{
  >>-eq-ok, >>=-eq-ok, Bool-cases, List, Result, Result-cases, String, [], ap, arith, beq_comm,
  beq_self, contains, eq_of_beq, eq_of_bne, false, inl, inr, map, nat_eq, none, ok, ok-injective,
  raise_if, raise_if-ok, refl, some, string_eq, subst, sym, texts_eq, true, unique, ℕ, ◌!=◌, ◌<◌,
  ◌==◌, ◌∷◌, ◌≡◌, ◌≢◌, ◌≤◌, ◌⊎◌,
}
use reg_agent_ops.Execution.ExecutionLease.{ExecutionLease}
use reg_agent_ops.Execution.ExecutionLeaseConsumption.{ExecutionLeaseConsumption}
use reg_agent_ops.Execution.Gate.{
  ExecutionGate, prepare_redemption, redeem_lease, validate_lease_linkage,
}
use reg_agent_ops.Execution.Gate.Redemption.{redeem_lease-IsRedeemable}
use reg_agent_ops.Execution.Ledger.{
  ConsumptionRow, ExecutionLeaseLedger, assert_recorded, columns, conflicts, consume_lease,
  find_row, row_of,
}
use reg_agent_ops.Execution.Receipts.{
  Report, build_receipt, consumption_linked, receipt_record, times_linked,
}
use reg_agent_ops.Execution.ToolExecutionReceipt.{ToolExecutionReceipt}
use reg_agent_ops.Mcp.McpPolicyEnforcementOutcome.{McpPolicyEnforcementOutcome}
use reg_agent_ops.Models.AgentActionEnvelope.{AgentActionEnvelope}
use reg_agent_ops.Models.Checks.{
  default_limit, raise_if_less, raise_if_less-ok, raise_unless_less, raise_unless_less-ok,
  require_text, utc_timestamp,
}
use reg_agent_ops.Models.DataClassification.{data_classification_eq}
use reg_agent_ops.Models.Decision.{decision_eq}
use reg_agent_ops.Models.Environment.{environment_eq}
use reg_agent_ops.Models.RiskTier.{risk_tier_eq}
use reg_agent_ops.Models.Value.{Platform}

-- the ledger holds each lease once
abbrev pub leases_of : ExecutionLeaseLedger → List String
leases_of rows = map (λ row. row.lease_digest) rows

module _ ⦃p : Platform⦄ where
  -- One call of `redeem_lease`, with what it is given.
  pub record Attempt : Type 0 where
    pub gate : ExecutionGate
    pub lease : ExecutionLease
    pub outcome : McpPolicyEnforcementOutcome
    pub executor_id : String
    pub consumed_at : String

  abbrev pub redeem :
      Attempt → ExecutionLeaseLedger → Result ExecutionLeaseConsumption × ExecutionLeaseLedger
  redeem a = redeem_lease a.gate a.lease a.outcome a.executor_id a.consumed_at

  -- The ledger after a sequence of calls, each on the ledger that the one before it left.
  pub run : List Attempt → ExecutionLeaseLedger → ExecutionLeaseLedger
  run [] rows = rows
  run (a ∷ rest) rows = run rest (redeem a rows).1

  -- a call leaves the ledger alone or adds one row for a lease that was not in it
  redeem-grows :
      (a : Attempt) (rows : ExecutionLeaseLedger)
      → ((redeem a rows).1 ≡ rows)
        ⊎ ((c : ExecutionLeaseConsumption) × ((redeem a rows).1 ≡ row_of c ∷ rows)
            × (conflicts (row_of c) rows ≡ false))
  unfolding redeem_lease consume_lease
  redeem-grows a rows =
      elim (Result-cases
        (prepare_redemption a.gate a.lease a.outcome a.executor_id a.consumed_at)) [
          | inr (e, failed) ↦ inl (ground arith)
          | inl (c, prepared) ↦ elim (Bool-cases (conflicts (row_of c) rows)) [
            | inl taken ↦ inl (ground arith)
            | inr free ↦ inr (c, ground arith, free)
          ]
        ]

  conflicts-false :
      (row : ConsumptionRow) (rows : ExecutionLeaseLedger)
      → conflicts row rows ≡ false
      → contains (leases_of rows) row.lease_digest ≡ false
  unfolding conflicts
  conflicts-false row [] h = refl
  conflicts-false row (old ∷ rows) h =
      ground (arith, conflicts-false row rows, beq_comm old.lease_digest row.lease_digest)

  redeem-unique :
      (a : Attempt) (rows : ExecutionLeaseLedger)
      → unique (leases_of rows) ≡ true
      → unique (leases_of (redeem a rows).1) ≡ true
  redeem-unique a rows u = elim (redeem-grows a rows) [
    | inl same ↦ rw same u
    | inr (c, added, free) ↦ rw added (ground (arith, conflicts-false (row_of c) rows free))
  ]

  found_after :
      (row new : ConsumptionRow) (rows : ExecutionLeaseLedger)
      → contains (leases_of rows) new.lease_digest ≡ false
      → find_row rows row.lease_digest ≡ some row
      → find_row (new ∷ rows) row.lease_digest ≡ some row
  found_after row new rows n f = elim (Bool-cases (new.lease_digest == row.lease_digest)) [
    | inr other ↦ rw other f
    | inl same ↦ cc (absent (eq_of_beq new.lease_digest row.lease_digest same), f)
  ]
    where
      absent_in :
          (rs : ExecutionLeaseLedger) (d : String)
          → contains (leases_of rs) d ≡ false
          → find_row rs d ≡ none
      absent_in [] d h = refl
      absent_in (r ∷ rs) d h = ground (arith, beq_comm d r.lease_digest, absent_in rs d)

      absent : new.lease_digest ≡ row.lease_digest → find_row rows row.lease_digest ≡ none
      absent e =
          absent_in rows row.lease_digest (subst (λ d. contains (leases_of rows) d ≡ false) e n)

  run-keeps :
      (attempts : List Attempt) (rows : ExecutionLeaseLedger) (row : ConsumptionRow)
      → find_row rows row.lease_digest ≡ some row
      → find_row (run attempts rows) row.lease_digest ≡ some row
  unfolding run
  run-keeps [] rows row f = f
  run-keeps (a ∷ rest) rows row f = run-keeps rest (redeem a rows).1 row (step a rows row f)
    where
      step :
          (a : Attempt) (rows : ExecutionLeaseLedger) (row : ConsumptionRow)
          → find_row rows row.lease_digest ≡ some row
          → find_row (redeem a rows).1 row.lease_digest ≡ some row
      step a rows row f = elim (redeem-grows a rows) [
        | inl same ↦ rw same f
        | inr (c, added, free) ↦
            rw added (found_after row (row_of c) rows (conflicts-false (row_of c) rows free) f)
      ]

  run-unique :
      (attempts : List Attempt) (rows : ExecutionLeaseLedger)
      → unique (leases_of rows) ≡ true
      → unique (leases_of (run attempts rows)) ≡ true
  unfolding run
  run-unique [] rows u = u
  run-unique (a ∷ rest) rows u = run-unique rest (redeem a rows).1 (redeem-unique a rows u)

  found-contained :
      (rows : ExecutionLeaseLedger) (d : String) {row : ConsumptionRow}
      → find_row rows d ≡ some row
      → contains (leases_of rows) d ≡ true
  found-contained [] d h = cc
  found-contained (r ∷ rows) d {row = row} h =
      ground (arith, found-contained rows d {row = row}, beq_comm d r.lease_digest)

  first_found :
      (rows : ExecutionLeaseLedger) (c : ExecutionLeaseConsumption)
      → find_row (row_of c ∷ rows) c.lease_digest ≡ some (row_of c)
  unfolding row_of
  first_found rows c = rw (beq_self c.lease_digest) refl

  -- The times of an execution: consumption, start, end, and the lease's expiry.
  pub record IsInTime (lease : ExecutionLease) (consumption : ExecutionLeaseConsumption)
      (report : Report) : Type 0 where
    pub consumed : ℕ
    pub started : ℕ
    pub completed : ℕ
    pub expires : ℕ
    pub consumed_parsed : utc_timestamp "consumed_at" consumption.consumed_at ≡ ok consumed
    pub started_parsed : utc_timestamp "started_at" report.started_at ≡ ok started
    pub completed_parsed : utc_timestamp "completed_at" report.completed_at ≡ ok completed
    pub expires_parsed : utc_timestamp "lease expires_at" lease.expires_at ≡ ok expires
    pub after_consumption : consumed ≤ started
    pub before_expiry : started < expires
    pub finished : started ≤ completed

  times_linked-IsInTime :
      (lease : ExecutionLease) (consumption : ExecutionLeaseConsumption) (report : Report)
      → times_linked lease consumption report ≡ ok tt
      → IsInTime lease consumption report
  unfolding times_linked
  times_linked-IsInTime lease consumption report h =
      let (consumed, p₁, h₁) =
        >>=-eq-ok (utc_timestamp "consumed_at" consumption.consumed_at) _ h in
      let (started, p₂, h₂) = >>=-eq-ok (utc_timestamp "started_at" report.started_at) _ h₁ in
      let (completed, p₃, h₃) = >>=-eq-ok (utc_timestamp "completed_at" report.completed_at) _ h₂ in
      let (late, h₄) = >>-eq-ok (raise_if_less _ _ _ _ _) _ h₃ in
      let (expires, p₄, h₅) = >>=-eq-ok (utc_timestamp "lease expires_at" lease.expires_at) _ h₄ in
      let (unexpired, h₆) = >>-eq-ok (raise_unless_less _ _ _ _ _) _ h₅ in
      record {
        consumed = consumed;
        started = started;
        completed = completed;
        expires = expires;
        consumed_parsed = p₁;
        started_parsed = p₂;
        completed_parsed = p₃;
        expires_parsed = p₄;
        after_consumption = (raise_if_less-ok _ _ _ _ _ late).1;
        before_expiry = (raise_unless_less-ok _ _ _ _ _ unexpired).1;
        finished = (raise_if_less-ok _ _ _ _ _ h₆).1;
      }

  linked_lease :
      (request : AgentActionEnvelope) (lease : ExecutionLease)
      (consumption : ExecutionLeaseConsumption)
      → consumption_linked request lease consumption ≡ ok tt
      → consumption.lease_digest ≡ ExecutionLease.artifact_digest lease
  unfolding consumption_linked
  linked_lease request lease consumption h =
      eq_of_bne consumption.lease_digest (ExecutionLease.artifact_digest lease) (ground arith)

  pub record IsReceipted (lease : ExecutionLease) (consumption : ExecutionLeaseConsumption)
      (report : Report) (rows : ExecutionLeaseLedger) (receipt : ToolExecutionReceipt)
      : Type 0 where
    pub executor : report.executor_id ≡ lease.executor_id
    pub for_lease : consumption.lease_digest ≡ ExecutionLease.artifact_digest lease
    pub recorded : assert_recorded rows consumption ≡ ok tt
    pub in_time : IsInTime lease consumption report
    pub names_lease : receipt.execution_lease_digest ≡ ExecutionLease.artifact_digest lease
    pub names_consumption :
        receipt.lease_consumption_digest ≡ ExecutionLeaseConsumption.artifact_digest consumption

  -- On a ledger that holds no lease twice, after a redemption that returns, and whatever redemptions
  -- follow: no lease stands in the ledger twice, no further redemption returns a consumption of the
  -- same lease, and the consumption is still recorded as it was returned.
  pub redeem-once :
      (a : Attempt) (later : List Attempt) (rows : ExecutionLeaseLedger)
      {c : ExecutionLeaseConsumption}
      → unique (leases_of rows) ≡ true
      → (redeem a rows).0 ≡ ok c
      → (unique (leases_of (run later (redeem a rows).1)) ≡ true)
        × (assert_recorded (run later (redeem a rows).1) c ≡ ok tt)
        × ((b : Attempt) (d : ExecutionLeaseConsumption)
            → d.lease_digest ≡ c.lease_digest
            → (redeem b (run later (redeem a rows).1)).0 ≢ ok d)
  unfolding row_of assert_recorded
  redeem-once a later rows {c = c} u h =
      let (_, free, added) =
        redeem_lease-IsRedeemable a.gate a.lease a.outcome a.executor_id a.consumed_at rows h in
      let kept = run-keeps later (redeem a rows).1 (row_of c) (rw added (first_found rows c)) in
      (
        run-unique later (redeem a rows).1 (redeem-unique a rows u),
        rw kept (rw (beq_self (columns (row_of c))) refl),
        λ b d same again.
            let (_, fresh, _) =
              redeem_lease-IsRedeemable b.gate b.lease b.outcome b.executor_id b.consumed_at
                (run later (redeem a rows).1) again in
            cc (
              conflicts-false (row_of d) (run later (redeem a rows).1) fresh,
              found-contained (run later (redeem a rows).1) c.lease_digest kept,
              same,
            ),
      )

  -- A receipt is built only on a lease consumption that the ledger records, made by the lease's own
  -- executor, and for an execution that started after the consumption and before the lease expired.
  pub build_receipt-recorded :
      (request : AgentActionEnvelope) (outcome : McpPolicyEnforcementOutcome)
      (lease : ExecutionLease) (consumption : ExecutionLeaseConsumption) (report : Report)
      (rows : ExecutionLeaseLedger) {receipt : ToolExecutionReceipt}
      → build_receipt request outcome lease consumption report rows ≡ ok receipt
      → IsReceipted lease consumption report rows receipt
  unfolding build_receipt receipt_record
  build_receipt-recorded request outcome lease consumption report rows {receipt = receipt} h =
      let (_, h₁) =
        >>-eq-ok
          (raise_if
            (AgentActionEnvelope.artifact_digest request
              != AgentActionEnvelope.artifact_digest outcome.request)
            _)
          _ h in
      let (authorization, _, h₂) = >>=-eq-ok (validate_lease_linkage lease outcome) _ h₁ in
      let (_, h₃) = >>-eq-ok (require_text "executor_id" report.executor_id default_limit) _ h₂ in
      let (executor, h₄) = >>-eq-ok (raise_if (report.executor_id != lease.executor_id) _) _ h₃ in
      let (linked, h₅) = >>-eq-ok (consumption_linked request lease consumption) _ h₄ in
      let (recorded, h₆) = >>-eq-ok (assert_recorded rows consumption) _ h₅ in
      let (timed, h₇) = >>-eq-ok (times_linked lease consumption report) _ h₆ in
      let made = receipt_record request outcome authorization lease consumption report in
      let (_, h₈) = >>-eq-ok (ToolExecutionReceipt.post_init made) (ok made) h₇ in
      let same : made ≡ receipt = ok-injective h₈ in
      record {
        executor = eq_of_bne report.executor_id lease.executor_id (raise_if-ok _ _ executor);
        for_lease = linked_lease request lease consumption linked;
        recorded = recorded;
        in_time = times_linked-IsInTime lease consumption report timed;
        names_lease = ap (λ r. r.execution_lease_digest) (sym same);
        names_consumption = ap (λ r. r.lease_consumption_digest) (sym same);
      }
