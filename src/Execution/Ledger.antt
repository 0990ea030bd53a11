-- ===== src/Execution/Ledger.antt =====
-- execution.py, `ExecutionLeaseLedger`: the table of consumed leases. The PRIMARY KEY and the UNIQUE
-- constraint refuse a row, and a refused transaction is rolled back.
use reg_agent_ops.Execution.ExecutionLeaseConsumption
use reg_agent_ops.Base.{
  Bool, List, Option, Result, String, [], any, err, if◌then◌else◌, length, nat_eq, none, ok,
  raise_if, some, string_eq, texts_eq, value_error, ℕ, ◌!=◌, ◌==◌, ◌>>=◌, ◌||◌, ◌∷◌,
}
use reg_agent_ops.Execution.ExecutionLeaseConsumption.{ExecutionLeaseConsumption}
use reg_agent_ops.Models.Checks.{or_raise}
use reg_agent_ops.Models.DataClassification.{data_classification_eq}
use reg_agent_ops.Models.Decision.{decision_eq}
use reg_agent_ops.Models.Environment.{environment_eq}
use reg_agent_ops.Models.RiskTier.{risk_tier_eq}
use reg_agent_ops.Models.Value.{Platform}

pub record ConsumptionRow : Type 0 where
  pub lease_digest : String
  pub consumption_digest : String
  pub institution_id : String
  pub executor_id : String
  pub request_digest : String
  pub mcp_registry_snapshot_digest : String
  pub emergency_stop_state_digest : String
  pub consumed_at : String

abbrev pub ExecutionLeaseLedger : Type 0
ExecutionLeaseLedger = List ConsumptionRow

-- the first row with the key of the lease; the PRIMARY KEY allows one
abbrev pub find_row : ExecutionLeaseLedger → String → Option ConsumptionRow
find_row [] lease_digest = none
find_row (row ∷ rows) lease_digest =
    let rest = find_row rows lease_digest in
    if row.lease_digest == lease_digest then some row else rest

-- Does the row violate the PRIMARY KEY or the UNIQUE constraint of the table?
unfoldable pub conflicts : ConsumptionRow → ExecutionLeaseLedger → Bool
conflicts row rows =
    any
      (λ old.
        old.lease_digest == row.lease_digest || old.consumption_digest == row.consumption_digest)
      rows

-- the tuple that `assert_recorded` compares
abbrev pub columns : ConsumptionRow → List String
columns row =
    row.consumption_digest ∷ row.institution_id ∷ row.executor_id ∷ row.request_digest
    ∷ row.mcp_registry_snapshot_digest ∷ row.emergency_stop_state_digest ∷ row.consumed_at ∷ []

unfoldable pub consumption_count : ExecutionLeaseLedger → ℕ
consumption_count rows = length rows

module _ ⦃p : Platform⦄ where
  unfoldable pub row_of : ExecutionLeaseConsumption → ConsumptionRow
  row_of c = record {
    lease_digest = c.lease_digest;
    consumption_digest = ExecutionLeaseConsumption.artifact_digest c;
    institution_id = c.institution_id;
    executor_id = c.executor_id;
    request_digest = c.request_digest;
    mcp_registry_snapshot_digest = c.mcp_registry_snapshot_digest;
    emergency_stop_state_digest = c.emergency_stop_state_digest;
    consumed_at = c.consumed_at;
  }

  unfoldable pub consume_lease :
      ExecutionLeaseLedger → ExecutionLeaseConsumption → Result (Unit {0}) × ExecutionLeaseLedger
  consume_lease rows c =
      if conflicts (row_of c) rows
      then (err (value_error "execution lease has already been consumed"), rows)
      else (ok tt, row_of c ∷ rows)

  unfoldable pub assert_recorded :
      ExecutionLeaseLedger → ExecutionLeaseConsumption → Result (Unit {0})
  assert_recorded rows c = do
    row ←
        or_raise (find_row rows c.lease_digest)
          (value_error "execution lease consumption is not recorded in the append-only ledger")
    raise_if (columns row != columns (row_of c))
        (value_error "execution lease consumption does not match the append-only ledger record")
