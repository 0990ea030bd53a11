-- ===== src/Mcp/Registry/Registering.antt =====
-- mcp.py, `McpGovernanceRegistry`: the three operations that add to the registry.
use reg_agent_ops.Base.Versioned
use reg_agent_ops.Mcp.McpServerRegistration
use reg_agent_ops.Mcp.McpToolBinding
use reg_agent_ops.Mcp.McpToolSnapshot
use reg_agent_ops.Base.{
  Error, List, Option, Result, String, [], decimal, err, if◌then◌else◌, last?, nat_eq, none, not,
  ok, raise_if, some, string_eq, texts_eq, value_error, ℕ, ◌!=◌, ◌+++◌, ◌++◌, ◌>>=◌, ◌>>◌, ◌||◌,
  ◌∷◌,
}
use reg_agent_ops.Mcp.McpServerRegistration.{McpServerRegistration}
use reg_agent_ops.Mcp.McpToolBinding.{McpToolBinding}
use reg_agent_ops.Mcp.McpToolSnapshot.{McpToolSnapshot}
use reg_agent_ops.Mcp.Registry.{
  McpGovernanceRegistry, binding_scope, binding_version, descriptor_by_digest, find_snapshot,
  governed_tool_id, latest_server, latest_snapshot, mcp_time, server_by_digest, server_scope,
  server_version, snapshot_by_digest,
}
use reg_agent_ops.Models.Checks.{raise_if_less}
use reg_agent_ops.Models.DataClassification.{data_classification_eq}
use reg_agent_ops.Models.Decision.{decision_eq}
use reg_agent_ops.Models.Environment.{environment_eq}
use reg_agent_ops.Models.RiskTier.{risk_tier_eq}
use reg_agent_ops.Models.Value.{Platform}

module _ ⦃p : Platform⦄ where
  -- a new server version may not predate the last one
  unfoldable pub server_not_before :
      Option McpServerRegistration → McpServerRegistration → Result (Unit {0})
  server_not_before none registration = ok tt
  server_not_before (some previous) registration = do
    at ← mcp_time registration.registered_at
    previous_at ← mcp_time previous.registered_at
    raise_if_less registration.registered_at previous.registered_at at previous_at
        (value_error "new MCP server registration cannot predate the previous version")

  abbrev pub server_conflict : Error
  server_conflict = value_error "MCP server identity/version already exists with different content"

  abbrev pub server_gap : ℕ → Error
  server_gap expected =
      value_error ("server_version must be contiguous; expected version " +++ decimal expected)

  unfoldable pub register_server :
      McpGovernanceRegistry → McpServerRegistration → Result String × McpGovernanceRegistry
  unfolding Versioned.register Versioned.history
  register_server r registration =
      let (digest, servers) =
        Versioned.register server_scope server_version McpServerRegistration.artifact_digest
          server_conflict server_gap (λ past. server_not_before (last? past)) r.servers
          registration in
      (digest, record r { servers = servers })

  -- the checks of `register_snapshot` before the dictionary is read
  unfoldable pub snapshot_admitted : McpGovernanceRegistry → McpToolSnapshot → Result (Unit {0})
  snapshot_admitted r snapshot = do
    server ← server_by_digest r snapshot.institution_id snapshot.server_registration_digest
    latest ← latest_server r snapshot.institution_id snapshot.server_id
    raise_if
        (McpServerRegistration.artifact_digest server
          != McpServerRegistration.artifact_digest latest)
        (value_error "MCP tool snapshot is bound to stale server registration")
    raise_if (not latest.approved) (value_error "MCP server is not currently approved")
    raise_if (snapshot.observed_server_name != latest.expected_server_name)
        (value_error "MCP observed server name does not match governed registration")
    raise_if (snapshot.observed_server_identity_digest != latest.server_identity_digest)
        (value_error "MCP observed server identity does not match governed pin")
    captured ← mcp_time snapshot.captured_at
    registered ← mcp_time latest.registered_at
    raise_if_less snapshot.captured_at latest.registered_at captured registered
        (value_error "MCP tool snapshot cannot predate server registration")

  unfoldable pub register_snapshot :
      McpGovernanceRegistry → McpToolSnapshot → Result String × McpGovernanceRegistry
  register_snapshot r snapshot = elim (snapshot_admitted r snapshot) [
    | err e ↦ (err e, r)
    | ok _ ↦ elim (find_snapshot r.snapshots snapshot.institution_id snapshot.snapshot_id) [
      | some existing ↦
          if McpToolSnapshot.artifact_digest existing != McpToolSnapshot.artifact_digest snapshot
          then (err (value_error "MCP snapshot_id already exists with different content"), r)
          else (ok (McpToolSnapshot.artifact_digest existing), r)
      | none ↦ (
        ok (McpToolSnapshot.artifact_digest snapshot),
        record r { snapshots = r.snapshots ++ snapshot ∷ [] },
      )
    ]
  ]

  -- the checks of `register_binding` before the dictionary is read
  unfoldable pub binding_admitted : McpGovernanceRegistry → McpToolBinding → Result (Unit {0})
  binding_admitted r binding = do
    server ← server_by_digest r binding.institution_id binding.server_registration_digest
    latest ← latest_server r binding.institution_id binding.server_id
    raise_if
        (McpServerRegistration.artifact_digest server
            != McpServerRegistration.artifact_digest latest
          || not latest.approved)
        (value_error "MCP tool binding requires current approved server registration")
    snapshot ← snapshot_by_digest r binding.institution_id binding.tool_snapshot_digest
    last ← latest_snapshot r binding.institution_id binding.server_id
    raise_if (McpToolSnapshot.artifact_digest snapshot != McpToolSnapshot.artifact_digest last)
        (value_error "MCP tool binding requires latest governed tool snapshot")
    descriptor ← descriptor_by_digest snapshot binding.tool_descriptor_digest
    expected ← governed_tool_id binding.server_id descriptor.name
    raise_if (binding.governed_tool_id != expected)
        (value_error "governed MCP tool id does not match institution-pinned server/tool identity")
    registered ← mcp_time binding.registered_at
    captured ← mcp_time snapshot.captured_at
    raise_if_less binding.registered_at snapshot.captured_at registered captured
        (value_error "MCP tool binding cannot predate its governed tool snapshot")

  -- the checks of `register_binding` on the history of the binding's id
  unfoldable pub binding_follows : List McpToolBinding → McpToolBinding → Result (Unit {0})
  binding_follows [] binding = ok tt
  binding_follows (oldest ∷ later) binding = do
    raise_if (oldest.governed_tool_id != binding.governed_tool_id)
        (value_error "MCP binding identity cannot move to a different governed tool")
    -- the history is not empty, so there is a last one
    elim (last? (oldest ∷ later)) [
      | none ↦ ok tt
      | some previous ↦ (do
        at ← mcp_time binding.registered_at
        previous_at ← mcp_time previous.registered_at
        raise_if_less binding.registered_at previous.registered_at at previous_at
            (value_error "new MCP binding version cannot predate the previous version"))
    ]

  abbrev pub binding_conflict : Error
  binding_conflict =
      value_error "MCP binding identity/version already exists with different content"

  abbrev pub binding_gap : ℕ → Error
  binding_gap expected =
      value_error ("binding_version must be contiguous; expected version " +++ decimal expected)

  unfoldable pub register_binding :
      McpGovernanceRegistry → McpToolBinding → Result String × McpGovernanceRegistry
  unfolding Versioned.register Versioned.history
  register_binding r binding = elim (binding_admitted r binding) [
    | err e ↦ (err e, r)
    | ok _ ↦
        let (digest, bindings) =
          Versioned.register binding_scope binding_version McpToolBinding.artifact_digest
            binding_conflict binding_gap binding_follows r.bindings binding in
        (digest, record r { bindings = bindings })
  ]
