-- ===== src/Mcp/Registry/Current.antt =====
-- mcp.py, `McpGovernanceRegistry`: which bindings are current, and what the registry's state is.
use reg_agent_ops.Mcp.McpServerRegistration
use reg_agent_ops.Mcp.McpToolBinding
use reg_agent_ops.Mcp.McpToolSnapshot
use reg_agent_ops.Models.ToolActionDescriptor
use reg_agent_ops.Registry.ToolRegistry
use reg_agent_ops.Base.{
  Bool, Error, List, Result, String, [], any, approval_authority_error, approval_gate_error,
  approval_signature_error, contains, err, false, identity_binding_error, identity_signature_error,
  if◌then◌else◌, map, nat_eq, not, ok, raise_if, receipt_signature_error, select, string_eq,
  texts_eq, true, value_error, workload_identity_error, ◌!=◌, ◌==◌, ◌>>=◌, ◌>>◌, ◌||◌, ◌∷◌,
}
use reg_agent_ops.Base.Sort.{sort_texts}
use reg_agent_ops.Mcp.McpServerRegistration.{McpServerRegistration}
use reg_agent_ops.Mcp.McpToolBinding.{McpToolBinding}
use reg_agent_ops.Mcp.McpToolDescriptor.{McpToolDescriptor}
use reg_agent_ops.Mcp.McpToolSnapshot.{McpToolSnapshot}
use reg_agent_ops.Mcp.Registry.{
  McpGovernanceRegistry, binding_ids, descriptor_by_digest, governed_tool_id, latest_binding,
  latest_server, latest_snapshot,
}
use reg_agent_ops.Models.DataClassification.{data_classification_eq}
use reg_agent_ops.Models.Decision.{decision_eq}
use reg_agent_ops.Models.Environment.{environment_eq}
use reg_agent_ops.Models.RiskTier.{risk_tier_eq}
use reg_agent_ops.Models.ToolActionDescriptor.{ToolActionDescriptor}
use reg_agent_ops.Models.Value.{Platform, dict, digest_artifact, text, texts}
use reg_agent_ops.Registry.ToolRegistry.{ToolRegistry}

-- `except ValueError`
abbrev pub is_value_error : Error → Bool
is_value_error (value_error _) = true
is_value_error (approval_gate_error _) = true
is_value_error (approval_authority_error _) = true
is_value_error (approval_signature_error _) = true
is_value_error (receipt_signature_error _) = true
is_value_error (identity_signature_error _) = true
is_value_error (workload_identity_error _) = true
is_value_error (identity_binding_error _) = true
is_value_error _ = false

module _ ⦃p : Platform⦄ where
  unfoldable pub assert_binding_current :
      McpGovernanceRegistry → McpToolBinding → Result McpToolDescriptor
  assert_binding_current r binding = do
    latest ← latest_binding r binding.institution_id binding.binding_id
    raise_if (McpToolBinding.artifact_digest latest != McpToolBinding.artifact_digest binding)
        (value_error "MCP tool binding is stale")
    server ← latest_server r binding.institution_id binding.server_id
    raise_if
        (McpServerRegistration.artifact_digest server != binding.server_registration_digest
          || not server.approved)
        (value_error "MCP tool binding server registration is stale or unapproved")
    snapshot ← latest_snapshot r binding.institution_id binding.server_id
    raise_if (McpToolSnapshot.artifact_digest snapshot != binding.tool_snapshot_digest)
        (value_error "MCP tool binding snapshot is stale")
    descriptor ← descriptor_by_digest snapshot binding.tool_descriptor_digest
    expected ← governed_tool_id binding.server_id descriptor.name
    raise_if (binding.governed_tool_id != expected)
        (value_error "MCP tool binding identity mismatch")
    ok descriptor

  -- what `try: self.assert_binding_current(binding) except ValueError: continue` lets through
  abbrev pub is_current : McpGovernanceRegistry → McpToolBinding → Result Bool
  is_current r binding = elim (assert_binding_current r binding) [
    | ok _ ↦ ok true
    | err e ↦ if is_value_error e then ok false else err e
  ]

  -- whether the loop of `current_binding_for_tool` takes a binding
  abbrev pub is_candidate : McpGovernanceRegistry → String → McpToolBinding → Result Bool
  is_candidate r tool_id binding =
      if binding.governed_tool_id != tool_id then ok false else is_current r binding

  -- the loop of `current_binding_for_tool`
  abbrev pub current_candidates :
      McpGovernanceRegistry → String → String → List String → Result (List McpToolBinding)
  current_candidates r institution_id tool_id [] = ok []
  current_candidates r institution_id tool_id (id ∷ ids) = do
    binding ← latest_binding r institution_id id
    taken ← is_candidate r tool_id binding
    others ← current_candidates r institution_id tool_id ids
    ok (if taken then binding ∷ others else others)

  -- `candidates[0]`, where all digests are the same
  abbrev pub only_binding : List McpToolBinding → Result McpToolBinding
  only_binding [] = err (value_error "MCP tool is not currently governed")
  only_binding (b ∷ rest) = do
    raise_if (any (λ c. McpToolBinding.artifact_digest c != McpToolBinding.artifact_digest b) rest)
        (value_error "conflicting current MCP tool bindings fail closed")
    ok b

  unfoldable pub current_binding_for_tool :
      McpGovernanceRegistry → String → String → Result McpToolBinding
  current_binding_for_tool r institution_id tool_id = do
    found ← current_candidates r institution_id tool_id (binding_ids r institution_id)
    only_binding found

  abbrev pub action_of : String → McpToolBinding → ToolActionDescriptor
  action_of institution_id binding = record {
    institution_id = institution_id;
    tool_id = binding.governed_tool_id;
    action = binding.action;
    allowed_data_classifications = binding.allowed_data_classifications;
    production_registered = binding.production_registered;
    enabled = binding.enabled;
  }

  -- the loop of `current_tool_registry`; `seen` holds the tools and actions so far
  abbrev pub current_actions :
      McpGovernanceRegistry
      → String
      → List String
      → List (List String)
      → Result (List ToolActionDescriptor)
  current_actions r institution_id [] seen = ok []
  current_actions r institution_id (id ∷ ids) seen = do
    binding ← latest_binding r institution_id id
    is_live ← is_current r binding
    let key = binding.governed_tool_id ∷ binding.action ∷ []
    let skipped = current_actions r institution_id ids seen
    let kept = current_actions r institution_id ids (key ∷ seen)
    if not is_live then skipped else (do
      raise_if (contains seen key)
          (value_error "conflicting current MCP bindings produce duplicate tool/action identity")
      ToolActionDescriptor.post_init (action_of institution_id binding)
      rest ← kept
      ok (action_of institution_id binding ∷ rest))

  unfoldable pub current_tool_registry : McpGovernanceRegistry → String → Result ToolRegistry
  current_tool_registry r institution_id = do
    actions ← current_actions r institution_id (binding_ids r institution_id) []
    let tools : ToolRegistry = record { actions = actions }
    ToolRegistry.post_init tools
    ok tools

  unfoldable pub snapshot_digest : McpGovernanceRegistry → String → String
  snapshot_digest r institution_id = digest_artifact (
      dict (
        ("institution_id", text institution_id)
        ∷ (
          "servers",
          texts (
              sort_texts (
                map McpServerRegistration.artifact_digest
                  (select (λ s. s.institution_id == institution_id) r.servers))),
        )
        ∷ (
          "tool_snapshots",
          texts (
              sort_texts (
                map McpToolSnapshot.artifact_digest
                  (select (λ s. s.institution_id == institution_id) r.snapshots))),
        )
        ∷ (
          "tool_bindings",
          texts (
              sort_texts (
                map McpToolBinding.artifact_digest
                  (select (λ b. b.institution_id == institution_id) r.bindings))),
        )
        ∷ []))
