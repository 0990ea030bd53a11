-- ===== src/Mcp/Registry.antt =====
-- mcp.py, `McpGovernanceRegistry`: the servers, tool snapshots and tool bindings of every
-- institution, each in the order of registration. The dictionaries' keys are read off the entries.
pub mod Registering
pub mod Current
pub mod Invariant
pub mod Live
pub mod Revocation
use reg_agent_ops.Base.Versioned
use reg_agent_ops.Mcp.McpServerRegistration
use reg_agent_ops.Mcp.McpToolDescriptor
use reg_agent_ops.Mcp.McpToolSnapshot
use reg_agent_ops.Base.{
  List, Option, Result, String, [], any, distinct, eqb, err, find_first, if◌then◌else◌, is_empty,
  last?, map, maximum, nat_eq, not, ok, raise_if, select, string_eq, texts_eq, value_error, ℕ, ◌!=◌,
  ◌&&◌, ◌+++◌, ◌==◌, ◌>>=◌, ◌>>◌, ◌∷◌,
}
use reg_agent_ops.Base.Sort.{sort_texts}
use reg_agent_ops.Mcp.Checks.{is_tool_name}
use reg_agent_ops.Mcp.McpServerRegistration.{McpServerRegistration}
use reg_agent_ops.Mcp.McpToolBinding.{McpToolBinding}
use reg_agent_ops.Mcp.McpToolDescriptor.{McpToolDescriptor}
use reg_agent_ops.Mcp.McpToolSnapshot.{McpToolSnapshot}
use reg_agent_ops.Models.Checks.{less, or_raise, require_text, utc_timestamp}
use reg_agent_ops.Models.DataClassification.{data_classification_eq}
use reg_agent_ops.Models.Decision.{decision_eq}
use reg_agent_ops.Models.Environment.{environment_eq}
use reg_agent_ops.Models.RiskTier.{risk_tier_eq}
use reg_agent_ops.Models.Value.{Platform}

pub record McpGovernanceRegistry : Type 0 where
  pub servers : List McpServerRegistration
  pub snapshots : List McpToolSnapshot
  pub bindings : List McpToolBinding

-- the keys of the two versioned dictionaries, without the version
abbrev pub server_scope : McpServerRegistration → List String
server_scope server = server.institution_id ∷ server.server_id ∷ []

abbrev pub server_version : McpServerRegistration → ℕ
server_version server = server.server_version

abbrev pub binding_scope : McpToolBinding → List String
binding_scope binding = binding.institution_id ∷ binding.binding_id ∷ []

abbrev pub binding_version : McpToolBinding → ℕ
binding_version binding = binding.binding_version

-- `server_history`, `binding_history`
unfoldable pub server_history : McpGovernanceRegistry → String → String → List McpServerRegistration
unfolding Versioned.history
server_history r institution_id server_id =
    Versioned.history server_scope server_version r.servers (institution_id ∷ server_id ∷ [])

unfoldable pub binding_history : McpGovernanceRegistry → String → String → List McpToolBinding
unfolding Versioned.history
binding_history r institution_id binding_id =
    Versioned.history binding_scope binding_version r.bindings (institution_id ∷ binding_id ∷ [])

unfoldable pub latest_server :
    McpGovernanceRegistry → String → String → Result McpServerRegistration
latest_server r institution_id server_id =
    or_raise (last? (server_history r institution_id server_id))
      (value_error "MCP server is not registered")

unfoldable pub latest_binding : McpGovernanceRegistry → String → String → Result McpToolBinding
latest_binding r institution_id binding_id =
    or_raise (last? (binding_history r institution_id binding_id))
      (value_error "unknown MCP tool binding")

-- `self._snapshots.get((institution_id, snapshot_id))`
abbrev pub find_snapshot : List McpToolSnapshot → String → String → Option McpToolSnapshot
find_snapshot snapshots institution_id snapshot_id =
    find_first (λ s. s.institution_id == institution_id && s.snapshot_id == snapshot_id) snapshots

unfoldable pub snapshots_for_server : McpGovernanceRegistry → String → String → List McpToolSnapshot
snapshots_for_server r institution_id server_id =
    select (λ s. s.institution_id == institution_id && s.server_id == server_id) r.snapshots

-- `sorted({binding_id for (scope, binding_id, _) in self._bindings if scope == institution_id})`
unfoldable pub binding_ids : McpGovernanceRegistry → String → List String
binding_ids r institution_id = sort_texts (
    distinct
      (map (λ b. b.binding_id) (select (λ b. b.institution_id == institution_id) r.bindings)))

unfoldable pub governed_tool_id : String → String → Result String
governed_tool_id server_id tool_name = do
  require_text "server_id" server_id 64
  raise_if (not (is_tool_name tool_name)) (value_error "invalid MCP tool name")
  let value = "mcp:" +++ server_id +++ ":" +++ tool_name
  require_text "governed_tool_id" value 256
  ok value

module _ ⦃p : Platform⦄ where
  -- `_server_by_digest`, `snapshot_by_digest`, `_descriptor_by_digest`
  unfoldable pub server_by_digest :
      McpGovernanceRegistry → String → String → Result McpServerRegistration
  server_by_digest r institution_id digest =
      or_raise
        (find_first
          (λ s.
            s.institution_id == institution_id && McpServerRegistration.artifact_digest s == digest)
          r.servers)
        (value_error "unknown MCP server registration digest")

  unfoldable pub snapshot_by_digest :
      McpGovernanceRegistry → String → String → Result McpToolSnapshot
  snapshot_by_digest r institution_id digest =
      or_raise
        (find_first
          (λ s. s.institution_id == institution_id && McpToolSnapshot.artifact_digest s == digest)
          r.snapshots)
        (value_error "unknown MCP tool snapshot digest")

  unfoldable pub descriptor_by_digest : McpToolSnapshot → String → Result McpToolDescriptor
  descriptor_by_digest snapshot digest =
      or_raise
        (find_first (λ tool. McpToolDescriptor.artifact_digest tool == digest) snapshot.tools)
        (value_error "MCP tool descriptor is not present in bound snapshot")

  -- `_parse_time`
  unfoldable pub mcp_time : String → Result ℕ
  mcp_time = utc_timestamp "timestamp"

  -- the times of the snapshots, which `max` compares with that of the first, in their order
  abbrev pub later_times : String → ℕ → List McpToolSnapshot → Result (List ℕ)
  later_times moment first [] = ok []
  later_times moment first (s ∷ rest) = do
    time ← mcp_time s.captured_at
    greater ← less moment s.captured_at first time
    times ← later_times moment first rest
    ok (time ∷ times)

  -- the times of the snapshots, of which there is one, as `max` reads them
  abbrev pub capture_times : List McpToolSnapshot → Result (List ℕ)
  capture_times [] = ok []
  capture_times (s ∷ rest) = do
    time ← mcp_time s.captured_at
    times ← later_times s.captured_at time rest
    ok (time ∷ times)

  -- the snapshots captured at a time
  abbrev pub captured_when : ℕ → List McpToolSnapshot → Result (List McpToolSnapshot)
  captured_when time [] = ok []
  captured_when time (s ∷ rest) = do
    own ← mcp_time s.captured_at
    others ← captured_when time rest
    ok (if eqb own time then s ∷ others else others)

  -- `latest[0]`, where all digests are the same
  abbrev pub only_snapshot : List McpToolSnapshot → Result McpToolSnapshot
  only_snapshot [] = err (value_error "conflicting latest MCP tool snapshots fail closed")
  only_snapshot (s ∷ rest) = do
    raise_if
        (any (λ t. McpToolSnapshot.artifact_digest t != McpToolSnapshot.artifact_digest s) rest)
        (value_error "conflicting latest MCP tool snapshots fail closed")
    ok s

  unfoldable pub latest_snapshot : McpGovernanceRegistry → String → String → Result McpToolSnapshot
  latest_snapshot r institution_id server_id = do
    server ← latest_server r institution_id server_id
    raise_if (not server.approved) (value_error "MCP server is not currently approved")
    let governed =
        select (λ s. s.server_registration_digest == McpServerRegistration.artifact_digest server)
          (snapshots_for_server r institution_id server_id)
    raise_if (is_empty governed) (value_error "approved MCP server has no governed tool snapshot")
    times ← capture_times governed
    latest ← captured_when (maximum times) governed
    only_snapshot latest
