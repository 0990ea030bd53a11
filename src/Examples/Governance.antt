-- ===== src/Examples/Governance.antt =====
-- An MCP registry with one approved server, its snapshot and a binding of the tool that pays.
use reg_agent_ops.Mcp.McpServerRegistration
use reg_agent_ops.Mcp.McpToolBinding
use reg_agent_ops.Mcp.McpToolDescriptor
use reg_agent_ops.Mcp.McpToolSnapshot
use reg_agent_ops.Base.{
  [], codes, drop_last, ends_with_z, is_blank, is_hex, is_hex_64, is_space, len, none, ok, refl,
  true, ◌∷◌, ◌≡◌,
}
use reg_agent_ops.Base.Sort.{text_le}
use reg_agent_ops.Examples.Clock.{
  clock, even_digest, example_platform, first_of_fields, first_text, odd_digest, parity_digest,
}
use reg_agent_ops.Mcp.Checks.{is_tool_char, is_tool_name}
use reg_agent_ops.Mcp.McpServerRegistration.{McpServerRegistration}
use reg_agent_ops.Mcp.McpToolBinding.{McpToolBinding}
use reg_agent_ops.Mcp.McpToolDescriptor.{McpToolDescriptor}
use reg_agent_ops.Mcp.McpToolSnapshot.{McpToolSnapshot}
use reg_agent_ops.Mcp.McpTransportProfile.{McpTransportProfile}
use reg_agent_ops.Mcp.Registry.{
  McpGovernanceRegistry, binding_history, binding_ids, descriptor_by_digest, governed_tool_id,
  latest_binding, latest_server, latest_snapshot, mcp_time, server_by_digest, server_history,
  snapshot_by_digest, snapshots_for_server,
}
use reg_agent_ops.Mcp.Registry.Current.{
  assert_binding_current, current_binding_for_tool, snapshot_digest,
}
use reg_agent_ops.Models.Checks.{
  is_aware, less, raise_if_less, raise_unless_less, require_text, utc_timestamp,
}
use reg_agent_ops.Models.DataClassification.{DataClassification}
use reg_agent_ops.Models.Value.{
  canonical, canonical_fields, canonical_items, canonical_json, digest_artifact, insert_field,
}

abbrev pub server : McpServerRegistration
server = record {
  institution_id = "bank";
  server_id = "ledger";
  server_version = 1;
  expected_server_name = "Ledger";
  transport_profile = McpTransportProfile.stdio;
  server_identity_digest = odd_digest;
  metadata_digest = odd_digest;
  approved = true;
  registered_at = "2026-01-01T00:00:00Z";
  schema_version = "regagentops.mcp-server-registration.v1";
}

abbrev pub descriptor : McpToolDescriptor
descriptor = record {
  institution_id = "bank";
  server_id = "ledger";
  server_registration_digest = even_digest;
  name = "pay";
  input_schema_digest = odd_digest;
  output_schema_digest = none;
  description_digest = none;
  annotations_digest = none;
  raw_metadata_digest = odd_digest;
  schema_version = "regagentops.mcp-tool-descriptor.v1";
}

abbrev pub snapshot : McpToolSnapshot
snapshot = record {
  institution_id = "bank";
  snapshot_id = "snapshot";
  server_id = "ledger";
  server_registration_digest = even_digest;
  observed_server_name = "Ledger";
  observed_server_identity_digest = odd_digest;
  tools = descriptor ∷ [];
  captured_at = "2026-01-01T00:00:00Z";
  schema_version = "regagentops.mcp-tool-snapshot.v1";
}

abbrev pub binding : McpToolBinding
binding = record {
  institution_id = "bank";
  binding_id = "binding";
  binding_version = 1;
  server_id = "ledger";
  server_registration_digest = even_digest;
  tool_snapshot_digest = even_digest;
  tool_descriptor_digest = even_digest;
  governed_tool_id = "mcp:ledger:pay";
  allowed_data_classifications = DataClassification.internal ∷ [];
  production_registered = true;
  enabled = true;
  registered_at = "2026-01-01T00:00:00Z";
  action = "invoke";
  schema_version = "regagentops.mcp-tool-binding.v1";
}

abbrev pub governed : McpGovernanceRegistry
governed = record { servers = server ∷ []; snapshots = snapshot ∷ []; bindings = binding ∷ [] }

pub binding-current : assert_binding_current governed binding ≡ ok descriptor
unfolding assert_binding_current binding_ids binding_history server_history latest_binding
    latest_server latest_snapshot snapshots_for_server mcp_time descriptor_by_digest
    server_by_digest snapshot_by_digest governed_tool_id is_tool_name is_tool_char utc_timestamp
    require_text McpToolBinding.encode McpToolBinding.artifact_digest McpServerRegistration.encode
    McpServerRegistration.artifact_digest McpToolSnapshot.encode McpToolSnapshot.artifact_digest
    McpToolDescriptor.encode McpToolDescriptor.artifact_digest codes is_space is_blank len
    ends_with_z drop_last is_hex is_hex_64 clock first_text first_of_fields parity_digest canonical
    canonical_items canonical_fields insert_field text_le canonical_json digest_artifact
    raise_if_less raise_unless_less less is_aware
binding-current = refl

pub binding_for_tool : current_binding_for_tool governed "bank" "mcp:ledger:pay" ≡ ok binding
unfolding current_binding_for_tool assert_binding_current binding_ids binding_history server_history
    latest_binding latest_server latest_snapshot snapshots_for_server mcp_time descriptor_by_digest
    server_by_digest snapshot_by_digest governed_tool_id is_tool_name is_tool_char utc_timestamp
    require_text McpToolBinding.encode McpToolBinding.artifact_digest McpServerRegistration.encode
    McpServerRegistration.artifact_digest McpToolSnapshot.encode McpToolSnapshot.artifact_digest
    McpToolDescriptor.encode McpToolDescriptor.artifact_digest codes is_space is_blank len
    ends_with_z drop_last is_hex is_hex_64 clock first_text first_of_fields parity_digest canonical
    canonical_items canonical_fields insert_field text_le canonical_json digest_artifact
    raise_if_less raise_unless_less less is_aware
binding_for_tool = refl

pub governed_digest : snapshot_digest governed "bank" ≡ even_digest
unfolding snapshot_digest binding_ids binding_history server_history latest_binding latest_server
    latest_snapshot snapshots_for_server mcp_time descriptor_by_digest server_by_digest
    snapshot_by_digest governed_tool_id is_tool_name is_tool_char utc_timestamp require_text
    McpToolBinding.encode McpToolBinding.artifact_digest McpServerRegistration.encode
    McpServerRegistration.artifact_digest McpToolSnapshot.encode McpToolSnapshot.artifact_digest
    McpToolDescriptor.encode McpToolDescriptor.artifact_digest codes is_space is_blank len
    ends_with_z drop_last is_hex is_hex_64 clock first_text first_of_fields parity_digest canonical
    canonical_items canonical_fields insert_field text_le canonical_json digest_artifact
    raise_if_less raise_unless_less less is_aware
governed_digest = refl

pub descriptor_digest : McpToolDescriptor.artifact_digest descriptor ≡ even_digest
unfolding binding_ids binding_history server_history latest_binding latest_server latest_snapshot
    snapshots_for_server mcp_time descriptor_by_digest server_by_digest snapshot_by_digest
    governed_tool_id is_tool_name is_tool_char utc_timestamp require_text McpToolBinding.encode
    McpToolBinding.artifact_digest McpServerRegistration.encode
    McpServerRegistration.artifact_digest McpToolSnapshot.encode McpToolSnapshot.artifact_digest
    McpToolDescriptor.encode McpToolDescriptor.artifact_digest codes is_space is_blank len
    ends_with_z drop_last is_hex is_hex_64 clock first_text first_of_fields parity_digest canonical
    canonical_items canonical_fields insert_field text_le canonical_json digest_artifact
    raise_if_less raise_unless_less less is_aware
descriptor_digest = refl
