-- ===== src/Examples/Enforcement.antt =====
-- The MCP registry as it grows, and the request to pay at its enforcement point.
use reg_agent_ops.Base.Versioned
use reg_agent_ops.Identity.AuthenticatedAgentIdentity
use reg_agent_ops.Identity.SignedAuthenticatedAgentIdentity
use reg_agent_ops.Mcp.McpPolicyEnforcementOutcome
use reg_agent_ops.Mcp.McpPolicyEnforcementResult
use reg_agent_ops.Mcp.McpServerRegistration
use reg_agent_ops.Mcp.McpToolBinding
use reg_agent_ops.Mcp.McpToolDescriptor
use reg_agent_ops.Mcp.McpToolSnapshot
use reg_agent_ops.Models.AgentActionEnvelope
use reg_agent_ops.Models.AgentDescriptor
use reg_agent_ops.Models.AuthenticatedAuthorizationDecision
use reg_agent_ops.Models.AuthorizationDecision
use reg_agent_ops.Models.ToolActionDescriptor
use reg_agent_ops.Policy.PolicyBundle
use reg_agent_ops.Policy.PolicyRule
use reg_agent_ops.Registry.AgentRegistry
use reg_agent_ops.Registry.ToolRegistry
use reg_agent_ops.Approval.Checks.{parse_with}
use reg_agent_ops.Base.{
  Error, List, [], codes, drop_last, ends_with_z, err, false, is_blank, is_hex, is_hex_64, is_space,
  len, ok, refl, some, subst, true, ◌∷◌, ◌≡◌,
}
use reg_agent_ops.Base.Sort.{text_le}
use reg_agent_ops.Examples.Clock.{
  clock, even_digest, example_platform, first_of_fields, first_text, odd_digest, parity_digest,
}
use reg_agent_ops.Examples.Governance.{
  binding, binding_for_tool, descriptor, governed, server, snapshot,
}
use reg_agent_ops.Examples.Identities.{context, now, trust}
use reg_agent_ops.Examples.Requests.{approving, engine, request}
use reg_agent_ops.Identity.AuthenticatedAgentIdentity.{AuthenticatedAgentIdentity}
use reg_agent_ops.Identity.Context.{
  authenticated_identity_signing_document, context_time, verify_context_with_key,
  verify_signed_authenticated_agent_identity,
}
use reg_agent_ops.Identity.Ed25519.{decode_b64url, signature_valid}
use reg_agent_ops.Identity.SignedAuthenticatedAgentIdentity.{SignedAuthenticatedAgentIdentity}
use reg_agent_ops.Mcp.Checks.{is_tool_char, is_tool_name}
use reg_agent_ops.Mcp.EnforcementPoint.{
  McpPolicyEnforcementPoint, after_preconditions, authorized_result, enforce, enforcement_outcome,
  evidence_of, governed_binding, preconditions,
}
use reg_agent_ops.Mcp.EnforcementPoint.Enforced.{IsEnforced, enforce-IsEnforced}
use reg_agent_ops.Mcp.McpPolicyEnforcementOutcome.{
  McpPolicyEnforcementOutcome, approval_gate_required,
}
use reg_agent_ops.Mcp.McpPolicyEnforcementResult.{McpPolicyEnforcementResult}
use reg_agent_ops.Mcp.McpServerRegistration.{McpServerRegistration}
use reg_agent_ops.Mcp.McpToolBinding.{McpToolBinding}
use reg_agent_ops.Mcp.McpToolDescriptor.{McpToolDescriptor}
use reg_agent_ops.Mcp.McpToolSnapshot.{McpToolSnapshot}
use reg_agent_ops.Mcp.Registry.{
  McpGovernanceRegistry, binding_history, binding_ids, descriptor_by_digest, governed_tool_id,
  latest_binding, latest_server, latest_snapshot, mcp_time, server_by_digest, server_history,
  snapshot_by_digest, snapshots_for_server,
}
use reg_agent_ops.Mcp.Registry.Current.{
  assert_binding_current, current_binding_for_tool, current_tool_registry, snapshot_digest,
}
use reg_agent_ops.Mcp.Registry.Invariant.{
  IsGoverned, Operation, add_binding, add_server, add_snapshot, apply_all, apply_all-IsGoverned,
}
use reg_agent_ops.Mcp.Registry.Live.{Agrees, IsLive, current_binding_for_tool-IsLive}
use reg_agent_ops.Mcp.Registry.Registering.{
  binding_admitted, binding_follows, register_binding, register_server, register_snapshot,
  server_not_before, snapshot_admitted,
}
use reg_agent_ops.Mcp.Registry.Revocation.{register_binding-supersedes, register_server-revokes}
use reg_agent_ops.Models.AgentActionEnvelope.{AgentActionEnvelope}
use reg_agent_ops.Models.AgentDescriptor.{AgentDescriptor}
use reg_agent_ops.Models.AuthenticatedAuthorizationDecision.{AuthenticatedAuthorizationDecision}
use reg_agent_ops.Models.AuthorizationDecision.{AuthorizationDecision}
use reg_agent_ops.Models.Checks.{
  is_aware, less, raise_if_less, raise_unless_less, require_digest, require_digests,
  require_optional_digest, require_positive, require_text, require_texts, require_utc_timestamp,
  utc_timestamp,
}
use reg_agent_ops.Models.Decision.{Decision}
use reg_agent_ops.Models.ToolActionDescriptor.{ToolActionDescriptor}
use reg_agent_ops.Models.Value.{
  canonical, canonical_fields, canonical_items, canonical_json, digest_artifact, insert_field,
}
use reg_agent_ops.Policy.Authenticated.{
  authenticated_decision, authenticated_engine, authenticated_record, evaluate_authenticated,
  evaluate_verified, identity_failure_reason, signed_context, within_context,
}
use reg_agent_ops.Policy.Engine.{
  agent_refusal, by_matched, decision_record, evaluate, make_decision, refusal, tool_refusal,
}
use reg_agent_ops.Policy.PolicyBundle.{PolicyBundle}
use reg_agent_ops.Policy.PolicyRule.{PolicyRule}
use reg_agent_ops.Registry.AgentRegistry.{AgentRegistry}
use reg_agent_ops.Registry.ToolRegistry.{ToolRegistry}

abbrev empty : McpGovernanceRegistry
empty = record { servers = []; snapshots = []; bindings = [] }

abbrev operations : List Operation
operations = add_server server ∷ add_snapshot snapshot ∷ add_binding binding ∷ []

empty-IsGoverned : IsGoverned empty
empty-IsGoverned = record {
  servers_contiguous = record { in_order = λ key. tt };
  bindings_contiguous = record { in_order = λ key. tt };
  snapshots_unique = refl;
  snapshots_pinned = tt;
  bindings_pinned = tt;
}

apply_all-IsGoverned_example : IsGoverned (apply_all empty operations)
apply_all-IsGoverned_example = apply_all-IsGoverned empty operations empty-IsGoverned

grows : apply_all empty operations ≡ governed
unfolding register_server server_not_before register_snapshot snapshot_admitted register_binding
    binding_admitted binding_follows Versioned.register Versioned.history binding_ids
    binding_history server_history latest_binding latest_server latest_snapshot snapshots_for_server
    mcp_time descriptor_by_digest server_by_digest snapshot_by_digest governed_tool_id is_tool_name
    is_tool_char utc_timestamp require_text McpToolBinding.encode McpToolBinding.artifact_digest
    McpServerRegistration.encode McpServerRegistration.artifact_digest McpToolSnapshot.encode
    McpToolSnapshot.artifact_digest McpToolDescriptor.encode McpToolDescriptor.artifact_digest codes
    is_space is_blank len ends_with_z drop_last is_hex is_hex_64 clock first_text first_of_fields
    parity_digest canonical canonical_items canonical_fields insert_field text_le canonical_json
    digest_artifact raise_if_less raise_unless_less less is_aware
grows = refl

governed-IsGoverned : IsGoverned governed
governed-IsGoverned = subst IsGoverned grows apply_all-IsGoverned_example

-- a second version of the server, which is not approved
abbrev withdrawn : McpServerRegistration
withdrawn = record server { server_version = 2; approved = false; registered_at = now }

withdrawn-registered : (register_server governed withdrawn).0 ≡ ok even_digest
unfolding register_server server_not_before Versioned.register Versioned.history binding_ids
    binding_history server_history latest_binding latest_server latest_snapshot snapshots_for_server
    mcp_time descriptor_by_digest server_by_digest snapshot_by_digest governed_tool_id is_tool_name
    is_tool_char utc_timestamp require_text McpToolBinding.encode McpToolBinding.artifact_digest
    McpServerRegistration.encode McpServerRegistration.artifact_digest McpToolSnapshot.encode
    McpToolSnapshot.artifact_digest McpToolDescriptor.encode McpToolDescriptor.artifact_digest codes
    is_space is_blank len ends_with_z drop_last is_hex is_hex_64 clock first_text first_of_fields
    parity_digest canonical canonical_items canonical_fields insert_field text_le canonical_json
    digest_artifact raise_if_less raise_unless_less less is_aware
withdrawn-registered = refl

register_server-revokes_example :
    (e : Error) × (assert_binding_current (register_server governed withdrawn).1 binding ≡ err e)
unfolding McpServerRegistration.encode McpServerRegistration.artifact_digest clock first_text
    first_of_fields parity_digest canonical canonical_items canonical_fields insert_field text_le
    canonical_json digest_artifact codes is_space is_blank len ends_with_z drop_last is_hex
    is_hex_64 raise_if_less raise_unless_less less is_aware
register_server-revokes_example =
    register_server-revokes governed governed-IsGoverned withdrawn binding refl withdrawn-registered
      refl refl refl

-- a second version of the binding
abbrev rebound : McpToolBinding
rebound = record binding { binding_version = 2; registered_at = now }

rebound-registered : (register_binding governed rebound).0 ≡ ok even_digest
unfolding register_binding binding_admitted binding_follows Versioned.register Versioned.history
    binding_ids binding_history server_history latest_binding latest_server latest_snapshot
    snapshots_for_server mcp_time descriptor_by_digest server_by_digest snapshot_by_digest
    governed_tool_id is_tool_name is_tool_char utc_timestamp require_text McpToolBinding.encode
    McpToolBinding.artifact_digest McpServerRegistration.encode
    McpServerRegistration.artifact_digest McpToolSnapshot.encode McpToolSnapshot.artifact_digest
    McpToolDescriptor.encode McpToolDescriptor.artifact_digest codes is_space is_blank len
    ends_with_z drop_last is_hex is_hex_64 clock first_text first_of_fields parity_digest canonical
    canonical_items canonical_fields insert_field text_le canonical_json digest_artifact
    raise_if_less raise_unless_less less is_aware
rebound-registered = refl

rebound-current :
    assert_binding_current (register_binding governed rebound).1 rebound ≡ ok descriptor
unfolding assert_binding_current register_binding binding_admitted binding_follows
    Versioned.register Versioned.history binding_ids binding_history server_history latest_binding
    latest_server latest_snapshot snapshots_for_server mcp_time descriptor_by_digest
    server_by_digest snapshot_by_digest governed_tool_id is_tool_name is_tool_char utc_timestamp
    require_text McpToolBinding.encode McpToolBinding.artifact_digest McpServerRegistration.encode
    McpServerRegistration.artifact_digest McpToolSnapshot.encode McpToolSnapshot.artifact_digest
    McpToolDescriptor.encode McpToolDescriptor.artifact_digest codes is_space is_blank len
    ends_with_z drop_last is_hex is_hex_64 clock first_text first_of_fields parity_digest canonical
    canonical_items canonical_fields insert_field text_le canonical_json digest_artifact
    raise_if_less raise_unless_less less is_aware
rebound-current = refl

register_binding-supersedes_example :
    (latest_binding (register_binding governed rebound).1 "bank" "binding" ≡ ok rebound)
    × (McpToolBinding.artifact_digest rebound ≡ McpToolBinding.artifact_digest rebound)
register_binding-supersedes_example =
    register_binding-supersedes governed governed-IsGoverned rebound rebound refl rebound-registered
      refl refl rebound-current

current_binding_for_tool-IsLive_example :
    IsLive governed "bank" "mcp:ledger:pay" binding
    × Agrees governed "bank" "mcp:ledger:pay"
        (binding_ids governed "bank")
        (McpToolBinding.artifact_digest binding)
current_binding_for_tool-IsLive_example =
    current_binding_for_tool-IsLive governed "bank" "mcp:ledger:pay" binding_for_tool

abbrev point : McpPolicyEnforcementPoint
point = record { agents = engine.agents; mcp = governed }

abbrev decided : AuthenticatedAuthorizationDecision
decided =
    authenticated_record request odd_digest
      (decision_record request approving now Decision.require_human_approval ("a" ∷ "b" ∷ []) []
        ("human_approval_required_by_policy" ∷ []))
      true now

abbrev awaiting : McpPolicyEnforcementOutcome
awaiting = record {
  request = request;
  result = authorized_result request even_digest (evidence_of binding descriptor) decided now;
  authorization = some decided;
}

enforced : enforce point request approving (signed_context context) trust now ≡ ok awaiting
unfolding enforce after_preconditions preconditions governed_binding current_binding_for_tool
    assert_binding_current current_tool_registry snapshot_digest ToolActionDescriptor.post_init
    ToolRegistry.post_init authenticated_engine evaluate_authenticated evaluate_verified
    identity_failure_reason verify_signed_authenticated_agent_identity authenticated_decision
    authenticated_record authorized_result enforcement_outcome McpPolicyEnforcementResult.post_init
    McpPolicyEnforcementResult.flags_consistent McpPolicyEnforcementOutcome.post_init
    McpPolicyEnforcementOutcome.authorization_consistent
    AuthenticatedAuthorizationDecision.post_init approval_gate_required
    SignedAuthenticatedAgentIdentity.encode SignedAuthenticatedAgentIdentity.artifact_digest
    AgentDescriptor.encode evaluate refusal agent_refusal tool_refusal AgentRegistry.get
    ToolRegistry.get PolicyRule.matches by_matched make_decision AuthorizationDecision.post_init
    AuthorizationDecision.flags_consistent AuthorizationDecision.encode
    AuthorizationDecision.decision_digest AuthenticatedAuthorizationDecision.encode
    AuthenticatedAuthorizationDecision.artifact_digest decision_record PolicyRule.encode
    PolicyBundle.encode PolicyBundle.artifact_digest AgentActionEnvelope.encode
    AgentActionEnvelope.artifact_digest verify_context_with_key raise_if_less raise_unless_less less
    is_aware within_context context_time parse_with authenticated_identity_signing_document
    AuthenticatedAgentIdentity.encode AuthenticatedAgentIdentity.artifact_digest signature_valid
    decode_b64url require_text require_texts utc_timestamp require_utc_timestamp require_digest
    require_digests require_optional_digest require_positive binding_ids binding_history
    server_history latest_binding latest_server latest_snapshot snapshots_for_server mcp_time
    descriptor_by_digest server_by_digest snapshot_by_digest governed_tool_id is_tool_name
    is_tool_char McpToolBinding.encode McpToolBinding.artifact_digest McpServerRegistration.encode
    McpServerRegistration.artifact_digest McpToolSnapshot.encode McpToolSnapshot.artifact_digest
    McpToolDescriptor.encode McpToolDescriptor.artifact_digest codes is_space is_blank len
    ends_with_z drop_last is_hex is_hex_64 clock first_text first_of_fields parity_digest canonical
    canonical_items canonical_fields insert_field text_le canonical_json digest_artifact
enforced = refl

enforce-IsEnforced_example :
    IsEnforced point request approving (signed_context context) trust now awaiting
enforce-IsEnforced_example =
    enforce-IsEnforced point request approving (signed_context context) trust now enforced
