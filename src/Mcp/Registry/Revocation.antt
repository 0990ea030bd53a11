-- ===== src/Mcp/Registry/Revocation.antt =====
-- What a new version of a server, or of a binding, does to the bindings that were current.
use reg_agent_ops.Base.Versioned
use reg_agent_ops.Mcp.McpServerRegistration
use reg_agent_ops.Mcp.McpToolBinding
use reg_agent_ops.Base.{
  Error, Result-cases, String, ap, arith, beq_self, err, inl, inr, last?, nat_eq, none, not, ok,
  ok-injective, refl, string_eq, sym, texts_eq, true, unit_result, ◌!=◌, ◌||◌, ◌∙◌, ◌≡◌,
}
use reg_agent_ops.Base.Versioned.Contiguity.{last?-register}
use reg_agent_ops.Mcp.McpServerRegistration.{McpServerRegistration}
use reg_agent_ops.Mcp.McpToolBinding.{McpToolBinding}
use reg_agent_ops.Mcp.McpToolDescriptor.{McpToolDescriptor}
use reg_agent_ops.Mcp.Registry.{
  McpGovernanceRegistry, binding_history, binding_scope, binding_version, latest_binding,
  latest_server, server_history, server_scope, server_version,
}
use reg_agent_ops.Mcp.Registry.Current.{assert_binding_current}
use reg_agent_ops.Mcp.Registry.Invariant.{IsGoverned}
use reg_agent_ops.Mcp.Registry.Live.{assert_binding_current-IsCurrent}
use reg_agent_ops.Mcp.Registry.Registering.{
  binding_admitted, binding_conflict, binding_follows, binding_gap, register_binding,
  register_server, server_conflict, server_gap, server_not_before,
}
use reg_agent_ops.Models.DataClassification.{data_classification_eq}
use reg_agent_ops.Models.Decision.{decision_eq}
use reg_agent_ops.Models.Environment.{environment_eq}
use reg_agent_ops.Models.RiskTier.{risk_tier_eq}
use reg_agent_ops.Models.Value.{Platform}

module _ ⦃p : Platform⦄ (r : McpGovernanceRegistry) (g : IsGoverned r) where
  latest_server-register :
      (server : McpServerRegistration) {d : String}
      → Versioned.find server_scope server_version r.servers
          (server_scope server)
          (server_version server)
        ≡ none
      → (register_server r server).0 ≡ ok d
      → latest_server (register_server r server).1 server.institution_id server.server_id
        ≡ ok server
  unfolding latest_server server_history register_server
  latest_server-register server new h =
      rw
        (last?-register server_scope server_version McpServerRegistration.artifact_digest
          server_conflict server_gap (λ past. server_not_before (last? past)) r.servers server
          g.servers_contiguous new h)
        refl

  latest_binding-register :
      (binding : McpToolBinding) {d : String}
      → Versioned.find binding_scope binding_version r.bindings
          (binding_scope binding)
          (binding_version binding)
        ≡ none
      → (register_binding r binding).0 ≡ ok d
      → latest_binding (register_binding r binding).1 binding.institution_id binding.binding_id
        ≡ ok binding
  unfolding latest_binding binding_history register_binding
  latest_binding-register binding new h = elim (unit_result (binding_admitted r binding)) [
    | inr (e, refused) ↦ absurd (ground arith)
    | inl admitted ↦
        rw (admitted, register_binding)
          (rw
            (last?-register binding_scope binding_version McpToolBinding.artifact_digest
              binding_conflict binding_gap binding_follows r.bindings binding g.bindings_contiguous
              new (rw (admitted, register_binding) at h))
            refl)
  ]

  -- In a governed registry, once the registration of a new server version has returned, no binding
  -- of that server that names another version is current, and none at all if the new version is not
  -- approved: the assertion that it is current raises.
  pub register_server-revokes :
      (server : McpServerRegistration) (binding : McpToolBinding) {d : String}
      → Versioned.find server_scope server_version r.servers
          (server_scope server)
          (server_version server)
        ≡ none
      → (register_server r server).0 ≡ ok d
      → binding.institution_id ≡ server.institution_id
      → binding.server_id ≡ server.server_id
      → (McpServerRegistration.artifact_digest server != binding.server_registration_digest
          || not server.approved)
        ≡ true
      → (e : Error) × (assert_binding_current (register_server r server).1 binding ≡ err e)
  register_server-revokes server binding new h institution id outdated =
      elim (Result-cases (assert_binding_current (register_server r server).1 binding)) [
        | inr raised ↦ raised
        | inl (descriptor, asserted) ↦
            let current =
              assert_binding_current-IsCurrent (register_server r server).1 binding asserted in
            let found = latest_server-register server new h in
            let own : current.server ≡ server = ok-injective (
              sym current.server_found
              ∙ ap (λ i. latest_server (register_server r server).1 i binding.server_id) institution
              ∙ ap (λ i. latest_server (register_server r server).1 server.institution_id i) id
              ∙ found) in
            let pinned =
              ap McpServerRegistration.artifact_digest (sym own) ∙ current.server_pinned in
            let approved = ap (λ s. s.approved) (sym own) ∙ current.server_approved in
            absurd (ground (arith, pinned, approved, beq_self binding.server_registration_digest))
      ]

  -- In a governed registry, once the registration of a new version of a binding has returned, that
  -- version is the latest with its id, and a binding with its institution and id of which the
  -- assertion that it is current still returns has its digest.
  pub register_binding-supersedes :
      (binding previous : McpToolBinding) {d : String} {descriptor : McpToolDescriptor}
      → Versioned.find binding_scope binding_version r.bindings
          (binding_scope binding)
          (binding_version binding)
        ≡ none
      → (register_binding r binding).0 ≡ ok d
      → previous.institution_id ≡ binding.institution_id
      → previous.binding_id ≡ binding.binding_id
      → assert_binding_current (register_binding r binding).1 previous ≡ ok descriptor
      → (latest_binding (register_binding r binding).1 binding.institution_id binding.binding_id
          ≡ ok binding)
        × (McpToolBinding.artifact_digest previous ≡ McpToolBinding.artifact_digest binding)
  register_binding-supersedes binding previous new h institution id asserted =
      let found = latest_binding-register binding new h in
      let current =
        assert_binding_current-IsCurrent (register_binding r binding).1 previous asserted in
      let own : current.last ≡ binding = ok-injective (
        sym current.is_last
        ∙ ap (λ i. latest_binding (register_binding r binding).1 i previous.binding_id) institution
        ∙ ap (λ i. latest_binding (register_binding r binding).1 binding.institution_id i) id
        ∙ found) in
      (found, sym current.same ∙ ap McpToolBinding.artifact_digest own)
