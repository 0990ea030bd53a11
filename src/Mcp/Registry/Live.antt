-- ===== src/Mcp/Registry/Live.antt =====
-- What it means that a binding is current, and that `current_binding_for_tool` finds such a one.
use reg_agent_ops.Mcp.McpServerRegistration
use reg_agent_ops.Mcp.McpToolBinding
use reg_agent_ops.Mcp.McpToolSnapshot
use reg_agent_ops.Base.{
  >>-eq-ok, >>=-eq-ok, All, All-none, Bool, List, Result-cases, String, [], ap, arith, beq_self,
  eq_of_bne, false, if◌then◌else◌, inl, inr, nat_eq, not, ok, ok-injective, raise_if, raise_if-ok,
  refl, string_eq, subst, sym, texts_eq, true, ◌!=◌, ◌||◌, ◌∙◌, ◌∷◌, ◌≡◌,
}
use reg_agent_ops.Base.Versioned.Contiguity.{last?-history}
use reg_agent_ops.Mcp.McpServerRegistration.{McpServerRegistration}
use reg_agent_ops.Mcp.McpToolBinding.{McpToolBinding}
use reg_agent_ops.Mcp.McpToolDescriptor.{McpToolDescriptor}
use reg_agent_ops.Mcp.McpToolSnapshot.{McpToolSnapshot}
use reg_agent_ops.Mcp.Registry.{
  McpGovernanceRegistry, binding_history, binding_ids, binding_scope, binding_version,
  descriptor_by_digest, governed_tool_id, latest_binding, latest_server, latest_snapshot,
}
use reg_agent_ops.Mcp.Registry.Current.{
  assert_binding_current, current_binding_for_tool, current_candidates, is_candidate, only_binding,
}
use reg_agent_ops.Models.DataClassification.{data_classification_eq}
use reg_agent_ops.Models.Decision.{decision_eq}
use reg_agent_ops.Models.Environment.{environment_eq}
use reg_agent_ops.Models.RiskTier.{risk_tier_eq}
use reg_agent_ops.Models.Value.{Platform}

module _ ⦃p : Platform⦄ (r : McpGovernanceRegistry) where
  -- Everything that a binding refers to is the latest of its kind.
  pub record IsCurrent (binding : McpToolBinding) (descriptor : McpToolDescriptor) : Type 0 where
    pub last : McpToolBinding
    pub is_last : latest_binding r binding.institution_id binding.binding_id ≡ ok last
    pub same : McpToolBinding.artifact_digest last ≡ McpToolBinding.artifact_digest binding
    pub server : McpServerRegistration
    pub server_found : latest_server r binding.institution_id binding.server_id ≡ ok server
    pub server_approved : server.approved ≡ true
    pub server_pinned :
        McpServerRegistration.artifact_digest server ≡ binding.server_registration_digest
    pub snapshot : McpToolSnapshot
    pub snapshot_found : latest_snapshot r binding.institution_id binding.server_id ≡ ok snapshot
    pub snapshot_pinned : McpToolSnapshot.artifact_digest snapshot ≡ binding.tool_snapshot_digest
    pub described : descriptor_by_digest snapshot binding.tool_descriptor_digest ≡ ok descriptor
    pub named : governed_tool_id binding.server_id descriptor.name ≡ ok binding.governed_tool_id

  pub assert_binding_current-IsCurrent :
      (binding : McpToolBinding) {descriptor : McpToolDescriptor}
      → assert_binding_current r binding ≡ ok descriptor
      → IsCurrent binding descriptor
  unfolding assert_binding_current
  assert_binding_current-IsCurrent binding {descriptor = result} h =
      let (last, is_last, h₁) =
        >>=-eq-ok (latest_binding r binding.institution_id binding.binding_id) _ h in
      let (same, h₂) =
        >>-eq-ok
          (raise_if (McpToolBinding.artifact_digest last != McpToolBinding.artifact_digest binding)
            _)
          _ h₁ in
      let (server, server_found, h₃) =
        >>=-eq-ok (latest_server r binding.institution_id binding.server_id) _ h₂ in
      let (server_checked, h₄) =
        >>-eq-ok
          (raise_if
            (McpServerRegistration.artifact_digest server != binding.server_registration_digest
              || not server.approved)
            _)
          _ h₃ in
      let (snapshot, snapshot_found, h₅) =
        >>=-eq-ok (latest_snapshot r binding.institution_id binding.server_id) _ h₄ in
      let (snapshot_checked, h₆) =
        >>-eq-ok
          (raise_if (McpToolSnapshot.artifact_digest snapshot != binding.tool_snapshot_digest) _) _
          h₅ in
      let (descriptor, described, h₇) =
        >>=-eq-ok (descriptor_by_digest snapshot binding.tool_descriptor_digest) _ h₆ in
      let (expected, named, h₈) =
        >>=-eq-ok (governed_tool_id binding.server_id descriptor.name) _ h₇ in
      let (same_id, h₉) = >>-eq-ok (raise_if (binding.governed_tool_id != expected) _) _ h₈ in
      let own = ok-injective h₉ in
      record {
        last = last;
        is_last = is_last;
        same =
            eq_of_bne (McpToolBinding.artifact_digest last) (McpToolBinding.artifact_digest binding)
              (raise_if-ok _ _ same);
        server = server;
        server_found = server_found;
        server_approved = ground arith;
        server_pinned =
            eq_of_bne (McpServerRegistration.artifact_digest server)
              binding.server_registration_digest (ground arith);
        snapshot = snapshot;
        snapshot_found = snapshot_found;
        snapshot_pinned =
            eq_of_bne (McpToolSnapshot.artifact_digest snapshot) binding.tool_snapshot_digest
              (raise_if-ok _ _ snapshot_checked);
        described = described ∙ ap ok own;
        named =
            ap (λ d. governed_tool_id binding.server_id d.name) (sym own)
            ∙ named
            ∙ ap ok (sym (eq_of_bne binding.governed_tool_id expected (raise_if-ok _ _ same_id)));
      }

  latest_binding-scope :
      (institution_id id : String) {binding : McpToolBinding}
      → latest_binding r institution_id id ≡ ok binding
      → binding_scope binding ≡ institution_id ∷ id ∷ []
  unfolding latest_binding binding_history
  latest_binding-scope institution_id id {binding = binding} h =
      last?-history binding_scope binding_version r.bindings (institution_id ∷ id ∷ [])
        {item = binding} (ground arith)

  module _ (institution_id tool_id : String) where
    -- A binding of the institution that is the latest with its id, governs the tool and is current.
    pub record IsLive (binding : McpToolBinding) : Type 0 where
      pub institution : binding.institution_id ≡ institution_id
      pub governs : binding.governed_tool_id ≡ tool_id
      pub is_latest : latest_binding r institution_id binding.binding_id ≡ ok binding
      pub descriptor : McpToolDescriptor
      pub asserted : assert_binding_current r binding ≡ ok descriptor
      pub current : IsCurrent binding descriptor

    is_candidate-true :
        (binding : McpToolBinding)
        → is_candidate r tool_id binding ≡ ok true
        → (binding.governed_tool_id ≡ tool_id)
          × ((descriptor : McpToolDescriptor) × (assert_binding_current r binding ≡ ok descriptor))
    is_candidate-true binding h = elim (Result-cases (assert_binding_current r binding)) [
      | inl found ↦ (eq_of_bne binding.governed_tool_id tool_id (ground arith), found)
      | inr (e, raised) ↦ absurd (ground arith)
    ]

    is_candidate-live :
        (binding : McpToolBinding) {descriptor : McpToolDescriptor}
        → binding.governed_tool_id ≡ tool_id
        → assert_binding_current r binding ≡ ok descriptor
        → is_candidate r tool_id binding ≡ ok true
    is_candidate-live binding governs asserted = ground (arith, governs, asserted, beq_self tool_id)

    latest-IsLive :
        (id : String) (binding : McpToolBinding)
        → latest_binding r institution_id id ≡ ok binding
        → is_candidate r tool_id binding ≡ ok true
        → IsLive binding
    latest-IsLive id binding h taken =
        let scope = latest_binding-scope institution_id id h in
        let (governs, (descriptor, asserted)) = is_candidate-true binding taken in
        record {
          institution = cc scope;
          governs = governs;
          is_latest = ap (λ b. latest_binding r institution_id b) (cc scope) ∙ h;
          descriptor = descriptor;
          asserted = asserted;
          current = assert_binding_current-IsCurrent binding asserted;
        }

    -- The live bindings with the ids all agree with one digest.
    abbrev pub Agrees : List String → String → Type 0
    Agrees ids digest =
        All
          (λ id.
            (c : McpToolBinding)
            → latest_binding r institution_id id ≡ ok c
            → IsLive c
            → McpToolBinding.artifact_digest c ≡ digest)
          ids

    -- the loop takes live bindings alone, and every one of them
    current_candidates-IsLive :
        (ids : List String) (digest : String) {found : List McpToolBinding}
        → current_candidates r institution_id tool_id ids ≡ ok found
        → All IsLive found
          × (All (λ b. McpToolBinding.artifact_digest b ≡ digest) found → Agrees ids digest)
    current_candidates-IsLive [] digest h = (subst (All IsLive) (ok-injective h) tt, λ a. tt)
    current_candidates-IsLive (id ∷ ids) digest h =
        let (binding, is_latest, h₁) = >>=-eq-ok (latest_binding r institution_id id) _ h in
        let (taken, checked, h₂) = >>=-eq-ok (is_candidate r tool_id binding) _ h₁ in
        let (others, rest, h₃) = >>=-eq-ok (current_candidates r institution_id tool_id ids) _ h₂ in
        let (live, agree) = current_candidates-IsLive ids digest rest in
        go taken binding others is_latest checked (ok-injective h₃) live agree
      where
        go :
            (taken : Bool) (binding : McpToolBinding) (others : List McpToolBinding)
            {found : List McpToolBinding}
            → latest_binding r institution_id id ≡ ok binding
            → is_candidate r tool_id binding ≡ ok taken
            → (if taken then binding ∷ others else others) ≡ found
            → All IsLive others
            → (All (λ b. McpToolBinding.artifact_digest b ≡ digest) others → Agrees ids digest)
            → All IsLive found
              × (All (λ b. McpToolBinding.artifact_digest b ≡ digest) found
                  → Agrees (id ∷ ids) digest)
        go true binding others is_latest checked made live agree = (
          subst (All IsLive) made (latest-IsLive id binding is_latest checked, live),
          λ a.
              let a' = subst (All (λ b. McpToolBinding.artifact_digest b ≡ digest)) (sym made) a in
              (
                λ c own own_live.
                    ap McpToolBinding.artifact_digest (ok-injective (sym own ∙ is_latest)) ∙ a'.0,
                agree a'.1,
              ),
        )
        go false binding others is_latest checked made live agree = (
          subst (All IsLive) made live,
          λ a. (
            λ c own own_live. cc (
              ap (is_candidate r tool_id) (ok-injective (sym own ∙ is_latest)),
              checked,
              is_candidate-live c own_live.governs own_live.asserted,
            ),
            agree (subst (All (λ b. McpToolBinding.artifact_digest b ≡ digest)) (sym made) a),
          ),
        )

    only_binding-agrees :
        (found : List McpToolBinding) {binding : McpToolBinding}
        → only_binding found ≡ ok binding
        → All IsLive found
        → IsLive binding
          × All
              (λ b. McpToolBinding.artifact_digest b ≡ McpToolBinding.artifact_digest binding)
              found
    only_binding-agrees [] h live = cc
    only_binding-agrees (b ∷ rest) h live =
        let (no_other, h₁) = >>-eq-ok (raise_if _ _) _ h in
        subst
          (λ c.
            IsLive c
            × All (λ b. McpToolBinding.artifact_digest b ≡ McpToolBinding.artifact_digest c)
                (b ∷ rest))
          (ok-injective h₁)
          (
            live.0,
            (
              refl,
              All-none (λ c. McpToolBinding.artifact_digest c != McpToolBinding.artifact_digest b)
                  rest (raise_if-ok _ _ no_other)
                  (λ c.
                    eq_of_bne (McpToolBinding.artifact_digest c)
                      (McpToolBinding.artifact_digest b)),
            ),
          )

    -- The binding that `current_binding_for_tool` returns is live: it is the institution's latest
    -- binding with its id, it governs the tool, and its server, snapshot and descriptor are the
    -- latest, on an approved server. And it is the only one: whatever latest binding of the
    -- institution is live for the tool has its digest.
    pub current_binding_for_tool-IsLive :
        {binding : McpToolBinding}
        → current_binding_for_tool r institution_id tool_id ≡ ok binding
        → IsLive binding
          × Agrees (binding_ids r institution_id) (McpToolBinding.artifact_digest binding)
    unfolding current_binding_for_tool
    current_binding_for_tool-IsLive {binding = binding} h =
        let (found, collected, h₁) =
          >>=-eq-ok (current_candidates r institution_id tool_id (binding_ids r institution_id)) _
            h in
        let (live, agree) =
          current_candidates-IsLive (binding_ids r institution_id)
            (McpToolBinding.artifact_digest binding) collected in
        let (own, others) = only_binding-agrees found h₁ live in (own, agree others)
