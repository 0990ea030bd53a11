-- ===== src/Mcp/Registry/Invariant.antt =====
-- What every sequence of registrations keeps: contiguous versions, one snapshot for an id, and
-- references that point at entries of the registry.
use reg_agent_ops.Base.Versioned
use reg_agent_ops.Mcp.McpServerRegistration
use reg_agent_ops.Mcp.McpToolBinding
use reg_agent_ops.Mcp.McpToolSnapshot
use reg_agent_ops.Base.{
  >>-eq-ok, >>=-eq-ok, All, All-map, All-snoc, Bool, Bool-cases, List, Option-cases, String, [],
  any, any-append, any-find_first, arith, beq_comm, contains, false, find_first, inl, inr, last?,
  map, nat_eq, none, not, ok, raise_if, refl, string_eq, texts_eq, true, unique, unique-map-snoc,
  unit_result, ◌!=◌, ◌&&◌, ◌++◌, ◌==◌, ◌||◌, ◌∷◌, ◌≡◌,
}
use reg_agent_ops.Base.Versioned.Contiguity.{register-cases, registered-IsContiguous}
use reg_agent_ops.Mcp.McpServerRegistration.{McpServerRegistration}
use reg_agent_ops.Mcp.McpToolBinding.{McpToolBinding}
use reg_agent_ops.Mcp.McpToolSnapshot.{McpToolSnapshot}
use reg_agent_ops.Mcp.Registry.{
  McpGovernanceRegistry, binding_scope, binding_version, find_snapshot, latest_server,
  server_by_digest, server_scope, server_version, snapshot_by_digest,
}
use reg_agent_ops.Mcp.Registry.Registering.{
  binding_admitted, binding_conflict, binding_follows, binding_gap, register_binding,
  register_server, register_snapshot, server_conflict, server_gap, server_not_before,
  snapshot_admitted,
}
use reg_agent_ops.Models.DataClassification.{data_classification_eq}
use reg_agent_ops.Models.Decision.{decision_eq}
use reg_agent_ops.Models.Environment.{environment_eq}
use reg_agent_ops.Models.RiskTier.{risk_tier_eq}
use reg_agent_ops.Models.Value.{Platform}

-- One call of an operation that adds to the registry.
pub data Operation : Type 0 where
  add_server : McpServerRegistration → Operation
  add_snapshot : McpToolSnapshot → Operation
  add_binding : McpToolBinding → Operation

abbrev pub snapshot_key : McpToolSnapshot → List String
snapshot_key snapshot = snapshot.institution_id ∷ snapshot.snapshot_id ∷ []

find_snapshot-none :
    (snapshots : List McpToolSnapshot) (snapshot : McpToolSnapshot)
    → find_snapshot snapshots snapshot.institution_id snapshot.snapshot_id ≡ none
    → contains (map snapshot_key snapshots) (snapshot_key snapshot) ≡ false
find_snapshot-none [] snapshot h = refl
find_snapshot-none (s ∷ rest) snapshot h = ground (
  arith,
  find_snapshot-none rest snapshot,
  beq_comm s.institution_id snapshot.institution_id,
  beq_comm s.snapshot_id snapshot.snapshot_id,
)

module _ ⦃p : Platform⦄ where
  -- the registry after the call, which an exception leaves as it is
  abbrev pub apply : McpGovernanceRegistry → Operation → McpGovernanceRegistry
  apply r (add_server server) = (register_server r server).1
  apply r (add_snapshot snapshot) = (register_snapshot r snapshot).1
  apply r (add_binding binding) = (register_binding r binding).1

  abbrev pub apply_all : McpGovernanceRegistry → List Operation → McpGovernanceRegistry
  apply_all r [] = r
  apply_all r (o ∷ rest) = apply_all (apply r o) rest

  -- The digest names a server registration, or a snapshot, of the institution.
  abbrev pub has_server : List McpServerRegistration → String → String → Bool
  has_server servers institution_id digest =
      any
        (λ s.
          s.institution_id == institution_id && McpServerRegistration.artifact_digest s == digest)
        servers

  abbrev pub has_snapshot : List McpToolSnapshot → String → String → Bool
  has_snapshot snapshots institution_id digest =
      any (λ s. s.institution_id == institution_id && McpToolSnapshot.artifact_digest s == digest)
        snapshots

  pub record IsGoverned (r : McpGovernanceRegistry) : Type 0 where
    pub servers_contiguous : Versioned.IsContiguous server_scope server_version r.servers
    pub bindings_contiguous : Versioned.IsContiguous binding_scope binding_version r.bindings
    pub snapshots_unique : unique (map snapshot_key r.snapshots) ≡ true
    pub snapshots_pinned :
        All
          (λ s. has_server r.servers s.institution_id s.server_registration_digest ≡ true)
          r.snapshots
    pub bindings_pinned :
        All
          (λ b.
            (has_server r.servers b.institution_id b.server_registration_digest ≡ true)
            × (has_snapshot r.snapshots b.institution_id b.tool_snapshot_digest ≡ true))
          r.bindings

  -- references survive what is added
  has_server-append :
      (servers : List McpServerRegistration) (server : McpServerRegistration)
      (institution_id digest : String)
      → has_server servers institution_id digest ≡ true
      → has_server (servers ++ server ∷ []) institution_id digest ≡ true
  has_server-append servers server institution_id digest h = ground (
    arith,
    any-append
        (λ s.
          s.institution_id == institution_id && McpServerRegistration.artifact_digest s == digest)
        servers (server ∷ []),
  )

  has_snapshot-append :
      (snapshots : List McpToolSnapshot) (snapshot : McpToolSnapshot)
      (institution_id digest : String)
      → has_snapshot snapshots institution_id digest ≡ true
      → has_snapshot (snapshots ++ snapshot ∷ []) institution_id digest ≡ true
  has_snapshot-append snapshots snapshot institution_id digest h = ground (
    arith,
    any-append
        (λ s. s.institution_id == institution_id && McpToolSnapshot.artifact_digest s == digest)
        snapshots (snapshot ∷ []),
  )

  server_by_digest-has_server :
      (r : McpGovernanceRegistry) (institution_id digest : String) {s : McpServerRegistration}
      → server_by_digest r institution_id digest ≡ ok s
      → has_server r.servers institution_id digest ≡ true
  unfolding server_by_digest
  server_by_digest-has_server r institution_id digest h =
      elim (Option-cases (
        find_first
          (λ s.
            s.institution_id == institution_id && McpServerRegistration.artifact_digest s == digest)
          r.servers)) [
            | inl missing ↦ cc (rw missing at h)
            | inr (s, found) ↦ any-find_first _ r.servers found
          ]

  snapshot_by_digest-has_snapshot :
      (r : McpGovernanceRegistry) (institution_id digest : String) {s : McpToolSnapshot}
      → snapshot_by_digest r institution_id digest ≡ ok s
      → has_snapshot r.snapshots institution_id digest ≡ true
  unfolding snapshot_by_digest
  snapshot_by_digest-has_snapshot r institution_id digest h =
      elim (Option-cases (
        find_first
          (λ s. s.institution_id == institution_id && McpToolSnapshot.artifact_digest s == digest)
          r.snapshots)) [
            | inl missing ↦ cc (rw missing at h)
            | inr (s, found) ↦ any-find_first _ r.snapshots found
          ]

  snapshot_admitted-pinned :
      (r : McpGovernanceRegistry) (snapshot : McpToolSnapshot)
      → snapshot_admitted r snapshot ≡ ok tt
      → has_server r.servers snapshot.institution_id snapshot.server_registration_digest ≡ true
  unfolding snapshot_admitted
  snapshot_admitted-pinned r snapshot h =
      let (server, found, _) =
        >>=-eq-ok (server_by_digest r snapshot.institution_id snapshot.server_registration_digest) _
          h in
      server_by_digest-has_server r snapshot.institution_id snapshot.server_registration_digest
        found

  binding_admitted-pinned :
      (r : McpGovernanceRegistry) (binding : McpToolBinding)
      → binding_admitted r binding ≡ ok tt
      → (has_server r.servers binding.institution_id binding.server_registration_digest ≡ true)
        × (has_snapshot r.snapshots binding.institution_id binding.tool_snapshot_digest ≡ true)
  unfolding binding_admitted
  binding_admitted-pinned r binding h =
      let (server, found, h₁) =
        >>=-eq-ok (server_by_digest r binding.institution_id binding.server_registration_digest) _
          h in
      let (latest, _, h₂) =
        >>=-eq-ok (latest_server r binding.institution_id binding.server_id) _ h₁ in
      let (_, h₃) =
        >>-eq-ok
          (raise_if
            (McpServerRegistration.artifact_digest server
                != McpServerRegistration.artifact_digest latest
              || not latest.approved)
            _)
          _ h₂ in
      let (snapshot, seen, _) =
        >>=-eq-ok (snapshot_by_digest r binding.institution_id binding.tool_snapshot_digest) _ h₃ in
      (
        server_by_digest-has_server r binding.institution_id binding.server_registration_digest
            found,
        snapshot_by_digest-has_snapshot r binding.institution_id binding.tool_snapshot_digest seen,
      )

  module _ (r : McpGovernanceRegistry) (g : IsGoverned r) where
    register_server-IsGoverned :
        (server : McpServerRegistration) → IsGoverned (register_server r server).1
    unfolding register_server
    register_server-IsGoverned server =
        let kept =
          registered-IsContiguous server_scope server_version McpServerRegistration.artifact_digest
            server_conflict server_gap (λ past. server_not_before (last? past)) r.servers server
            g.servers_contiguous in
        elim (register-cases server_scope server_version McpServerRegistration.artifact_digest
          server_conflict server_gap (λ past. server_not_before (last? past)) r.servers server) [
            | inl same ↦ record {
              servers_contiguous = kept;
              bindings_contiguous = g.bindings_contiguous;
              snapshots_unique = g.snapshots_unique;
              snapshots_pinned = rw same g.snapshots_pinned;
              bindings_pinned = rw same g.bindings_pinned;
            }
            | inr (grown, _, _) ↦ record {
              servers_contiguous = kept;
              bindings_contiguous = g.bindings_contiguous;
              snapshots_unique = g.snapshots_unique;
              snapshots_pinned = rw grown (
                  All-map
                    (λ s h.
                      has_server-append r.servers server s.institution_id
                        s.server_registration_digest h)
                    r.snapshots g.snapshots_pinned);
              bindings_pinned = rw grown (
                  All-map
                    (λ b h. (
                      has_server-append r.servers server b.institution_id
                          b.server_registration_digest h.0,
                      h.1,
                    ))
                    r.bindings g.bindings_pinned);
            }
          ]

    register_snapshot-IsGoverned :
        (snapshot : McpToolSnapshot) → IsGoverned (register_snapshot r snapshot).1
    unfolding register_snapshot
    register_snapshot-IsGoverned snapshot = elim (unit_result (snapshot_admitted r snapshot)) [
      | inr (e, refused) ↦ rw (refused, register_snapshot) g
      | inl admitted ↦
          elim (Option-cases
            (find_snapshot r.snapshots snapshot.institution_id snapshot.snapshot_id)) [
              | inr (existing, found) ↦
                  elim (Bool-cases (
                    McpToolSnapshot.artifact_digest existing
                    != McpToolSnapshot.artifact_digest snapshot)) [
                      | inl differs ↦
                          rw (admitted, register_snapshot)
                            (rw (found, register_snapshot) (rw (differs, register_snapshot) g))
                      | inr same ↦
                          rw (admitted, register_snapshot)
                            (rw (found, register_snapshot) (rw (same, register_snapshot) g))
                    ]
              | inl new ↦
                  rw (admitted, register_snapshot)
                    (rw (new, register_snapshot)
                      (record {
                        servers_contiguous = g.servers_contiguous;
                        bindings_contiguous = g.bindings_contiguous;
                        snapshots_unique =
                            unique-map-snoc snapshot_key r.snapshots snapshot g.snapshots_unique
                              (find_snapshot-none r.snapshots snapshot new);
                        snapshots_pinned =
                            All-snoc _ r.snapshots snapshot g.snapshots_pinned
                              (snapshot_admitted-pinned r snapshot admitted);
                        bindings_pinned =
                            All-map
                              (λ b h. (
                                h.0,
                                has_snapshot-append r.snapshots snapshot b.institution_id
                                    b.tool_snapshot_digest h.1,
                              ))
                              r.bindings g.bindings_pinned;
                      }))
            ]
    ]

    register_binding-IsGoverned :
        (binding : McpToolBinding) → IsGoverned (register_binding r binding).1
    unfolding register_binding
    register_binding-IsGoverned binding = elim (unit_result (binding_admitted r binding)) [
      | inr (e, refused) ↦ rw (refused, register_binding) g
      | inl admitted ↦
          let kept =
            registered-IsContiguous binding_scope binding_version McpToolBinding.artifact_digest
              binding_conflict binding_gap binding_follows r.bindings binding
              g.bindings_contiguous in
          rw (admitted, register_binding)
            (record {
              servers_contiguous = g.servers_contiguous;
              bindings_contiguous = kept;
              snapshots_unique = g.snapshots_unique;
              snapshots_pinned = g.snapshots_pinned;
              bindings_pinned =
                  elim (register-cases binding_scope binding_version McpToolBinding.artifact_digest
                    binding_conflict binding_gap binding_follows r.bindings binding) [
                      | inl same ↦ rw same g.bindings_pinned
                      | inr (grown, _, _) ↦ rw grown (
                          All-snoc _ r.bindings binding g.bindings_pinned
                            (binding_admitted-pinned r binding admitted))
                    ];
            })
    ]

  apply-IsGoverned :
      (r : McpGovernanceRegistry) (o : Operation) → IsGoverned r → IsGoverned (apply r o)
  apply-IsGoverned r (add_server server) g = register_server-IsGoverned r g server
  apply-IsGoverned r (add_snapshot snapshot) g = register_snapshot-IsGoverned r g snapshot
  apply-IsGoverned r (add_binding binding) g = register_binding-IsGoverned r g binding

  -- From a governed registry, such as the empty one, every sequence of registrations, accepted or
  -- refused, leads to a governed registry: the versions of every server and of every binding are
  -- contiguous from 1, no institution has two snapshots with one id, and each snapshot and binding
  -- names a server registration and a snapshot of its own institution that the registry holds.
  pub apply_all-IsGoverned :
      (r : McpGovernanceRegistry) (operations : List Operation)
      → IsGoverned r
      → IsGoverned (apply_all r operations)
  apply_all-IsGoverned r [] g = g
  apply_all-IsGoverned r (o ∷ rest) g =
      apply_all-IsGoverned (apply r o) rest (apply-IsGoverned r o g)
