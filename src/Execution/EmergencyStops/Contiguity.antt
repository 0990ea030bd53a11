-- ===== src/Execution/EmergencyStops/Contiguity.antt =====
-- The versions of an institution's emergency-stop states are 1, 2, 3, … with no gap, and the
-- history only grows at its end.
use reg_agent_ops.Base.Versioned
use reg_agent_ops.Execution.EmergencyStopState
use reg_agent_ops.Base.{List, String, ap, inl, inr, last?, none, ok, refl, ◌≡◌, ◌⊎◌}
use reg_agent_ops.Base.Versioned.Contiguity.{
  last?-register, registered-Extends, registered-IsContiguous,
}
use reg_agent_ops.Execution.EmergencyStopState.{EmergencyStopState}
use reg_agent_ops.Execution.EmergencyStops.{
  EmergencyStopRegistry, conflict, current, find_state, gap, history, not_before, register, scope,
  version,
}
use reg_agent_ops.Models.Value.{Platform}

-- Every institution's states stand in the order of their versions, which start at 1.
abbrev pub IsContiguous : EmergencyStopRegistry → Type 0
IsContiguous r = Versioned.IsContiguous scope version r.states

-- What a registration has done to the history of the state's institution, and to no other.
abbrev pub Extends : EmergencyStopRegistry → EmergencyStopRegistry → EmergencyStopState → Type 0
Extends r r' state = Versioned.Extends scope version r.states r'.states state

module _ ⦃p : Platform⦄ where
  module _ (r : EmergencyStopRegistry) (state : EmergencyStopState) (c : IsContiguous r) where
    -- On a registry whose versions are contiguous from 1 in every institution, a registration keeps
    -- them so, whether it returns or raises.
    pub register-IsContiguous : IsContiguous (register r state).1
    unfolding register
    register-IsContiguous =
        registered-IsContiguous scope version EmergencyStopState.artifact_digest conflict gap
          (λ past. not_before (last? past)) r.states state c

    -- On a registry with contiguous versions, a registration changes nothing, or appends the state,
    -- with the next version, to the history of its institution and leaves the others alone.
    pub register-Extends : ((register r state).1 ≡ r) ⊎ Extends r (register r state).1 state
    unfolding register
    register-Extends =
        elim (registered-Extends scope version EmergencyStopState.artifact_digest conflict gap
          (λ past. not_before (last? past)) r.states state c) [
            | inl same ↦
                let grown : List EmergencyStopState → EmergencyStopRegistry =
                  λ s. record { states = s } in
                inl (ap grown same)
            | inr extends ↦ inr extends
          ]

  -- On a registry with contiguous versions, once the registration of a state whose version was not
  -- there has returned, that state is the current one of its institution.
  pub current-register :
      (r : EmergencyStopRegistry) (state : EmergencyStopState) {digest : String}
      → IsContiguous r
      → find_state r.states state.institution_id state.state_version ≡ none
      → (register r state).0 ≡ ok digest
      → current (register r state).1 state.institution_id ≡ ok state
  unfolding current register history
  current-register r state c new h =
      rw
        (last?-register scope version EmergencyStopState.artifact_digest conflict gap
          (λ past. not_before (last? past)) r.states state c new h)
        refl
