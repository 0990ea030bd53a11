-- ===== src/Execution/EmergencyStops.antt =====
-- execution.py, `EmergencyStopRegistry`: the states of every institution, in the order of their
-- registration.
pub mod Contiguity
use reg_agent_ops.Base.Versioned
use reg_agent_ops.Execution.EmergencyStopState
use reg_agent_ops.Base.{
  Error, List, Option, Result, String, [], decimal, last?, none, ok, some, value_error, ℕ, ◌+++◌,
  ◌>>=◌, ◌>>◌, ◌∷◌,
}
use reg_agent_ops.Execution.EmergencyStopState.{EmergencyStopState}
use reg_agent_ops.Keys.Registry.{state_version}
use reg_agent_ops.Models.Checks.{or_raise, raise_if_less, utc_timestamp}
use reg_agent_ops.Models.Value.{Platform}

pub record EmergencyStopRegistry : Type 0 where
  pub states : List EmergencyStopState

-- the two parts of the dictionary's key
abbrev pub scope : EmergencyStopState → List String
scope state = state.institution_id ∷ []

abbrev pub version : EmergencyStopState → ℕ
version state = state.state_version

-- `history`
unfoldable pub history : EmergencyStopRegistry → String → List EmergencyStopState
unfolding Versioned.history
history r institution_id = Versioned.history scope version r.states (institution_id ∷ [])

-- `self._states.get((institution_id, state_version))`
abbrev pub find_state : List EmergencyStopState → String → ℕ → Option EmergencyStopState
find_state states institution_id state_version =
    Versioned.find scope version states (institution_id ∷ []) state_version

module _ ⦃p : Platform⦄ where
  -- a new state may not predate the last one
  unfoldable pub not_before : Option EmergencyStopState → EmergencyStopState → Result (Unit {0})
  not_before none state = ok tt
  not_before (some previous) state = do
    at ← utc_timestamp "effective_at" state.effective_at
    previous_at ← utc_timestamp "previous effective_at" previous.effective_at
    raise_if_less state.effective_at previous.effective_at at previous_at
        (value_error "new emergency-stop state cannot predate the previous version")

  abbrev pub conflict : Error
  conflict = value_error "emergency-stop version already exists with different content"

  abbrev pub gap : ℕ → Error
  gap expected =
      value_error
        ("emergency-stop state_version must be contiguous; expected version " +++ decimal expected)

  unfoldable pub register :
      EmergencyStopRegistry → EmergencyStopState → Result String × EmergencyStopRegistry
  unfolding Versioned.register Versioned.history
  register r state =
      let (digest, states) =
        Versioned.register scope version EmergencyStopState.artifact_digest conflict gap
          (λ past. not_before (last? past)) r.states state in
      (digest, record { states = states })

  unfoldable pub current : EmergencyStopRegistry → String → Result EmergencyStopState
  current r institution_id =
      or_raise (last? (history r institution_id))
        (value_error "emergency-stop state is not registered")
