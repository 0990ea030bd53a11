-- ===== src/Keys/Registry.antt =====
-- hardening.py, `InstitutionCryptoKeyRegistry`: the key references and the states of their life
-- cycles, each in the order of insertion.
pub mod Status
pub mod Lifecycle
pub mod Final
pub mod Disabled
use reg_agent_ops.Base.Versioned
use reg_agent_ops.Keys.CryptoKeyLifecycleState
use reg_agent_ops.Keys.CryptoKeyPurpose
use reg_agent_ops.Keys.InstitutionCryptoKeyReference
use reg_agent_ops.Base.{
  List, Result, String, [], any, contains, decimal, eqb, err, find_first, if◌then◌else◌,
  index_error, last?, nat_eq, none, not, ok, raise_if, some, string_eq, texts_eq, value_error, ℕ,
  ◌!=◌, ◌&&◌, ◌+++◌, ◌++◌, ◌+◌, ◌==◌, ◌>>=◌, ◌>>◌, ◌∷◌,
}
use reg_agent_ops.Keys.CryptoAlgorithm.{crypto_algorithm_eq}
use reg_agent_ops.Keys.CryptoKeyCustody.{crypto_key_custody_eq}
use reg_agent_ops.Keys.CryptoKeyLifecycleState.{CryptoKeyLifecycleState}
use reg_agent_ops.Keys.CryptoKeyPurpose.{CryptoKeyPurpose, crypto_key_purpose_eq}
use reg_agent_ops.Keys.CryptoKeyStatus.{CryptoKeyStatus, crypto_key_status_eq}
use reg_agent_ops.Keys.InstitutionCryptoKeyReference.{InstitutionCryptoKeyReference, key_time}
use reg_agent_ops.Models.Checks.{or_raise, raise_if_less}
use reg_agent_ops.Models.DataClassification.{data_classification_eq}
use reg_agent_ops.Models.Decision.{decision_eq}
use reg_agent_ops.Models.Environment.{environment_eq}
use reg_agent_ops.Models.RiskTier.{risk_tier_eq}
use reg_agent_ops.Models.Value.{Platform}

pub record InstitutionCryptoKeyRegistry : Type 0 where
  pub keys : List InstitutionCryptoKeyReference
  pub states : List CryptoKeyLifecycleState

-- the dictionaries' keys, without the version
abbrev pub key_scope : InstitutionCryptoKeyReference → List String
key_scope key = key.institution_id ∷ key.tenant_id ∷ CryptoKeyPurpose.value key.purpose ∷ []

abbrev pub key_version : InstitutionCryptoKeyReference → ℕ
key_version key = key.key_version

abbrev pub state_scope : CryptoKeyLifecycleState → List String
state_scope state = state.institution_id ∷ state.tenant_id ∷ state.key_reference_digest ∷ []

abbrev pub state_version : CryptoKeyLifecycleState → ℕ
state_version state = state.state_version

-- `_ALLOWED_KEY_TRANSITIONS`
unfoldable pub allowed_transitions : CryptoKeyStatus → List CryptoKeyStatus
allowed_transitions CryptoKeyStatus.active = CryptoKeyStatus.retired ∷ CryptoKeyStatus.disabled ∷ []
allowed_transitions CryptoKeyStatus.retired = CryptoKeyStatus.disabled ∷ []
allowed_transitions CryptoKeyStatus.disabled = []

-- `self._states[...] = state`
unfoldable pub put_state :
    List CryptoKeyLifecycleState → CryptoKeyLifecycleState → List CryptoKeyLifecycleState
put_state [] state = state ∷ []
put_state (s ∷ states) state =
    let rest = put_state states state in
    if state_scope s == state_scope state && eqb (state_version s) (state_version state)
    then state ∷ states
    else s ∷ rest

-- `history`
unfoldable pub key_history :
    InstitutionCryptoKeyRegistry
    → String
    → String
    → CryptoKeyPurpose
    → List InstitutionCryptoKeyReference
unfolding Versioned.history
key_history r institution_id tenant_id purpose =
    Versioned.history key_scope key_version r.keys
      (institution_id ∷ tenant_id ∷ CryptoKeyPurpose.value purpose ∷ [])

module _ ⦃p : Platform⦄ where
  -- the checks of `register` on the history of the purpose
  unfoldable pub key_follows :
      List InstitutionCryptoKeyReference → InstitutionCryptoKeyReference → Result (Unit {0})
  key_follows past key = do
    elim (last? past) [
      | none ↦ ok tt
      | some previous ↦ (do
        at ← key_time "registered_at" key.registered_at
        previous_at ← key_time "previous registered_at" previous.registered_at
        raise_if_less key.registered_at previous.registered_at at previous_at
            (value_error "new crypto key reference cannot predate the previous version"))
    ]
    raise_if (any (λ previous. previous.key_id == key.key_id) past)
        (value_error "rotated key versions must use distinct key_id values")

  unfoldable pub initial_state : InstitutionCryptoKeyReference → CryptoKeyLifecycleState
  initial_state key = record {
    institution_id = key.institution_id;
    tenant_id = key.tenant_id;
    purpose = key.purpose;
    key_reference_digest = InstitutionCryptoKeyReference.artifact_digest key;
    state_version = 1;
    status = key.status;
    effective_at = key.registered_at;
    schema_version = "regagentops.crypto-key-lifecycle-state.v1";
  }

  -- the checks of `register` on a key that is new
  unfoldable pub key_admitted :
      InstitutionCryptoKeyRegistry → InstitutionCryptoKeyReference → Result (Unit {0})
  key_admitted r key = do
    let past = key_history r key.institution_id key.tenant_id key.purpose
    let expected = Versioned.next_version key_version (last? past)
    raise_if (not (eqb key.key_version expected)) (
        value_error
          ("crypto key_version must be contiguous; expected version " +++ decimal expected))
    key_follows past key

  -- `register`: the key is in the dictionary when the initial state's constructor runs
  unfoldable pub register_key :
      InstitutionCryptoKeyRegistry
      → InstitutionCryptoKeyReference
      → Result String × InstitutionCryptoKeyRegistry
  register_key r key =
      elim (Versioned.find key_scope key_version r.keys (key_scope key) (key_version key)) [
        | some existing ↦
            if InstitutionCryptoKeyReference.artifact_digest existing
              != InstitutionCryptoKeyReference.artifact_digest key
            then (
              err (value_error "crypto key purpose/version already exists with different content"),
              r,
            )
            else (ok (InstitutionCryptoKeyReference.artifact_digest existing), r)
        | none ↦ elim (key_admitted r key) [
          | err e ↦ (err e, r)
          | ok _ ↦ elim (CryptoKeyLifecycleState.post_init (initial_state key)) [
            | err e ↦ (err e, record r { keys = r.keys ++ key ∷ [] })
            | ok _ ↦ (
              ok (InstitutionCryptoKeyReference.artifact_digest key),
              record { keys = r.keys ++ key ∷ []; states = put_state r.states (initial_state key) },
            )
          ]
        ]
      ]

  unfoldable pub key_by_digest :
      InstitutionCryptoKeyRegistry → String → String → String → Result InstitutionCryptoKeyReference
  key_by_digest r institution_id tenant_id digest =
      or_raise
        (find_first
          (λ key.
            key.institution_id == institution_id
            && key.tenant_id == tenant_id
            && InstitutionCryptoKeyReference.artifact_digest key == digest)
          r.keys)
        (value_error "unknown tenant crypto key reference digest")

  unfoldable pub lifecycle_history :
      InstitutionCryptoKeyRegistry → InstitutionCryptoKeyReference → List CryptoKeyLifecycleState
  unfolding Versioned.history
  lifecycle_history r key =
      Versioned.history state_scope state_version r.states (
        key.institution_id ∷ key.tenant_id ∷ InstitutionCryptoKeyReference.artifact_digest key ∷ [])

  -- the checks of `register_state` against the last state of the history
  unfoldable pub state_follows :
      CryptoKeyLifecycleState → CryptoKeyLifecycleState → Result (Unit {0})
  state_follows previous state = do
    raise_if (not (eqb state.state_version (previous.state_version + 1))) (
        value_error (
          "key lifecycle state_version must be contiguous; expected "
          +++ decimal (previous.state_version + 1)))
    at ← key_time "effective_at" state.effective_at
    previous_at ← key_time "previous effective_at" previous.effective_at
    raise_if_less state.effective_at previous.effective_at at previous_at
        (value_error "key lifecycle cannot move backward in time")
    raise_if (not (contains (allowed_transitions previous.status) state.status))
        (value_error "key lifecycle transition is not permitted")

  -- the checks of `register_state` before the dictionary is read
  unfoldable pub state_admitted :
      InstitutionCryptoKeyRegistry → CryptoKeyLifecycleState → Result (Unit {0})
  state_admitted r state = do
    key ← key_by_digest r state.institution_id state.tenant_id state.key_reference_digest
    raise_if (state.purpose != key.purpose)
        (value_error "key lifecycle purpose does not match exact key reference")
    elim (last? (lifecycle_history r key)) [
      | none ↦ err (index_error "tuple index out of range")
      | some previous ↦ state_follows previous state
    ]

  unfoldable pub register_state :
      InstitutionCryptoKeyRegistry
      → CryptoKeyLifecycleState
      → Result String × InstitutionCryptoKeyRegistry
  register_state r state = elim (state_admitted r state) [
    | err e ↦ (err e, r)
    | ok _ ↦
        elim (Versioned.find state_scope state_version r.states (state_scope state)
          (state_version state)) [
            | some existing ↦
                if CryptoKeyLifecycleState.artifact_digest existing
                  != CryptoKeyLifecycleState.artifact_digest state
                then (
                  err (value_error "key lifecycle version already exists with different content"),
                  r,
                )
                else (ok (CryptoKeyLifecycleState.artifact_digest existing), r)
            | none ↦ (
              ok (CryptoKeyLifecycleState.artifact_digest state),
              record r { states = r.states ++ state ∷ [] },
            )
          ]
  ]
