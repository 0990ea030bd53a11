-- ===== src/Keys/Registry/Status.antt =====
-- hardening.py, `InstitutionCryptoKeyRegistry`: the status of a key at a time, and what it permits.
use reg_agent_ops.Base.{
  Bool, List, Result, String, [], eqb, err, false, if◌then◌else◌, last?, nat_eq, none, not, ok,
  raise_if, some, string_eq, texts_eq, value_error, ℕ, ◌!=◌, ◌==◌, ◌>>=◌, ◌>>◌, ◌||◌, ◌∷◌,
}
use reg_agent_ops.Keys.CryptoAlgorithm.{crypto_algorithm_eq}
use reg_agent_ops.Keys.CryptoKeyCustody.{crypto_key_custody_eq}
use reg_agent_ops.Keys.CryptoKeyLifecycleState.{CryptoKeyLifecycleState}
use reg_agent_ops.Keys.CryptoKeyPurpose.{CryptoKeyPurpose, crypto_key_purpose_eq}
use reg_agent_ops.Keys.CryptoKeyStatus.{CryptoKeyStatus, crypto_key_status_eq}
use reg_agent_ops.Keys.InstitutionCryptoKeyReference.{InstitutionCryptoKeyReference, key_time}
use reg_agent_ops.Keys.Registry.{InstitutionCryptoKeyRegistry, key_history, lifecycle_history}
use reg_agent_ops.Models.Checks.{is_aware, less, or_raise, unlike}
use reg_agent_ops.Models.DataClassification.{data_classification_eq}
use reg_agent_ops.Models.Decision.{decision_eq}
use reg_agent_ops.Models.Environment.{environment_eq}
use reg_agent_ops.Models.RiskTier.{risk_tier_eq}
use reg_agent_ops.Models.Value.{Platform}

module _ ⦃p : Platform⦄ where
  -- the comprehension of `status_at`
  unfoldable pub effective_states :
      String → ℕ → List CryptoKeyLifecycleState → Result (List CryptoKeyLifecycleState)
  effective_states moment at [] = ok []
  effective_states moment at (state ∷ states) = do
    effective_at ← key_time "effective_at" state.effective_at
    early ← less moment state.effective_at at effective_at
    rest ← effective_states moment at states
    ok (if early then rest else state ∷ rest)

  unfoldable pub status_at :
      InstitutionCryptoKeyRegistry → InstitutionCryptoKeyReference → String → Result CryptoKeyStatus
  status_at r key at = do
    at_dt ← key_time "at" at
    effective ← effective_states at at_dt (lifecycle_history r key)
    elim (last? effective) [
      | none ↦ err (value_error "key lifecycle is not yet effective at requested time")
      | some state ↦ ok state.status
    ]

  -- `_parse_time("not_before", ...) <= at < _parse_time("not_after", ...)`, which does not read the
  -- end where the start is later
  unfoldable pub key_valid_at : InstitutionCryptoKeyReference → String → ℕ → Result Bool
  key_valid_at key moment at = do
    start ← key_time "not_before" key.not_before
    early ← less moment key.not_before at start
    if early
        then ok false
        else (do finish ← key_time "not_after" key.not_after; less moment key.not_after at finish)

  -- the comprehension of `current_active`
  unfoldable pub active_keys :
      InstitutionCryptoKeyRegistry
      → String
      → ℕ
      → List InstitutionCryptoKeyReference
      → Result (List InstitutionCryptoKeyReference)
  active_keys r at at_dt [] = ok []
  active_keys r at at_dt (key ∷ keys) = do
    status ← status_at r key at
    taken ← (if status == CryptoKeyStatus.active then key_valid_at key at at_dt else ok false)
    rest ← active_keys r at at_dt keys
    ok (if taken then key ∷ rest else rest)

  unfoldable pub current_active :
      InstitutionCryptoKeyRegistry
      → String
      → String
      → CryptoKeyPurpose
      → String
      → Result InstitutionCryptoKeyReference
  current_active r institution_id tenant_id purpose at = do
    at_dt ← key_time "at" at
    candidates ← active_keys r at at_dt (key_history r institution_id tenant_id purpose)
    or_raise (last? candidates)
        (value_error "no active tenant crypto key exists for requested purpose/time")

  unfoldable pub assert_new_operation_allowed :
      InstitutionCryptoKeyRegistry
      → InstitutionCryptoKeyReference
      → String
      → String
      → Result (Unit {0})
  assert_new_operation_allowed r key artifact_time now = do
    artifact_dt ← key_time "artifact_time" artifact_time
    now_dt ← key_time "now" now
    raise_if (unlike (is_aware artifact_time) (is_aware now) || not (eqb artifact_dt now_dt))
        (value_error "new cryptographic artifact time must equal current operation time")
    status ← status_at r key artifact_time
    raise_if (status != CryptoKeyStatus.active) (
        value_error
          "key was not active at cryptographic artifact time; new operations require a currently active key")
    valid ← key_valid_at key artifact_time artifact_dt
    raise_if (not valid)
        (value_error "key is outside its validity interval at cryptographic artifact time")
