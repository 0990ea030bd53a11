-- ===== src/Examples/KeyRotation.antt =====
-- A signing key that is disabled, and what is registered afterwards.
use reg_agent_ops.Base.Versioned
use reg_agent_ops.Keys.CryptoAlgorithm
use reg_agent_ops.Keys.CryptoKeyPurpose
use reg_agent_ops.Keys.InstitutionCryptoKeyReference
use reg_agent_ops.Base.{
  Bool-cases, Error, [], arith, codes, drop_last, ends_with_z, err, inl, inr, is_blank, is_hex,
  is_hex_64, is_space, last?, len, nat_eq, none, refl, some, string_eq, texts_eq, ℕ, ◌==◌, ◌∷◌, ◌≡◌,
}
use reg_agent_ops.Base.Sort.{text_le}
use reg_agent_ops.Examples.Clock.{
  clock, example_platform, first_of_fields, first_text, odd_digest, parity_digest,
}
use reg_agent_ops.Execution.EmergencyStops.{version}
use reg_agent_ops.Keys.CryptoAlgorithm.{CryptoAlgorithm, crypto_algorithm_eq}
use reg_agent_ops.Keys.CryptoKeyCustody.{CryptoKeyCustody, crypto_key_custody_eq}
use reg_agent_ops.Keys.CryptoKeyLifecycleState.{CryptoKeyLifecycleState}
use reg_agent_ops.Keys.CryptoKeyPurpose.{CryptoKeyPurpose, crypto_key_purpose_eq}
use reg_agent_ops.Keys.CryptoKeyStatus.{CryptoKeyStatus, crypto_key_status_eq}
use reg_agent_ops.Keys.InstitutionCryptoKeyReference.{InstitutionCryptoKeyReference, key_time}
use reg_agent_ops.Keys.Registry.{InstitutionCryptoKeyRegistry, lifecycle_history, state_scope}
use reg_agent_ops.Keys.Registry.Disabled.{assert_new_operation_allowed-disabled}
use reg_agent_ops.Keys.Registry.Final.{IsOrdered, add_states-Reaches, add_states-final}
use reg_agent_ops.Keys.Registry.Lifecycle.{Reaches, add_states}
use reg_agent_ops.Keys.Registry.Status.{assert_new_operation_allowed}
use reg_agent_ops.Models.Checks.{
  is_aware, less, raise_if_less, raise_unless_less, require_text, utc_timestamp,
}
use reg_agent_ops.Models.DataClassification.{data_classification_eq}
use reg_agent_ops.Models.Decision.{decision_eq}
use reg_agent_ops.Models.Environment.{environment_eq}
use reg_agent_ops.Models.RiskTier.{risk_tier_eq}
use reg_agent_ops.Models.Value.{
  canonical, canonical_fields, canonical_items, canonical_json, digest_artifact, insert_field,
}

abbrev signing_key : InstitutionCryptoKeyReference
signing_key = record {
  institution_id = "bank";
  tenant_id = "tenant";
  purpose = CryptoKeyPurpose.config_signing;
  key_version = 1;
  key_id = "key";
  custody = CryptoKeyCustody.hsm;
  algorithm = CryptoAlgorithm.ed25519;
  public_key_base64url = none;
  status = CryptoKeyStatus.active;
  not_before = "2026-01-01T00:00:00Z";
  not_after = "2026-01-01T00:09:00Z";
  registered_at = "2026-01-01T00:00:00Z";
  schema_version = "regagentops.institution-crypto-key-reference.v1";
}

abbrev state : ℕ → CryptoKeyStatus → CryptoKeyLifecycleState
state version status = record {
  institution_id = "bank";
  tenant_id = "tenant";
  purpose = CryptoKeyPurpose.config_signing;
  key_reference_digest = odd_digest;
  state_version = version;
  status = status;
  effective_at = "2026-01-01T00:00:00Z";
  schema_version = "regagentops.crypto-key-lifecycle-state.v1";
}

abbrev unused : InstitutionCryptoKeyRegistry
unused = record { keys = signing_key ∷ []; states = state 1 CryptoKeyStatus.active ∷ [] }

state-IsOrdered : IsOrdered unused
state-IsOrdered = record {
  in_order = λ key. elim (Bool-cases (state_scope (state 1 CryptoKeyStatus.active) == key)) [
    | inl own ↦ rw own (refl, tt)
    | inr other ↦ rw other tt
  ];
}

state-last : last? (lifecycle_history unused signing_key) ≡ some (state 1 CryptoKeyStatus.active)
unfolding lifecycle_history Versioned.history CryptoAlgorithm.value CryptoKeyPurpose.value
    InstitutionCryptoKeyReference.encode InstitutionCryptoKeyReference.artifact_digest clock
    first_text first_of_fields parity_digest canonical canonical_items canonical_fields insert_field
    text_le canonical_json digest_artifact codes is_space is_blank len ends_with_z drop_last is_hex
    is_hex_64 raise_if_less raise_unless_less less is_aware
state-last = refl

add_states-Reaches_example :
    (last : CryptoKeyLifecycleState) × (last?
        (lifecycle_history (add_states unused (state 2 CryptoKeyStatus.retired ∷ [])) signing_key)
      ≡ some last)
    × Reaches CryptoKeyStatus.active last.status
add_states-Reaches_example =
    add_states-Reaches unused (state 2 CryptoKeyStatus.retired ∷ []) signing_key state-IsOrdered
      state-last

-- the key with its second state
abbrev closed : InstitutionCryptoKeyRegistry
closed = record {
  keys = signing_key ∷ [];
  states = state 1 CryptoKeyStatus.active ∷ state 2 CryptoKeyStatus.disabled ∷ [];
}

closed-IsOrdered : IsOrdered closed
closed-IsOrdered = record {
  in_order = λ key. elim (Bool-cases (state_scope (state 1 CryptoKeyStatus.active) == key)) [
    | inl own ↦ rw own (refl, (refl, tt))
    | inr other ↦ rw other tt
  ];
}

closed-last : last? (lifecycle_history closed signing_key) ≡ some (state 2 CryptoKeyStatus.disabled)
unfolding lifecycle_history Versioned.history CryptoAlgorithm.value CryptoKeyPurpose.value
    InstitutionCryptoKeyReference.encode InstitutionCryptoKeyReference.artifact_digest clock
    first_text first_of_fields parity_digest canonical canonical_items canonical_fields insert_field
    text_le canonical_json digest_artifact codes is_space is_blank len ends_with_z drop_last is_hex
    is_hex_64 raise_if_less raise_unless_less less is_aware
closed-last = refl

add_states-final_example :
    lifecycle_history (add_states closed (state 3 CryptoKeyStatus.active ∷ [])) signing_key
    ≡ lifecycle_history closed signing_key
add_states-final_example =
    add_states-final closed (state 3 CryptoKeyStatus.active ∷ []) signing_key closed-IsOrdered
      closed-last refl

assert_new_operation_allowed-disabled_example :
    (e : Error) × (assert_new_operation_allowed
        (add_states closed (state 3 CryptoKeyStatus.active ∷ []))
        signing_key
        "2026-01-01T00:01:00Z"
        "2026-01-01T00:01:00Z"
      ≡ err e)
unfolding key_time utc_timestamp require_text clock codes is_space is_blank len ends_with_z
    drop_last is_hex is_hex_64 raise_if_less raise_unless_less less is_aware
assert_new_operation_allowed-disabled_example =
    assert_new_operation_allowed-disabled closed (state 3 CryptoKeyStatus.active ∷ []) signing_key
      "2026-01-01T00:01:00Z" "2026-01-01T00:01:00Z" {t = 0} {t' = 60000000} closed-IsOrdered
      closed-last refl refl refl (omega arith)
