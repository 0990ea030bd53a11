-- ===== src/Changes/Registry.antt =====
-- hardening.py, `ConfigurationChangeRegistry`: the changes of every tenant, in the order of
-- insertion, and the latest digest of each object.
pub mod Objects
pub mod Chain
use reg_agent_ops.Base.Versioned
use reg_agent_ops.Changes.SignedConfigurationChange
use reg_agent_ops.Base.{
  List, Option, Result, String, [], decimal, eqb, err, if◌then◌else◌, last?, nat_eq, none, not, ok,
  raise_if, same_optional, some, string_eq, texts_eq, value_error, ℕ, ◌!=◌, ◌+++◌, ◌++◌, ◌==◌,
  ◌>>=◌, ◌>>◌, ◌∷◌,
}
use reg_agent_ops.Changes.ConfigurationChangeRequest.{ConfigurationChangeRequest}
use reg_agent_ops.Changes.Signature.{verify_signed_configuration_change}
use reg_agent_ops.Changes.SignedConfigurationChange.{SignedConfigurationChange}
use reg_agent_ops.Execution.EmergencyStops.{current}
use reg_agent_ops.Keys.CryptoAlgorithm.{crypto_algorithm_eq}
use reg_agent_ops.Keys.CryptoKeyCustody.{crypto_key_custody_eq}
use reg_agent_ops.Keys.CryptoKeyPurpose.{crypto_key_purpose_eq}
use reg_agent_ops.Keys.CryptoKeyStatus.{crypto_key_status_eq}
use reg_agent_ops.Keys.InstitutionCryptoKeyReference.{key_time}
use reg_agent_ops.Keys.Registry.{InstitutionCryptoKeyRegistry}
use reg_agent_ops.Models.Checks.{raise_if_less}
use reg_agent_ops.Models.DataClassification.{data_classification_eq}
use reg_agent_ops.Models.Decision.{decision_eq}
use reg_agent_ops.Models.Environment.{environment_eq}
use reg_agent_ops.Models.RiskTier.{risk_tier_eq}
use reg_agent_ops.Models.Value.{Platform}

pub record ConfigurationChangeRegistry : Type 0 where
  pub changes : List SignedConfigurationChange
  pub latest_object_digest : List (List String × String)

abbrev pub change_scope : SignedConfigurationChange → List String
change_scope signed = signed.request.institution_id ∷ signed.request.tenant_id ∷ []

abbrev pub change_sequence : SignedConfigurationChange → ℕ
change_sequence signed = signed.request.sequence

-- `object_key`
abbrev pub object_key : ConfigurationChangeRequest → List String
object_key request =
    request.institution_id ∷ request.tenant_id ∷ request.object_type ∷ request.object_id ∷ []

-- `self._latest_object_digest.get(key)`, and the assignment to it
unfoldable pub latest_digest : List (List String × String) → List String → Option String
latest_digest [] key = none
latest_digest ((k, d) ∷ entries) key =
    let rest = latest_digest entries key in if k == key then some d else rest

unfoldable pub put_digest :
    List (List String × String) → List String → String → List (List String × String)
put_digest [] key digest = (key, digest) ∷ []
put_digest ((k, d) ∷ entries) key digest =
    let rest = put_digest entries key digest in
    if k == key then (key, digest) ∷ entries else (k, d) ∷ rest

-- `history`
unfoldable pub change_history :
    ConfigurationChangeRegistry → String → String → List SignedConfigurationChange
unfolding Versioned.history
change_history r institution_id tenant_id =
    Versioned.history change_scope change_sequence r.changes (institution_id ∷ tenant_id ∷ [])

module _ ⦃p : Platform⦄ where
  -- `None if not history else history[-1].artifact_digest`
  abbrev pub digest_of_last_change : Option SignedConfigurationChange → Option String
  digest_of_last_change none = none
  digest_of_last_change (some last) = some (SignedConfigurationChange.artifact_digest last)

  -- the checks of `append` against the last change of the tenant
  unfoldable pub change_extends :
      Option SignedConfigurationChange → SignedConfigurationChange → Result (Unit {0})
  change_extends last signed = do
    let expected = Versioned.next_version change_sequence last
    raise_if (not (eqb signed.request.sequence expected)) (
        value_error
          ("configuration change sequence must be contiguous; expected " +++ decimal expected))
    raise_if (not (same_optional signed.previous_change_digest (digest_of_last_change last)))
        (value_error "configuration change does not extend the exact tenant change chain")
    elim last [
      | none ↦ ok tt
      | some previous ↦ (do
        at ← key_time "signed_at" signed.signed_at
        previous_at ← key_time "previous signed_at" previous.signed_at
        raise_if_less signed.signed_at previous.signed_at at previous_at
            (value_error "configuration change chain cannot move backward in time"))
    ]

  -- the check of `append` against the object's current digest
  unfoldable pub object_current : Option String → ConfigurationChangeRequest → Result (Unit {0})
  object_current none request = ok tt
  object_current (some current) request =
      raise_if (not (same_optional request.previous_configuration_digest (some current)))
        (value_error "configuration change previous digest does not match current object state")

  -- the checks of `append` on a change whose sequence is new
  unfoldable pub change_admitted :
      ConfigurationChangeRegistry
      → SignedConfigurationChange
      → InstitutionCryptoKeyRegistry
      → String
      → Result (Unit {0})
  change_admitted r signed keys now = do
    request ← verify_signed_configuration_change signed keys now
    now_dt ← key_time "now" now
    effective ← key_time "effective_at" signed.request.effective_at
    raise_if_less now signed.request.effective_at now_dt effective
        (value_error "configuration change cannot become current before effective_at")
    change_extends (last? (change_history r signed.request.institution_id signed.request.tenant_id))
        signed
    object_current (latest_digest r.latest_object_digest (object_key signed.request)) signed.request

  -- `append`
  unfoldable pub append_change :
      ConfigurationChangeRegistry
      → SignedConfigurationChange
      → InstitutionCryptoKeyRegistry
      → String
      → Result String × ConfigurationChangeRegistry
  append_change r signed keys now =
      elim (Versioned.find change_scope change_sequence r.changes (change_scope signed)
        (change_sequence signed)) [
          | some existing ↦
              if SignedConfigurationChange.artifact_digest existing
                != SignedConfigurationChange.artifact_digest signed
              then (
                err (
                    value_error
                      "configuration change sequence already exists with different content"),
                r,
              )
              else (ok (SignedConfigurationChange.artifact_digest existing), r)
          | none ↦ elim (change_admitted r signed keys now) [
            | err e ↦ (err e, r)
            | ok _ ↦ (
              ok (SignedConfigurationChange.artifact_digest signed),
              record {
                changes = r.changes ++ signed ∷ [];
                latest_object_digest =
                    put_digest r.latest_object_digest (object_key signed.request)
                      signed.request.proposed_configuration_digest;
              },
            )
          ]
        ]
