-- ===== src/Changes/ConfigurationChangeRequest.antt =====
-- hardening.py: `ConfigurationChangeRequest`, with `__post_init__` as `post_init`.
use reg_agent_ops.Base.{
  Option, Result, String, [], raise_if, same_optional, some, value_error, ℕ, ◌>>=◌, ◌>>◌, ◌∷◌,
}
use reg_agent_ops.Models.Checks.{
  raise_if_less, require_digest, require_optional_digest, require_positive, require_texts,
  utc_timestamp,
}
use reg_agent_ops.Models.Value.{Platform, Value, dict, digest_artifact, num, optional, text}

pub record ConfigurationChangeRequest : Type 0 where
  pub change_id : String
  pub institution_id : String
  pub tenant_id : String
  pub sequence : ℕ
  pub object_type : String
  pub object_id : String
  pub previous_configuration_digest : Option String
  pub proposed_configuration_digest : String
  pub change_reason_digest : String
  pub requested_by_human_id : String
  pub requested_at : String
  pub effective_at : String
  pub schema_version : String

-- `asdict`, with the members of enumerations as their values
unfoldable pub encode : ConfigurationChangeRequest → Value
encode r = dict (
    ("change_id", text r.change_id)
    ∷ ("institution_id", text r.institution_id)
    ∷ ("tenant_id", text r.tenant_id)
    ∷ ("sequence", num r.sequence)
    ∷ ("object_type", text r.object_type)
    ∷ ("object_id", text r.object_id)
    ∷ ("previous_configuration_digest", optional r.previous_configuration_digest)
    ∷ ("proposed_configuration_digest", text r.proposed_configuration_digest)
    ∷ ("change_reason_digest", text r.change_reason_digest)
    ∷ ("requested_by_human_id", text r.requested_by_human_id)
    ∷ ("requested_at", text r.requested_at)
    ∷ ("effective_at", text r.effective_at)
    ∷ ("schema_version", text r.schema_version)
    ∷ [])

module _ ⦃p : Platform⦄ where
  unfoldable pub artifact_digest : ConfigurationChangeRequest → String
  artifact_digest r = digest_artifact (encode r)

  unfoldable pub post_init : ConfigurationChangeRequest → Result (Unit {0})
  post_init r = do
    require_texts (
        ("change_id", r.change_id)
        ∷ ("institution_id", r.institution_id)
        ∷ ("tenant_id", r.tenant_id)
        ∷ ("object_type", r.object_type)
        ∷ ("object_id", r.object_id)
        ∷ ("requested_by_human_id", r.requested_by_human_id)
        ∷ ("schema_version", r.schema_version)
        ∷ [])
    require_positive "sequence" r.sequence
    require_optional_digest "previous_configuration_digest" r.previous_configuration_digest
    require_digest "proposed_configuration_digest" r.proposed_configuration_digest
    require_digest "change_reason_digest" r.change_reason_digest
    raise_if (same_optional r.previous_configuration_digest (some r.proposed_configuration_digest))
        (value_error "configuration change must alter the represented configuration digest")
    effective ← utc_timestamp "effective_at" r.effective_at
    requested ← utc_timestamp "requested_at" r.requested_at
    raise_if_less r.effective_at r.requested_at effective requested
        (value_error "configuration change effective_at cannot predate requested_at")
