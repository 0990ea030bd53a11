-- ===== src/Anchors/AuditAnchorBatch.antt =====
-- hardening.py: `AuditAnchorBatch`, with `__post_init__` as `post_init`.
use reg_agent_ops.Base.{
  List, Option, Result, String, [], eqb, for_each, is_empty, is_none, is_some, ltb, nat_eq, not,
  raise_if, string_eq, texts_eq, unique, value_error, ℕ, ◌!=◌, ◌&&◌, ◌+++◌, ◌>>◌, ◌||◌, ◌∷◌,
}
use reg_agent_ops.Base.Sort.{sort_texts}
use reg_agent_ops.Models.Checks.{
  require_digest, require_optional_digest, require_positive, require_texts, require_utc_timestamp,
}
use reg_agent_ops.Models.DataClassification.{data_classification_eq}
use reg_agent_ops.Models.Decision.{decision_eq}
use reg_agent_ops.Models.Environment.{environment_eq}
use reg_agent_ops.Models.RiskTier.{risk_tier_eq}
use reg_agent_ops.Models.Value.{Platform, Value, dict, digest_artifact, num, optional, text, texts}

pub record AuditAnchorBatch : Type 0 where
  pub batch_id : String
  pub institution_id : String
  pub tenant_id : String
  pub sequence : ℕ
  pub previous_anchor_record_digest : Option String
  pub evidence_artifact_digests : List String
  pub assembled_at : String
  pub schema_version : String

-- `asdict`, with the members of enumerations as their values
unfoldable pub encode : AuditAnchorBatch → Value
encode r = dict (
    ("batch_id", text r.batch_id)
    ∷ ("institution_id", text r.institution_id)
    ∷ ("tenant_id", text r.tenant_id)
    ∷ ("sequence", num r.sequence)
    ∷ ("previous_anchor_record_digest", optional r.previous_anchor_record_digest)
    ∷ ("evidence_artifact_digests", texts r.evidence_artifact_digests)
    ∷ ("assembled_at", text r.assembled_at)
    ∷ ("schema_version", text r.schema_version)
    ∷ [])

-- `_require_sorted_digests`
unfoldable pub require_sorted_digests : String → List String → Result (Unit {0})
require_sorted_digests name values = do
  raise_if (is_empty values) (value_error (name +++ " must not be empty"))
  for_each values (λ value. require_digest name value)
  raise_if (not (unique values) || sort_texts values != values)
      (value_error (name +++ " must be unique and sorted"))

module _ ⦃p : Platform⦄ where
  unfoldable pub artifact_digest : AuditAnchorBatch → String
  artifact_digest r = digest_artifact (encode r)

  unfoldable pub post_init : AuditAnchorBatch → Result (Unit {0})
  post_init r = do
    require_texts (
        ("batch_id", r.batch_id)
        ∷ ("institution_id", r.institution_id)
        ∷ ("tenant_id", r.tenant_id)
        ∷ ("schema_version", r.schema_version)
        ∷ [])
    require_positive "sequence" r.sequence
    require_optional_digest "previous_anchor_record_digest" r.previous_anchor_record_digest
    raise_if (eqb r.sequence 1 && is_some r.previous_anchor_record_digest)
        (value_error "first audit anchor batch must not have a previous record digest")
    raise_if (ltb 1 r.sequence && is_none r.previous_anchor_record_digest)
        (value_error "subsequent audit anchor batches require previous record digest")
    require_sorted_digests "evidence_artifact_digests" r.evidence_artifact_digests
    require_utc_timestamp "assembled_at" r.assembled_at
