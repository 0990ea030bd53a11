-- ===== src/Anchors/AuditAnchorRecord.antt =====
-- hardening.py: `AuditAnchorRecord`, with `__post_init__` as `post_init`.
use reg_agent_ops.Base.{Option, Result, String, [], ℕ, ◌>>◌, ◌∷◌}
use reg_agent_ops.Models.Checks.{
  require_digest, require_optional_digest, require_positive, require_texts, require_utc_timestamp,
}
use reg_agent_ops.Models.Value.{Platform, Value, dict, digest_artifact, num, optional, text}

pub record AuditAnchorRecord : Type 0 where
  pub institution_id : String
  pub tenant_id : String
  pub sequence : ℕ
  pub batch_digest : String
  pub external_receipt_digest : String
  pub previous_anchor_record_digest : Option String
  pub recorded_at : String
  pub schema_version : String

-- `asdict`, with the members of enumerations as their values
unfoldable pub encode : AuditAnchorRecord → Value
encode r = dict (
    ("institution_id", text r.institution_id)
    ∷ ("tenant_id", text r.tenant_id)
    ∷ ("sequence", num r.sequence)
    ∷ ("batch_digest", text r.batch_digest)
    ∷ ("external_receipt_digest", text r.external_receipt_digest)
    ∷ ("previous_anchor_record_digest", optional r.previous_anchor_record_digest)
    ∷ ("recorded_at", text r.recorded_at)
    ∷ ("schema_version", text r.schema_version)
    ∷ [])

module _ ⦃p : Platform⦄ where
  unfoldable pub artifact_digest : AuditAnchorRecord → String
  artifact_digest r = digest_artifact (encode r)

  unfoldable pub post_init : AuditAnchorRecord → Result (Unit {0})
  post_init r = do
    require_texts (
        ("institution_id", r.institution_id)
        ∷ ("tenant_id", r.tenant_id)
        ∷ ("schema_version", r.schema_version)
        ∷ [])
    require_positive "sequence" r.sequence
    require_digest "batch_digest" r.batch_digest
    require_digest "external_receipt_digest" r.external_receipt_digest
    require_optional_digest "previous_anchor_record_digest" r.previous_anchor_record_digest
    require_utc_timestamp "recorded_at" r.recorded_at
