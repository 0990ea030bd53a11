-- ===== src/Anchors/ExternalAuditAnchorReceipt.antt =====
-- hardening.py: `ExternalAuditAnchorReceipt`, with `__post_init__` as `post_init`.
use reg_agent_ops.Base.{Result, String, [], ◌>>◌, ◌∷◌}
use reg_agent_ops.Models.Checks.{require_digest, require_texts, require_utc_timestamp}
use reg_agent_ops.Models.Value.{Platform, Value, dict, digest_artifact, text}

pub record ExternalAuditAnchorReceipt : Type 0 where
  pub institution_id : String
  pub tenant_id : String
  pub batch_digest : String
  pub provider_id : String
  pub anchor_id : String
  pub provider_receipt_digest : String
  pub anchored_at : String
  pub schema_version : String

-- `asdict`, with the members of enumerations as their values
unfoldable pub encode : ExternalAuditAnchorReceipt → Value
encode r = dict (
    ("institution_id", text r.institution_id)
    ∷ ("tenant_id", text r.tenant_id)
    ∷ ("batch_digest", text r.batch_digest)
    ∷ ("provider_id", text r.provider_id)
    ∷ ("anchor_id", text r.anchor_id)
    ∷ ("provider_receipt_digest", text r.provider_receipt_digest)
    ∷ ("anchored_at", text r.anchored_at)
    ∷ ("schema_version", text r.schema_version)
    ∷ [])

module _ ⦃p : Platform⦄ where
  unfoldable pub artifact_digest : ExternalAuditAnchorReceipt → String
  artifact_digest r = digest_artifact (encode r)

  unfoldable pub post_init : ExternalAuditAnchorReceipt → Result (Unit {0})
  post_init r = do
    require_texts (
        ("institution_id", r.institution_id)
        ∷ ("tenant_id", r.tenant_id)
        ∷ ("provider_id", r.provider_id)
        ∷ ("anchor_id", r.anchor_id)
        ∷ ("schema_version", r.schema_version)
        ∷ [])
    require_digest "batch_digest" r.batch_digest
    require_digest "provider_receipt_digest" r.provider_receipt_digest
    require_utc_timestamp "anchored_at" r.anchored_at
