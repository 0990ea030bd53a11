-- ===== src/Anchors/Registry.antt =====
-- hardening.py, `AuditAnchorRegistry`: the records of every tenant, in the order of insertion.
pub mod Chain
use reg_agent_ops.Anchors.AuditAnchorBatch
use reg_agent_ops.Anchors.AuditAnchorRecord
use reg_agent_ops.Anchors.ExternalAuditAnchorReceipt
use reg_agent_ops.Base.Versioned
use reg_agent_ops.Anchors.AuditAnchorBatch.{AuditAnchorBatch}
use reg_agent_ops.Anchors.AuditAnchorRecord.{AuditAnchorRecord}
use reg_agent_ops.Anchors.ExternalAuditAnchorReceipt.{ExternalAuditAnchorReceipt}
use reg_agent_ops.Base.{
  List, Option, Result, String, [], decimal, eqb, err, last?, nat_eq, none, not, ok, raise_if,
  same_optional, some, string_eq, texts_eq, value_error, ℕ, ◌!=◌, ◌+++◌, ◌++◌, ◌>>=◌, ◌>>◌, ◌||◌,
  ◌∷◌,
}
use reg_agent_ops.Models.Checks.{raise_if_less, utc_timestamp}
use reg_agent_ops.Models.DataClassification.{data_classification_eq}
use reg_agent_ops.Models.Decision.{decision_eq}
use reg_agent_ops.Models.Environment.{environment_eq}
use reg_agent_ops.Models.RiskTier.{risk_tier_eq}
use reg_agent_ops.Models.Value.{Platform}

pub record AuditAnchorRegistry : Type 0 where
  pub records : List AuditAnchorRecord

abbrev pub record_scope : AuditAnchorRecord → List String
record_scope anchor = anchor.institution_id ∷ anchor.tenant_id ∷ []

abbrev pub record_sequence : AuditAnchorRecord → ℕ
record_sequence anchor = anchor.sequence

-- `history`
unfoldable pub anchor_history : AuditAnchorRegistry → String → String → List AuditAnchorRecord
unfolding Versioned.history
anchor_history r institution_id tenant_id =
    Versioned.history record_scope record_sequence r.records (institution_id ∷ tenant_id ∷ [])

module _ ⦃p : Platform⦄ where
  -- the record of a batch and its receipt
  unfoldable pub anchor_record :
      AuditAnchorBatch → ExternalAuditAnchorReceipt → String → AuditAnchorRecord
  anchor_record batch receipt recorded_at = record {
    institution_id = batch.institution_id;
    tenant_id = batch.tenant_id;
    sequence = batch.sequence;
    batch_digest = AuditAnchorBatch.artifact_digest batch;
    external_receipt_digest = ExternalAuditAnchorReceipt.artifact_digest receipt;
    previous_anchor_record_digest = batch.previous_anchor_record_digest;
    recorded_at = recorded_at;
    schema_version = "regagentops.audit-anchor-record.v1";
  }

  -- `None if not history else history[-1].artifact_digest`
  abbrev pub digest_of_last : Option AuditAnchorRecord → Option String
  digest_of_last none = none
  digest_of_last (some last) = some (AuditAnchorRecord.artifact_digest last)

  -- the checks of the times
  unfoldable pub anchor_times :
      Option AuditAnchorRecord
      → AuditAnchorBatch
      → ExternalAuditAnchorReceipt
      → String
      → Result (Unit {0})
  anchor_times last batch receipt recorded_at = do
    assembled ← utc_timestamp "assembled_at" batch.assembled_at
    anchored ← utc_timestamp "anchored_at" receipt.anchored_at
    recorded ← utc_timestamp "recorded_at" recorded_at
    raise_if_less receipt.anchored_at batch.assembled_at anchored assembled
        (value_error "external audit anchor cannot predate batch assembly")
    raise_if_less recorded_at receipt.anchored_at recorded anchored
        (value_error "audit anchor record cannot predate external anchoring")
    elim last [
      | none ↦ ok tt
      | some previous ↦ (do
        previous_at ← utc_timestamp "previous recorded_at" previous.recorded_at
        raise_if_less recorded_at previous.recorded_at recorded previous_at
            (value_error "audit anchor chain cannot move backward in time"))
    ]

  -- the checks of `register` on a batch whose sequence is new
  unfoldable pub anchor_admitted :
      Option AuditAnchorRecord
      → AuditAnchorBatch
      → ExternalAuditAnchorReceipt
      → String
      → Result (Unit {0})
  anchor_admitted last batch receipt recorded_at = do
    let expected = Versioned.next_version record_sequence last
    raise_if (not (eqb batch.sequence expected))
        (value_error ("audit anchor sequence must be contiguous; expected " +++ decimal expected))
    raise_if (not (same_optional batch.previous_anchor_record_digest (digest_of_last last)))
        (value_error "audit anchor batch does not extend the exact previous record")
    raise_if
        (receipt.institution_id != batch.institution_id || receipt.tenant_id != batch.tenant_id)
        (value_error "external anchor receipt tenant scope mismatch")
    raise_if (receipt.batch_digest != AuditAnchorBatch.artifact_digest batch)
        (value_error "external anchor receipt does not bind the exact audit batch")
    anchor_times last batch receipt recorded_at
    AuditAnchorRecord.post_init (anchor_record batch receipt recorded_at)

  -- `register` of a sequence that is there already
  unfoldable pub anchor_again : AuditAnchorRecord → AuditAnchorRecord → Result AuditAnchorRecord
  anchor_again existing candidate = do
    AuditAnchorRecord.post_init candidate
    raise_if
        (AuditAnchorRecord.artifact_digest existing != AuditAnchorRecord.artifact_digest candidate)
        (value_error "audit anchor sequence already exists with different content")
    ok existing

  unfoldable pub register_anchor :
      AuditAnchorRegistry
      → AuditAnchorBatch
      → ExternalAuditAnchorReceipt
      → String
      → Result AuditAnchorRecord × AuditAnchorRegistry
  register_anchor r batch receipt recorded_at =
      let candidate = anchor_record batch receipt recorded_at in
      elim (Versioned.find record_scope record_sequence r.records
        (batch.institution_id ∷ batch.tenant_id ∷ []) batch.sequence) [
          | some existing ↦ (anchor_again existing candidate, r)
          | none ↦
              elim (anchor_admitted (last? (anchor_history r batch.institution_id batch.tenant_id))
                batch receipt recorded_at) [
                  | err e ↦ (err e, r)
                  | ok _ ↦ (ok candidate, record { records = r.records ++ candidate ∷ [] })
                ]
        ]
