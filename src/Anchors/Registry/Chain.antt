-- ===== src/Anchors/Registry/Chain.antt =====
-- The anchors of a tenant are a chain: each carries the digest of the one before.
use reg_agent_ops.Anchors.AuditAnchorRecord
use reg_agent_ops.Base.Versioned
use reg_agent_ops.Base.Versioned.Links
use reg_agent_ops.Anchors.AuditAnchorBatch.{AuditAnchorBatch}
use reg_agent_ops.Anchors.AuditAnchorRecord.{AuditAnchorRecord}
use reg_agent_ops.Anchors.ExternalAuditAnchorReceipt.{ExternalAuditAnchorReceipt}
use reg_agent_ops.Anchors.Registry.{
  AuditAnchorRegistry, anchor_admitted, anchor_history, anchor_record, digest_of_last, record_scope,
  record_sequence, register_anchor,
}
use reg_agent_ops.Base.{
  >>-eq-ok, List, Option, Option-cases, String, [], arith, eqb, inl, inr, last?, none, not, ok,
  raise_if, raise_if-ok, refl, same_optional, same_optional_iff, some, subst, sym, unit_result,
  ◌++◌, ◌∙◌, ◌∷◌, ◌≡◌, ◌⊎◌,
}
use reg_agent_ops.Models.Value.{Platform}

module _ ⦃p : Platform⦄ where
  -- A batch, its receipt and the time at which it is recorded.
  pub record Anchoring : Type 0 where
    pub batch : AuditAnchorBatch
    pub receipt : ExternalAuditAnchorReceipt
    pub recorded_at : String

  -- the registry after a call, and after several
  abbrev pub anchor_one : AuditAnchorRegistry → Anchoring → AuditAnchorRegistry
  anchor_one r a = (register_anchor r a.batch a.receipt a.recorded_at).1

  abbrev pub anchor_all : AuditAnchorRegistry → List Anchoring → AuditAnchorRegistry
  anchor_all r [] = r
  anchor_all r (a ∷ rest) = anchor_all (anchor_one r a) rest

  -- Every tenant's records count up from 1, and each names the digest of the one before it.
  abbrev pub IsAnchored : AuditAnchorRegistry → Type 0
  IsAnchored r =
      Links.IsChained AuditAnchorRecord.previous_anchor_record_digest
        AuditAnchorRecord.artifact_digest record_scope record_sequence r.records

  digest_of_last-eq :
      (last : Option AuditAnchorRecord)
      → digest_of_last last
        ≡ Links.digest_or AuditAnchorRecord.previous_anchor_record_digest
            AuditAnchorRecord.artifact_digest none last
  digest_of_last-eq none = refl
  digest_of_last-eq (some last) = refl

  anchor_admitted-inverts :
      (last : Option AuditAnchorRecord) (batch : AuditAnchorBatch)
      (receipt : ExternalAuditAnchorReceipt) (recorded_at : String)
      → anchor_admitted last batch receipt recorded_at ≡ ok tt
      → (batch.sequence ≡ Versioned.next_version record_sequence last)
        × (batch.previous_anchor_record_digest ≡ digest_of_last last)
  unfolding anchor_admitted
  anchor_admitted-inverts last batch receipt recorded_at h =
      let (follows, h₁) =
        >>-eq-ok
          (raise_if (not (eqb batch.sequence (Versioned.next_version record_sequence last))) _) _
          h in
      let (extends, h₂) =
        >>-eq-ok
          (raise_if (not (same_optional batch.previous_anchor_record_digest (digest_of_last last)))
            _)
          _ h₁ in
      (
        ground (arith, raise_if-ok _ _ follows),
        (same_optional_iff batch.previous_anchor_record_digest (digest_of_last last)).0
            (ground (arith, raise_if-ok _ _ extends)),
      )

  module _ (r : AuditAnchorRegistry) (a : Anchoring) where
    abbrev candidate : AuditAnchorRecord
    candidate = anchor_record a.batch a.receipt a.recorded_at

    abbrev past : List AuditAnchorRecord
    past = Versioned.history record_scope record_sequence r.records (record_scope candidate)

    register_anchor-cases :
        (anchor_one r a ≡ r)
        ⊎ ((anchor_one r a ≡ record { records = r.records ++ candidate ∷ [] })
            × (candidate.sequence ≡ Versioned.next_version record_sequence (last? past))
            × (candidate.previous_anchor_record_digest ≡ digest_of_last (last? past)))
    unfolding register_anchor anchor_admitted anchor_history anchor_record
    register_anchor-cases =
        elim (Option-cases (
          Versioned.find record_scope record_sequence r.records
            (a.batch.institution_id ∷ a.batch.tenant_id ∷ []) a.batch.sequence)) [
              | inr (existing, found) ↦ inl (ground arith)
              | inl new ↦
                  elim (unit_result
                    (anchor_admitted (last? past) a.batch a.receipt a.recorded_at)) [
                      | inr (e, refused) ↦ inl (ground arith)
                      | inl admitted ↦
                          let (follows, extends) =
                            anchor_admitted-inverts (last? past) a.batch a.receipt a.recorded_at
                              admitted in
                          inr (ground arith, follows, extends)
                    ]
            ]

    anchor_one-IsAnchored : IsAnchored r → IsAnchored (anchor_one r a)
    unfolding anchor_record
    anchor_one-IsAnchored c = elim register_anchor-cases [
      | inl unchanged ↦ subst IsAnchored (sym unchanged) c
      | inr (changed, follows, extends) ↦ subst IsAnchored (sym changed) (
          Links.appended-IsChained AuditAnchorRecord.previous_anchor_record_digest
            AuditAnchorRecord.artifact_digest record_scope record_sequence r.records candidate c
            follows (extends ∙ digest_of_last-eq (last? past)))
    ]

  -- In a registry whose records count up from 1 for every tenant and are linked, such as the empty
  -- one, whatever batches and receipts are registered, and whether the calls return or raise: the
  -- records of every tenant still count up from 1, the first names no digest, and each later one names
  -- the digest of the record before it.
  pub anchor_all-IsAnchored :
      (r : AuditAnchorRegistry) (anchorings : List Anchoring)
      → IsAnchored r
      → IsAnchored (anchor_all r anchorings)
  anchor_all-IsAnchored r [] c = c
  anchor_all-IsAnchored r (a ∷ rest) c =
      anchor_all-IsAnchored (anchor_one r a) rest (anchor_one-IsAnchored r a c)
