-- ===== src/Anchors.antt =====
-- hardening.py: the chain of audit anchors of a tenant.
pub mod AuditAnchorBatch
pub mod ExternalAuditAnchorReceipt
pub mod AuditAnchorRecord
pub mod Registry
