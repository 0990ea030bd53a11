-- ===== src/Evidence.antt =====
-- hardening.py: governance evidence that is kept encrypted under a tenant's key.
pub mod EncryptedGovernanceEvidence
pub mod Encryption
