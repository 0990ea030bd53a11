-- ===== src/Changes.antt =====
-- hardening.py: signed configuration changes and the chain of them that a tenant has.
pub mod ConfigurationChangeRequest
pub mod SignedConfigurationChange
pub mod Signature
pub mod Registry
