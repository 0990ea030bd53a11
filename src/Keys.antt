-- ===== src/Keys.antt =====
-- hardening.py: the institutions' references to keys in a KMS or an HSM, and the life cycle of each.
pub mod CryptoKeyPurpose
pub mod CryptoKeyCustody
pub mod CryptoKeyStatus
pub mod CryptoAlgorithm
pub mod InstitutionCryptoKeyReference
pub mod CryptoKeyLifecycleState
pub mod Registry
