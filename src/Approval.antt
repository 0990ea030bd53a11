-- ===== src/Approval.antt =====
-- approval_models.py, approval_authority.py, approval_replay.py, approval_signature.py and
-- approval_engine.py
pub mod Checks
pub mod ApprovalVote
pub mod GrantType
pub mod ApprovalKeyStatus
pub mod ApprovalAuthorityGrant
pub mod ApprovalAuthorityBundle
pub mod ApprovalEscalationPolicy
pub mod ApprovalRequirement
pub mod ApprovalStatement
pub mod ApprovalResolution
pub mod ApprovalTrustKey
pub mod ApprovalTrustBundle
pub mod SignedApprovalStatement
pub mod SignedApprovalPackage
pub mod Authority
pub mod Replay
pub mod Signature
pub mod Gate
