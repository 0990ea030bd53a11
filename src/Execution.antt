-- ===== src/Execution.antt =====
-- execution.py
pub mod ExecutionOutcome
pub mod ExecutionKeyStatus
pub mod EmergencyStopState
pub mod ExecutionLease
pub mod ExecutionLeaseConsumption
pub mod ToolExecutionReceipt
pub mod ExecutionTrustKey
pub mod ExecutionTrustBundle
pub mod SignedToolExecutionReceipt
pub mod EmergencyStops
pub mod Ledger
pub mod Outcome
pub mod ApprovalChain
pub mod Gate
pub mod Receipts
