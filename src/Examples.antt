-- ===== src/Examples.antt =====
-- Concrete inputs of the theorems' hypotheses, and the theorems applied to them.
mod Clock
mod Requests
mod Governance
mod Identities
mod Enforcement
mod Policies
mod Approvals
mod Executions
mod KeyRotation
mod Hardening
mod Evidences
