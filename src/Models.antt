-- ===== src/Models.antt =====
-- models.py, with the decision class of authenticated_policy.py: one module for each class, its
-- hash and its checks
pub mod Value
pub mod Checks
pub mod Decision
pub mod RiskTier
pub mod Environment
pub mod DataClassification
pub mod AgentDescriptor
pub mod ToolActionDescriptor
pub mod AgentActionEnvelope
pub mod AuthorizationDecision
pub mod AuthenticatedAuthorizationDecision
