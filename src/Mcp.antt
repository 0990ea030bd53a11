-- ===== src/Mcp.antt =====
-- mcp.py: the governed MCP metadata and its registry, and the result of the policy enforcement point,
-- which the execution gate reads
pub mod Checks
pub mod McpTransportProfile
pub mod McpServerRegistration
pub mod McpToolDescriptor
pub mod McpToolSnapshot
pub mod McpToolBinding
pub mod Registry
pub mod McpPolicyEnforcementResult
pub mod McpPolicyEnforcementOutcome
pub mod EnforcementPoint
