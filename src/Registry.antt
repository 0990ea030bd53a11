-- ===== src/Registry.antt =====
-- registry.py
pub mod AgentRegistry
pub mod ToolRegistry
pub mod Lookup
