-- ===== src/Policy.antt =====
-- policy.py: the rules, the bundle and the engine; what the engine decides stands below it
pub mod PolicyRule
pub mod PolicyBundle
pub mod Engine
pub mod Permission
pub mod Totality
pub mod Precedence
pub mod Decides
pub mod Authenticated
