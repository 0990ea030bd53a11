-- ===== src/Tenants.antt =====
-- hardening.py: row level security policies and the isolation profiles of tenants.
pub mod Checks
pub mod PostgresRlsPolicy
pub mod TenantIsolationProfile
pub mod Registry
