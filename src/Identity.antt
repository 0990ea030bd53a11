-- ===== src/Identity.antt =====
-- identity_models.py, authenticated_identity_signature.py, workload_identity.py and
-- identity_binding.py: who acts, and how that is signed, verified and bound to an agent.
pub mod Checks
pub mod TrustKeyStatus
pub mod OidcVerifierConfig
pub mod HumanIdentityAssertion
pub mod WorkloadIdentityStatement
pub mod SignedWorkloadIdentity
pub mod WorkloadIdentityTrustKey
pub mod WorkloadIdentityTrustBundle
pub mod AuthenticatedAgentIdentity
pub mod SignedAuthenticatedAgentIdentity
pub mod Ed25519
pub mod Context
pub mod Workload
pub mod Binding
