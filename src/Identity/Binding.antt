-- ===== src/Identity/Binding.antt =====
-- identity_binding.py: the registered human identities, and the agent identity that a human and a
-- workload establish together.
pub mod Established
pub mod Bounds
use reg_agent_ops.Identity.AuthenticatedAgentIdentity
use reg_agent_ops.Identity.HumanIdentityAssertion
use reg_agent_ops.Identity.SignedWorkloadIdentity
use reg_agent_ops.Models.AgentDescriptor
use reg_agent_ops.Approval.Checks.{bounded_texts}
use reg_agent_ops.Base.{
  List, Option, Result, String, [], err, find_first, identity_binding_error, if◌then◌else◌, leb,
  nat_eq, none, ok, raise_if, some, string_eq, texts_eq, utc_suffix, value_error, ℕ, ◌!=◌, ◌&&◌,
  ◌++◌, ◌==◌, ◌>>=◌, ◌>>◌, ◌||◌, ◌∷◌,
}
use reg_agent_ops.Identity.AuthenticatedAgentIdentity.{AuthenticatedAgentIdentity}
use reg_agent_ops.Identity.HumanIdentityAssertion.{HumanIdentityAssertion}
use reg_agent_ops.Identity.SignedWorkloadIdentity.{SignedWorkloadIdentity}
use reg_agent_ops.Identity.Workload.{verify_workload_identity, workload_time}
use reg_agent_ops.Identity.WorkloadIdentityStatement.{WorkloadIdentityStatement}
use reg_agent_ops.Identity.WorkloadIdentityTrustBundle.{WorkloadIdentityTrustBundle}
use reg_agent_ops.Models.AgentDescriptor.{AgentDescriptor}
use reg_agent_ops.Models.Checks.{raise_if_less, raise_unless_less}
use reg_agent_ops.Models.DataClassification.{data_classification_eq}
use reg_agent_ops.Models.Decision.{decision_eq}
use reg_agent_ops.Models.Environment.{environment_eq}
use reg_agent_ops.Models.RiskTier.{risk_tier_eq}
use reg_agent_ops.Models.Value.{Platform, digest_artifact}

pub record HumanIdentityRegistration : Type 0 where
  pub institution_id : String
  pub human_owner_id : String
  pub provider_id : String
  pub subject : String

-- `HumanIdentityRegistration.__post_init__`
unfoldable pub registration_valid : HumanIdentityRegistration → Result (Unit {0})
registration_valid r = bounded_texts (
    ("institution_id", r.institution_id)
    ∷ ("human_owner_id", r.human_owner_id)
    ∷ ("provider_id", r.provider_id)
    ∷ ("subject", r.subject)
    ∷ [])

-- The dictionary of `HumanIdentityRegistry`, in the order of registration.
pub record HumanIdentityRegistry : Type 0 where
  pub registrations : List HumanIdentityRegistration

unfoldable pub get_registration :
    HumanIdentityRegistry → String → String → Option HumanIdentityRegistration
get_registration r institution_id human_owner_id =
    find_first (λ h. h.institution_id == institution_id && h.human_owner_id == human_owner_id)
      r.registrations

unfoldable pub register_human :
    HumanIdentityRegistry → HumanIdentityRegistration → Result (Unit {0}) × HumanIdentityRegistry
unfolding get_registration
register_human r registration =
    elim (get_registration r registration.institution_id registration.human_owner_id) [
      | some _ ↦ (err (value_error "human identity registration already exists"), r)
      | none ↦ (ok tt, record { registrations = r.registrations ++ registration ∷ [] })
    ]

-- `HumanIdentityRegistry.__init__`: the loop from the registry so far, which an exception ends
unfoldable pub register_humans :
    HumanIdentityRegistry → List HumanIdentityRegistration → Result HumanIdentityRegistry
unfolding register_human
register_humans r [] = ok r
register_humans r (registration ∷ rest) =
    let (done, after) = register_human r registration in done >> register_humans after rest

module _ ⦃p : Platform⦄ where
  -- `_format_timestamp`
  unfoldable pub binding_timestamp : ℕ → String
  binding_timestamp value = utc_suffix (p.isoformat value)

  -- the checks of the verified statement against the agent
  unfoldable pub statement_matches : WorkloadIdentityStatement → AgentDescriptor → Result (Unit {0})
  statement_matches statement agent = do
    raise_if (statement.institution_id != agent.institution_id)
        (identity_binding_error "workload institution does not match registered agent")
    raise_if (statement.agent_id != agent.agent_id)
        (identity_binding_error "workload agent id does not match registered agent")
    raise_if (statement.human_owner_id != agent.human_owner_id)
        (identity_binding_error "workload human owner does not match registered agent")
    raise_if
        (statement.model_provider != agent.model_provider || statement.model_id != agent.model_id)
        (identity_binding_error "workload model identity does not match registered agent")

  -- the record that is built once every check has passed
  unfoldable pub identity_record :
      AgentDescriptor
      → HumanIdentityAssertion
      → SignedWorkloadIdentity
      → WorkloadIdentityStatement
      → String
      → ℕ
      → AuthenticatedAgentIdentity
  identity_record agent human workload statement established_at valid_until = record {
    institution_id = agent.institution_id;
    agent_id = agent.agent_id;
    human_owner_id = agent.human_owner_id;
    provider_id = human.provider_id;
    workload_id = statement.workload_id;
    agent_descriptor_digest = digest_artifact (AgentDescriptor.encode agent);
    human_identity_digest = HumanIdentityAssertion.artifact_digest human;
    workload_identity_digest = SignedWorkloadIdentity.artifact_digest workload;
    established_at = established_at;
    valid_until = binding_timestamp valid_until;
    schema_version = "regagentops.authenticated-agent-identity.v1";
  }

  -- the checks of the human identity; its end
  unfoldable pub human_valid_until :
      AgentDescriptor → HumanIdentityAssertion → String → ℕ → Result ℕ
  human_valid_until agent human at now = do
    raise_if (human.institution_id != agent.institution_id)
        (identity_binding_error "human identity institution does not match registered agent")
    raise_if (human.human_owner_id != agent.human_owner_id)
        (identity_binding_error "human identity owner does not match registered agent")
    human_issued ← workload_time human.issued_at
    human_expires ← workload_time human.expires_at
    let invalid = identity_binding_error "human identity is not valid at context establishment time"
    raise_if_less at human.issued_at now human_issued invalid
    raise_unless_less at human.expires_at now human_expires invalid
    ok human_expires

  -- `min` of two times
  abbrev pub earlier : ℕ → ℕ → ℕ
  earlier a b = if leb a b then a else b

  -- What follows the verification of the workload. The times have been compared with `now` by then:
  -- either none of them is naive, or all are.
  unfoldable pub bind_identity :
      AgentDescriptor
      → HumanIdentityAssertion
      → SignedWorkloadIdentity
      → WorkloadIdentityStatement
      → String
      → ℕ
      → ℕ
      → Result AuthenticatedAgentIdentity
  bind_identity agent human workload statement established_at now human_expires = do
    statement_matches statement agent
    workload_expires ← workload_time statement.expires_at
    let valid_until = earlier human_expires workload_expires
    raise_if (leb valid_until now)
        (identity_binding_error "authenticated agent context would already be expired")
    let identity = identity_record agent human workload statement established_at valid_until
    AuthenticatedAgentIdentity.post_init identity
    ok identity

  unfoldable pub establish_authenticated_agent_identity :
      AgentDescriptor
      → HumanIdentityAssertion
      → SignedWorkloadIdentity
      → WorkloadIdentityTrustBundle
      → String
      → Result AuthenticatedAgentIdentity
  establish_authenticated_agent_identity agent human workload trust_bundle established_at = do
    now ← workload_time established_at
    human_expires ← human_valid_until agent human established_at now
    statement ← verify_workload_identity workload trust_bundle established_at
    bind_identity agent human workload statement established_at now human_expires
