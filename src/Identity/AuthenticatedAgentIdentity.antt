-- ===== src/Identity/AuthenticatedAgentIdentity.antt =====
-- identity_models.py: `AuthenticatedAgentIdentity`, with `__post_init__` as `post_init`.
use reg_agent_ops.Base.{Result, String, [], ok, ◌>>=◌, ◌>>◌, ◌∷◌}
use reg_agent_ops.Identity.Checks.{identifiers, interval}
use reg_agent_ops.Models.Checks.{require_digests}
use reg_agent_ops.Models.Value.{Platform, Value, dict, digest_artifact, text}

pub record AuthenticatedAgentIdentity : Type 0 where
  pub institution_id : String
  pub agent_id : String
  pub human_owner_id : String
  pub provider_id : String
  pub workload_id : String
  pub agent_descriptor_digest : String
  pub human_identity_digest : String
  pub workload_identity_digest : String
  pub established_at : String
  pub valid_until : String
  pub schema_version : String

-- `asdict`, with the members of enumerations as their values
unfoldable pub encode : AuthenticatedAgentIdentity → Value
encode r = dict (
    ("institution_id", text r.institution_id)
    ∷ ("agent_id", text r.agent_id)
    ∷ ("human_owner_id", text r.human_owner_id)
    ∷ ("provider_id", text r.provider_id)
    ∷ ("workload_id", text r.workload_id)
    ∷ ("agent_descriptor_digest", text r.agent_descriptor_digest)
    ∷ ("human_identity_digest", text r.human_identity_digest)
    ∷ ("workload_identity_digest", text r.workload_identity_digest)
    ∷ ("established_at", text r.established_at)
    ∷ ("valid_until", text r.valid_until)
    ∷ ("schema_version", text r.schema_version)
    ∷ [])

module _ ⦃p : Platform⦄ where
  unfoldable pub artifact_digest : AuthenticatedAgentIdentity → String
  artifact_digest r = digest_artifact (encode r)

  unfoldable pub post_init : AuthenticatedAgentIdentity → Result (Unit {0})
  post_init r = do
    identifiers (
        ("institution_id", r.institution_id)
        ∷ ("agent_id", r.agent_id)
        ∷ ("human_owner_id", r.human_owner_id)
        ∷ ("provider_id", r.provider_id)
        ∷ ("workload_id", r.workload_id)
        ∷ [])
    require_digests (
        ("agent_descriptor_digest", r.agent_descriptor_digest)
        ∷ ("human_identity_digest", r.human_identity_digest)
        ∷ ("workload_identity_digest", r.workload_identity_digest)
        ∷ [])
    lifetime ← interval "established_at" r.established_at "valid_until" r.valid_until
    ok tt
