-- ===== src/Identity/WorkloadIdentityStatement.antt =====
-- identity_models.py: `WorkloadIdentityStatement`, with `__post_init__` as `post_init`.
use reg_agent_ops.Base.{Result, String, [], ltb, raise_if, value_error, ◌*◌, ◌>>=◌, ◌>>◌, ◌∷◌}
use reg_agent_ops.Identity.Checks.{identifiers, interval}
use reg_agent_ops.Models.Checks.{require_digest}
use reg_agent_ops.Models.Value.{Platform, Value, dict, digest_artifact, text}

pub record WorkloadIdentityStatement : Type 0 where
  pub institution_id : String
  pub agent_id : String
  pub human_owner_id : String
  pub model_provider : String
  pub model_id : String
  pub workload_id : String
  pub challenge_digest : String
  pub issued_at : String
  pub expires_at : String
  pub schema_version : String

-- `asdict`, with the members of enumerations as their values
unfoldable pub encode : WorkloadIdentityStatement → Value
encode r = dict (
    ("institution_id", text r.institution_id)
    ∷ ("agent_id", text r.agent_id)
    ∷ ("human_owner_id", text r.human_owner_id)
    ∷ ("model_provider", text r.model_provider)
    ∷ ("model_id", text r.model_id)
    ∷ ("workload_id", text r.workload_id)
    ∷ ("challenge_digest", text r.challenge_digest)
    ∷ ("issued_at", text r.issued_at)
    ∷ ("expires_at", text r.expires_at)
    ∷ ("schema_version", text r.schema_version)
    ∷ [])

module _ ⦃p : Platform⦄ where
  unfoldable pub artifact_digest : WorkloadIdentityStatement → String
  artifact_digest r = digest_artifact (encode r)

  unfoldable pub post_init : WorkloadIdentityStatement → Result (Unit {0})
  post_init r = do
    identifiers (
        ("institution_id", r.institution_id)
        ∷ ("agent_id", r.agent_id)
        ∷ ("human_owner_id", r.human_owner_id)
        ∷ ("model_provider", r.model_provider)
        ∷ ("model_id", r.model_id)
        ∷ ("workload_id", r.workload_id)
        ∷ [])
    require_digest "challenge_digest" r.challenge_digest
    lifetime ← interval "issued_at" r.issued_at "expires_at" r.expires_at
    raise_if (ltb (900 * 1000000) lifetime)
        (value_error "workload identity lifetime must not exceed 900 seconds")
