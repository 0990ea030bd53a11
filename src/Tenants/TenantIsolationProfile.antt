-- ===== src/Tenants/TenantIsolationProfile.antt =====
-- hardening.py: `TenantIsolationProfile`, with `__post_init__` as `post_init`.
use reg_agent_ops.Models.Environment
use reg_agent_ops.Anchors.AuditAnchorBatch.{require_sorted_digests}
use reg_agent_ops.Base.{List, Result, String, [], ℕ, ◌>>◌, ◌∷◌}
use reg_agent_ops.Models.Checks.{require_positive, require_texts, require_utc_timestamp}
use reg_agent_ops.Models.Environment.{Environment}
use reg_agent_ops.Models.Value.{Platform, Value, dict, digest_artifact, num, text, texts}
use reg_agent_ops.Tenants.Checks.{require_sql_identifier}

pub record TenantIsolationProfile : Type 0 where
  pub institution_id : String
  pub tenant_id : String
  pub profile_version : ℕ
  pub environment : Environment
  pub database_role : String
  pub rls_policy_digests : List String
  pub registered_at : String
  pub schema_version : String

-- `asdict`, with the members of enumerations as their values
unfoldable pub encode : TenantIsolationProfile → Value
encode r = dict (
    ("institution_id", text r.institution_id)
    ∷ ("tenant_id", text r.tenant_id)
    ∷ ("profile_version", num r.profile_version)
    ∷ ("environment", text (Environment.value r.environment))
    ∷ ("database_role", text r.database_role)
    ∷ ("rls_policy_digests", texts r.rls_policy_digests)
    ∷ ("registered_at", text r.registered_at)
    ∷ ("schema_version", text r.schema_version)
    ∷ [])

module _ ⦃p : Platform⦄ where
  unfoldable pub artifact_digest : TenantIsolationProfile → String
  artifact_digest r = digest_artifact (encode r)

  unfoldable pub post_init : TenantIsolationProfile → Result (Unit {0})
  post_init r = do
    require_texts (
        ("institution_id", r.institution_id)
        ∷ ("tenant_id", r.tenant_id)
        ∷ ("schema_version", r.schema_version)
        ∷ [])
    require_positive "profile_version" r.profile_version
    require_sql_identifier "database_role" r.database_role
    require_sorted_digests "rls_policy_digests" r.rls_policy_digests
    require_utc_timestamp "registered_at" r.registered_at
