-- ===== src/Tenants/PostgresRlsPolicy.antt =====
-- hardening.py: `PostgresRlsPolicy`, with `__post_init__` as `post_init`.
use reg_agent_ops.Base.{
  Bool, Result, String, [], nat_eq, not, raise_if, string_eq, texts_eq, value_error, ℕ, ◌+++◌, ◌==◌,
  ◌>>◌, ◌∷◌,
}
use reg_agent_ops.Models.Checks.{require_positive, require_texts, require_utc_timestamp}
use reg_agent_ops.Models.DataClassification.{data_classification_eq}
use reg_agent_ops.Models.Decision.{decision_eq}
use reg_agent_ops.Models.Environment.{environment_eq}
use reg_agent_ops.Models.RiskTier.{risk_tier_eq}
use reg_agent_ops.Models.Value.{Platform, Value, dict, digest_artifact, flag, num, text}
use reg_agent_ops.Tenants.Checks.{require_setting, require_sql_identifier}

pub record PostgresRlsPolicy : Type 0 where
  pub institution_id : String
  pub policy_id : String
  pub policy_version : ℕ
  pub table_name : String
  pub policy_name : String
  pub institution_column : String
  pub tenant_column : String
  pub institution_setting : String
  pub tenant_setting : String
  pub force_row_level_security : Bool
  pub registered_at : String
  pub schema_version : String

-- `asdict`, with the members of enumerations as their values
unfoldable pub encode : PostgresRlsPolicy → Value
encode r = dict (
    ("institution_id", text r.institution_id)
    ∷ ("policy_id", text r.policy_id)
    ∷ ("policy_version", num r.policy_version)
    ∷ ("table_name", text r.table_name)
    ∷ ("policy_name", text r.policy_name)
    ∷ ("institution_column", text r.institution_column)
    ∷ ("tenant_column", text r.tenant_column)
    ∷ ("institution_setting", text r.institution_setting)
    ∷ ("tenant_setting", text r.tenant_setting)
    ∷ ("force_row_level_security", flag r.force_row_level_security)
    ∷ ("registered_at", text r.registered_at)
    ∷ ("schema_version", text r.schema_version)
    ∷ [])

-- the condition on a row
unfoldable pub predicate : PostgresRlsPolicy → String
predicate r =
    r.institution_column +++ " = current_setting('" +++ r.institution_setting +++ "', true) AND "
    +++ r.tenant_column +++ " = current_setting('" +++ r.tenant_setting +++ "', true)"

-- `render_postgres_rls_sql`
unfoldable pub render_postgres_rls_sql : PostgresRlsPolicy → String
render_postgres_rls_sql r =
    "ALTER TABLE "
    +++ r.table_name
    +++ " ENABLE ROW LEVEL SECURITY;\n"
    +++ "ALTER TABLE "
    +++ r.table_name
    +++ " FORCE ROW LEVEL SECURITY;\n"
    +++ "CREATE POLICY "
    +++ r.policy_name
    +++ " ON "
    +++ r.table_name
    +++ "\n"
    +++ "USING ("
    +++ predicate r
    +++ ")\n"
    +++ "WITH CHECK ("
    +++ predicate r
    +++ ");"

module _ ⦃p : Platform⦄ where
  unfoldable pub artifact_digest : PostgresRlsPolicy → String
  artifact_digest r = digest_artifact (encode r)

  unfoldable pub post_init : PostgresRlsPolicy → Result (Unit {0})
  post_init r = do
    require_texts (
        ("institution_id", r.institution_id)
        ∷ ("policy_id", r.policy_id)
        ∷ ("schema_version", r.schema_version)
        ∷ [])
    require_positive "policy_version" r.policy_version
    require_sql_identifier "table_name" r.table_name
    require_sql_identifier "policy_name" r.policy_name
    require_sql_identifier "institution_column" r.institution_column
    require_sql_identifier "tenant_column" r.tenant_column
    require_setting "institution_setting" r.institution_setting
    require_setting "tenant_setting" r.tenant_setting
    raise_if (r.institution_setting == r.tenant_setting)
        (value_error "institution and tenant session settings must be distinct")
    raise_if (r.institution_column == r.tenant_column)
        (value_error "institution and tenant RLS columns must be distinct")
    raise_if (not r.force_row_level_security)
        (value_error "v0.8 PostgreSQL RLS reference policies must force row level security")
    require_utc_timestamp "registered_at" r.registered_at
