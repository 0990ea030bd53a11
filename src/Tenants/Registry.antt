-- ===== src/Tenants/Registry.antt =====
-- hardening.py, `TenantIsolationRegistry`: policies and profiles, in the order of insertion.
pub mod Pinned
use reg_agent_ops.Base.Versioned
use reg_agent_ops.Tenants.PostgresRlsPolicy
use reg_agent_ops.Tenants.TenantIsolationProfile
use reg_agent_ops.Base.{
  Bool, Error, List, Result, String, [], any, decimal, err, for_each, last?, nat_eq, none, not, ok,
  raise_if, some, string_eq, texts_eq, value_error, ℕ, ◌&&◌, ◌+++◌, ◌==◌, ◌>>=◌, ◌>>◌, ◌∷◌,
}
use reg_agent_ops.Models.Checks.{or_raise, raise_if_less, utc_timestamp}
use reg_agent_ops.Models.DataClassification.{data_classification_eq}
use reg_agent_ops.Models.Decision.{decision_eq}
use reg_agent_ops.Models.Environment.{environment_eq}
use reg_agent_ops.Models.RiskTier.{risk_tier_eq}
use reg_agent_ops.Models.Value.{Platform, dict, digest_artifact, text, texts}
use reg_agent_ops.Tenants.PostgresRlsPolicy.{PostgresRlsPolicy}
use reg_agent_ops.Tenants.TenantIsolationProfile.{TenantIsolationProfile}

pub record TenantIsolationRegistry : Type 0 where
  pub policies : List PostgresRlsPolicy
  pub profiles : List TenantIsolationProfile

abbrev pub policy_scope : PostgresRlsPolicy → List String
policy_scope policy = policy.institution_id ∷ policy.policy_id ∷ []

abbrev pub policy_version : PostgresRlsPolicy → ℕ
policy_version policy = policy.policy_version

abbrev pub profile_scope : TenantIsolationProfile → List String
profile_scope profile = profile.institution_id ∷ profile.tenant_id ∷ []

abbrev pub profile_version : TenantIsolationProfile → ℕ
profile_version profile = profile.profile_version

-- `policy_history`, `profile_history`
unfoldable pub policy_history : TenantIsolationRegistry → String → String → List PostgresRlsPolicy
unfolding Versioned.history
policy_history r institution_id policy_id =
    Versioned.history policy_scope policy_version r.policies (institution_id ∷ policy_id ∷ [])

unfoldable pub profile_history :
    TenantIsolationRegistry → String → String → List TenantIsolationProfile
unfolding Versioned.history
profile_history r institution_id tenant_id =
    Versioned.history profile_scope profile_version r.profiles (institution_id ∷ tenant_id ∷ [])

unfoldable pub current_profile :
    TenantIsolationRegistry → String → String → Result TenantIsolationProfile
current_profile r institution_id tenant_id =
    or_raise (last? (profile_history r institution_id tenant_id))
      (value_error "tenant isolation profile is not registered")

abbrev pub policy_conflict : Error
policy_conflict = value_error "RLS policy identity/version already exists with different content"

abbrev pub policy_gap : ℕ → Error
policy_gap expected =
    value_error ("RLS policy_version must be contiguous; expected version " +++ decimal expected)

abbrev pub profile_conflict : Error
profile_conflict =
    value_error "tenant isolation profile identity/version already exists with different content"

abbrev pub profile_gap : ℕ → Error
profile_gap expected =
    value_error (
      "tenant isolation profile_version must be contiguous; expected version " +++ decimal expected)

module _ ⦃p : Platform⦄ where
  -- a new version may not predate the last one of its history
  unfoldable pub policy_follows : List PostgresRlsPolicy → PostgresRlsPolicy → Result (Unit {0})
  policy_follows past policy = elim (last? past) [
    | none ↦ ok tt
    | some previous ↦ (do
      at ← utc_timestamp "registered_at" policy.registered_at
      previous_at ← utc_timestamp "previous registered_at" previous.registered_at
      raise_if_less policy.registered_at previous.registered_at at previous_at
          (value_error "new RLS policy cannot predate the previous version"))
  ]

  unfoldable pub profile_follows :
      List TenantIsolationProfile → TenantIsolationProfile → Result (Unit {0})
  profile_follows past profile = elim (last? past) [
    | none ↦ ok tt
    | some previous ↦ (do
      at ← utc_timestamp "registered_at" profile.registered_at
      previous_at ← utc_timestamp "previous registered_at" previous.registered_at
      raise_if_less profile.registered_at previous.registered_at at previous_at
          (value_error "new tenant isolation profile cannot predate the previous version"))
  ]

  unfoldable pub register_policy :
      TenantIsolationRegistry → PostgresRlsPolicy → Result String × TenantIsolationRegistry
  unfolding Versioned.register Versioned.history
  register_policy r policy =
      let (digest, policies) =
        Versioned.register policy_scope policy_version PostgresRlsPolicy.artifact_digest
          policy_conflict policy_gap policy_follows r.policies policy in
      (digest, record r { policies = policies })

  -- whether `_policy_by_digest` finds a policy
  abbrev pub has_policy : List PostgresRlsPolicy → String → String → Bool
  has_policy policies institution_id digest =
      any
        (λ policy.
          policy.institution_id == institution_id
          && PostgresRlsPolicy.artifact_digest policy == digest)
        policies

  -- the loop that begins `register_profile`
  unfoldable pub policies_known :
      TenantIsolationRegistry → TenantIsolationProfile → Result (Unit {0})
  policies_known r profile = for_each profile.rls_policy_digests (λ digest.
      raise_if (not (has_policy r.policies profile.institution_id digest))
        (value_error "unknown PostgreSQL RLS policy digest"))

  unfoldable pub register_profile :
      TenantIsolationRegistry → TenantIsolationProfile → Result String × TenantIsolationRegistry
  unfolding Versioned.register Versioned.history
  register_profile r profile = elim (policies_known r profile) [
    | err e ↦ (err e, r)
    | ok _ ↦
        let (digest, profiles) =
          Versioned.register profile_scope profile_version TenantIsolationProfile.artifact_digest
            profile_conflict profile_gap profile_follows r.profiles profile in
        (digest, record r { profiles = profiles })
  ]

  -- `snapshot_digest`
  unfoldable pub tenant_snapshot_digest : TenantIsolationRegistry → String → String → Result String
  tenant_snapshot_digest r institution_id tenant_id = do
    profile ← current_profile r institution_id tenant_id
    ok (
        digest_artifact (
          dict (
            ("institution_id", text institution_id)
            ∷ ("tenant_id", text tenant_id)
            ∷ ("profile_digest", text (TenantIsolationProfile.artifact_digest profile))
            ∷ ("rls_policy_digests", texts profile.rls_policy_digests)
            ∷ [])))
