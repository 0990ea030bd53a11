-- ===== src/Tenants/Registry/Pinned.antt =====
-- What every sequence of registrations keeps: contiguous versions, and profiles of policies that the
-- registry holds.
use reg_agent_ops.Base.Versioned
use reg_agent_ops.Tenants.PostgresRlsPolicy
use reg_agent_ops.Tenants.TenantIsolationProfile
use reg_agent_ops.Approval.Checks.{digests}
use reg_agent_ops.Base.{
  >>-eq-ok, All, All-map, All-snoc, List, String, [], any-append, arith, for_each, inl, inr, nat_eq,
  not, ok, raise_if, raise_if-ok, string_eq, texts_eq, true, unit_result, value_error, ◌&&◌, ◌++◌,
  ◌==◌, ◌∷◌, ◌≡◌,
}
use reg_agent_ops.Base.Versioned.Contiguity.{register-cases, registered-IsContiguous}
use reg_agent_ops.Models.DataClassification.{data_classification_eq}
use reg_agent_ops.Models.Decision.{decision_eq}
use reg_agent_ops.Models.Environment.{environment_eq}
use reg_agent_ops.Models.RiskTier.{risk_tier_eq}
use reg_agent_ops.Models.Value.{Platform}
use reg_agent_ops.Tenants.PostgresRlsPolicy.{PostgresRlsPolicy}
use reg_agent_ops.Tenants.Registry.{
  TenantIsolationRegistry, has_policy, policies_known, policy_conflict, policy_follows, policy_gap,
  policy_scope, policy_version, profile_conflict, profile_follows, profile_gap, profile_scope,
  profile_version, register_policy, register_profile,
}
use reg_agent_ops.Tenants.TenantIsolationProfile.{TenantIsolationProfile}

-- One call of an operation that adds to the registry.
pub data Registration : Type 0 where
  of_policy : PostgresRlsPolicy → Registration
  of_profile : TenantIsolationProfile → Registration

module _ ⦃p : Platform⦄ where
  -- the registry after the call, which an exception leaves as it is, and after several
  abbrev pub register_one : TenantIsolationRegistry → Registration → TenantIsolationRegistry
  register_one r (of_policy policy) = (register_policy r policy).1
  register_one r (of_profile profile) = (register_profile r profile).1

  abbrev pub register_each : TenantIsolationRegistry → List Registration → TenantIsolationRegistry
  register_each r [] = r
  register_each r (x ∷ rest) = register_each (register_one r x) rest

  -- Every policy that a profile names is one of its institution's.
  abbrev pub NamesKnown : List PostgresRlsPolicy → TenantIsolationProfile → Type 0
  NamesKnown policies profile =
      All (λ digest. has_policy policies profile.institution_id digest ≡ true)
        profile.rls_policy_digests

  pub record IsIsolated (r : TenantIsolationRegistry) : Type 0 where
    pub policies_contiguous : Versioned.IsContiguous policy_scope policy_version r.policies
    pub profiles_contiguous : Versioned.IsContiguous profile_scope profile_version r.profiles
    pub policies_named : All (NamesKnown r.policies) r.profiles

  has_policy-append :
      (policies : List PostgresRlsPolicy) (policy : PostgresRlsPolicy)
      (institution_id digest : String)
      → has_policy policies institution_id digest ≡ true
      → has_policy (policies ++ policy ∷ []) institution_id digest ≡ true
  has_policy-append policies policy institution_id digest h = ground (
    arith,
    any-append
        (λ policy.
          policy.institution_id == institution_id
          && PostgresRlsPolicy.artifact_digest policy == digest)
        policies (policy ∷ []),
  )

  for_each-All :
      (policies : List PostgresRlsPolicy) (institution_id : String) (digests : List String)
      → for_each digests (λ digest.
        raise_if
          (not (has_policy policies institution_id digest))
          (value_error "unknown PostgreSQL RLS policy digest"))
        ≡ ok tt
      → All (λ digest. has_policy policies institution_id digest ≡ true) digests
  for_each-All policies institution_id [] h = tt
  for_each-All policies institution_id (digest ∷ digests) h =
      let (known, rest) =
        >>-eq-ok (raise_if (not (has_policy policies institution_id digest)) _) _ h in
      (ground (arith, raise_if-ok _ _ known), for_each-All policies institution_id digests rest)

  policies_known-NamesKnown :
      (r : TenantIsolationRegistry) (profile : TenantIsolationProfile)
      → policies_known r profile ≡ ok tt
      → NamesKnown r.policies profile
  unfolding policies_known
  policies_known-NamesKnown r profile =
      for_each-All r.policies profile.institution_id profile.rls_policy_digests

  module _ (r : TenantIsolationRegistry) (i : IsIsolated r) where
    register_policy-IsIsolated :
        (policy : PostgresRlsPolicy) → IsIsolated (register_policy r policy).1
    unfolding register_policy
    register_policy-IsIsolated policy = record {
      policies_contiguous =
          registered-IsContiguous policy_scope policy_version PostgresRlsPolicy.artifact_digest
            policy_conflict policy_gap policy_follows r.policies policy i.policies_contiguous;
      profiles_contiguous = i.profiles_contiguous;
      policies_named =
          elim (register-cases policy_scope policy_version PostgresRlsPolicy.artifact_digest
            policy_conflict policy_gap policy_follows r.policies policy) [
              | inl same ↦ rw same i.policies_named
              | inr (grown, _, _) ↦ rw grown (
                  All-map
                    (λ profile named.
                      All-map
                        (λ digest h.
                          has_policy-append r.policies policy profile.institution_id digest h)
                        profile.rls_policy_digests named)
                    r.profiles i.policies_named)
            ];
    }

    register_profile-IsIsolated :
        (profile : TenantIsolationProfile) → IsIsolated (register_profile r profile).1
    unfolding register_profile
    register_profile-IsIsolated profile = elim (unit_result (policies_known r profile)) [
      | inr (e, unknown) ↦ rw (unknown, register_profile) i
      | inl known ↦
          rw (known, register_profile)
            (record {
              policies_contiguous = i.policies_contiguous;
              profiles_contiguous =
                  registered-IsContiguous profile_scope profile_version
                    TenantIsolationProfile.artifact_digest profile_conflict profile_gap
                    profile_follows r.profiles profile i.profiles_contiguous;
              policies_named =
                  elim (register-cases profile_scope profile_version
                    TenantIsolationProfile.artifact_digest profile_conflict profile_gap
                    profile_follows r.profiles profile) [
                      | inl same ↦ rw same i.policies_named
                      | inr (grown, _, _) ↦ rw grown (
                          All-snoc (NamesKnown r.policies) r.profiles profile i.policies_named
                            (policies_known-NamesKnown r profile known))
                    ];
            })
    ]

  -- From a registry with contiguous versions, whose profiles name policies that it holds, such as the
  -- empty one, every sequence of registrations, accepted or refused, leads to such a registry: the
  -- versions of every policy and of every tenant's profile are contiguous from 1, and every policy
  -- digest of a profile is that of a policy of the same institution.
  pub register_each-IsIsolated :
      (r : TenantIsolationRegistry) (registrations : List Registration)
      → IsIsolated r
      → IsIsolated (register_each r registrations)
  register_each-IsIsolated r [] i = i
  register_each-IsIsolated r (of_policy policy ∷ rest) i =
      register_each-IsIsolated (register_policy r policy).1 rest
        (register_policy-IsIsolated r i policy)
  register_each-IsIsolated r (of_profile profile ∷ rest) i =
      register_each-IsIsolated (register_profile r profile).1 rest
        (register_profile-IsIsolated r i profile)
