-- ===== src/Examples/Hardening.antt =====
-- A tenant's registries, with their first anchor, policy and profile.
use reg_agent_ops.Anchors.AuditAnchorBatch
use reg_agent_ops.Base.Versioned
use reg_agent_ops.Keys.InstitutionCryptoKeyReference
use reg_agent_ops.Tenants.PostgresRlsPolicy
use reg_agent_ops.Anchors.AuditAnchorBatch.{AuditAnchorBatch}
use reg_agent_ops.Anchors.ExternalAuditAnchorReceipt.{ExternalAuditAnchorReceipt}
use reg_agent_ops.Anchors.Registry.{AuditAnchorRegistry}
use reg_agent_ops.Anchors.Registry.Chain.{Anchoring, IsAnchored, anchor_all, anchor_all-IsAnchored}
use reg_agent_ops.Base.{[], none, refl, some, true, ◌∷◌}
use reg_agent_ops.Changes.ConfigurationChangeRequest.{ConfigurationChangeRequest}
use reg_agent_ops.Changes.Registry.{ConfigurationChangeRegistry, latest_digest}
use reg_agent_ops.Changes.Registry.Chain.{
  ChangeAttempt, IsHistory, append_each, append_each-IsHistory,
}
use reg_agent_ops.Changes.Signature.{configuration_change_signing_document}
use reg_agent_ops.Changes.SignedConfigurationChange.{SignedConfigurationChange}
use reg_agent_ops.Examples.Clock.{example_platform, odd_digest}
use reg_agent_ops.Keys.CryptoAlgorithm.{CryptoAlgorithm}
use reg_agent_ops.Keys.CryptoKeyCustody.{CryptoKeyCustody}
use reg_agent_ops.Keys.CryptoKeyPurpose.{CryptoKeyPurpose}
use reg_agent_ops.Keys.CryptoKeyStatus.{CryptoKeyStatus}
use reg_agent_ops.Keys.InstitutionCryptoKeyReference.{InstitutionCryptoKeyReference}
use reg_agent_ops.Keys.Registry.{InstitutionCryptoKeyRegistry, initial_state}
use reg_agent_ops.Models.Environment.{Environment}
use reg_agent_ops.Models.Value.{digest_artifact}
use reg_agent_ops.Tenants.PostgresRlsPolicy.{PostgresRlsPolicy}
use reg_agent_ops.Tenants.Registry.{TenantIsolationRegistry}
use reg_agent_ops.Tenants.Registry.Pinned.{
  IsIsolated, Registration, register_each, register_each-IsIsolated,
}
use reg_agent_ops.Tenants.TenantIsolationProfile.{TenantIsolationProfile}

abbrev no_anchors : AuditAnchorRegistry
no_anchors = record { records = [] }

no_anchors-IsAnchored : IsAnchored no_anchors
unfolding Versioned.history
no_anchors-IsAnchored = record { ordered = record { in_order = λ key. tt }; linked = λ scope. tt }

abbrev first_batch : AuditAnchorBatch
first_batch = record {
  batch_id = "batch";
  institution_id = "bank";
  tenant_id = "tenant";
  sequence = 1;
  previous_anchor_record_digest = none;
  evidence_artifact_digests = odd_digest ∷ [];
  assembled_at = "2026-01-01T00:00:00Z";
  schema_version = "regagentops.audit-anchor-batch.v1";
}

abbrev first_receipt : ExternalAuditAnchorReceipt
first_receipt = record {
  institution_id = "bank";
  tenant_id = "tenant";
  batch_digest = AuditAnchorBatch.artifact_digest first_batch;
  provider_id = "provider";
  anchor_id = "anchor";
  provider_receipt_digest = odd_digest;
  anchored_at = "2026-01-01T00:01:00Z";
  schema_version = "regagentops.external-audit-anchor-receipt.v1";
}

abbrev first_anchoring : Anchoring
first_anchoring = record {
  batch = first_batch;
  receipt = first_receipt;
  recorded_at = "2026-01-01T00:02:00Z";
}

anchor_all-IsAnchored_example : IsAnchored (anchor_all no_anchors (first_anchoring ∷ []))
anchor_all-IsAnchored_example =
    anchor_all-IsAnchored no_anchors (first_anchoring ∷ []) no_anchors-IsAnchored

abbrev no_tenants : TenantIsolationRegistry
no_tenants = record { policies = []; profiles = [] }

no_tenants-IsIsolated : IsIsolated no_tenants
no_tenants-IsIsolated = record {
  policies_contiguous = record { in_order = λ key. tt };
  profiles_contiguous = record { in_order = λ key. tt };
  policies_named = tt;
}

abbrev rls_policy : PostgresRlsPolicy
rls_policy = record {
  institution_id = "bank";
  policy_id = "rows";
  policy_version = 1;
  table_name = "evidence";
  policy_name = "tenant_rows";
  institution_column = "institution_id";
  tenant_column = "tenant_id";
  institution_setting = "regagentops.institution_id";
  tenant_setting = "regagentops.tenant_id";
  force_row_level_security = true;
  registered_at = "2026-01-01T00:00:00Z";
  schema_version = "regagentops.postgres-rls-policy.v1";
}

abbrev profile : TenantIsolationProfile
profile = record {
  institution_id = "bank";
  tenant_id = "tenant";
  profile_version = 1;
  environment = Environment.production;
  database_role = "agent_role";
  rls_policy_digests = PostgresRlsPolicy.artifact_digest rls_policy ∷ [];
  registered_at = "2026-01-01T00:01:00Z";
  schema_version = "regagentops.tenant-isolation-profile.v1";
}

register_each-IsIsolated_example : IsIsolated (
    register_each no_tenants
      (Registration.of_policy rls_policy ∷ Registration.of_profile profile ∷ []))
register_each-IsIsolated_example =
    register_each-IsIsolated no_tenants
      (Registration.of_policy rls_policy ∷ Registration.of_profile profile ∷ [])
      no_tenants-IsIsolated

abbrev no_changes : ConfigurationChangeRegistry
no_changes = record { changes = []; latest_object_digest = [] }

no_changes-IsHistory : IsHistory no_changes
unfolding Versioned.history latest_digest
no_changes-IsHistory = record {
  chained = record { ordered = record { in_order = λ key. tt }; linked = λ scope. tt };
  inherited = λ key. tt;
  latest = λ key. refl;
}

abbrev config_key : InstitutionCryptoKeyReference
config_key = record {
  institution_id = "bank";
  tenant_id = "tenant";
  purpose = CryptoKeyPurpose.config_signing;
  key_version = 1;
  key_id = "key";
  custody = CryptoKeyCustody.hsm;
  algorithm = CryptoAlgorithm.ed25519;
  public_key_base64url = some "PUBLIC";
  status = CryptoKeyStatus.active;
  not_before = "2026-01-01T00:00:00Z";
  not_after = "2026-01-01T00:09:00Z";
  registered_at = "2026-01-01T00:00:00Z";
  schema_version = "regagentops.institution-crypto-key-reference.v1";
}

abbrev config_keys : InstitutionCryptoKeyRegistry
config_keys = record { keys = config_key ∷ []; states = initial_state config_key ∷ [] }

abbrev change_request : ConfigurationChangeRequest
change_request = record {
  change_id = "change";
  institution_id = "bank";
  tenant_id = "tenant";
  sequence = 1;
  object_type = "policy";
  object_id = "limits";
  previous_configuration_digest = none;
  proposed_configuration_digest = odd_digest;
  change_reason_digest = odd_digest;
  requested_by_human_id = "human";
  requested_at = "2026-01-01T00:00:00Z";
  effective_at = "2026-01-01T00:02:00Z";
  schema_version = "regagentops.configuration-change-request.v1";
}

abbrev signed_change : SignedConfigurationChange
signed_change = record {
  request = change_request;
  previous_change_digest = none;
  key_reference_digest = InstitutionCryptoKeyReference.artifact_digest config_key;
  key_id = "key";
  key_version = 1;
  algorithm = "Ed25519";
  signed_at = "2026-01-01T00:01:00Z";
  signature_base64url = "SIGNATURE";
  signing_document_digest = digest_artifact (
      configuration_change_signing_document change_request none
        (InstitutionCryptoKeyReference.artifact_digest config_key) "key" 1 "Ed25519"
        "2026-01-01T00:01:00Z");
  schema_version = "regagentops.signed-configuration-change.v1";
}

abbrev change_attempt : ChangeAttempt
change_attempt = record { signed = signed_change; keys = config_keys; now = "2026-01-01T00:03:00Z" }

append_each-IsHistory_example : IsHistory (append_each no_changes (change_attempt ∷ []))
append_each-IsHistory_example =
    append_each-IsHistory no_changes (change_attempt ∷ []) no_changes-IsHistory
