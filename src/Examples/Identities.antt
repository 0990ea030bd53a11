-- ===== src/Examples/Identities.antt =====
-- An owner and a workload whose statement is signed, the agent identity that they establish, and the
-- engine behind it.
use reg_agent_ops.Identity.AuthenticatedAgentIdentity
use reg_agent_ops.Identity.HumanIdentityAssertion
use reg_agent_ops.Identity.SignedAuthenticatedAgentIdentity
use reg_agent_ops.Identity.SignedWorkloadIdentity
use reg_agent_ops.Identity.WorkloadIdentityStatement
use reg_agent_ops.Identity.WorkloadIdentityTrustKey
use reg_agent_ops.Models.AgentDescriptor
use reg_agent_ops.Policy.PolicyBundle
use reg_agent_ops.Policy.PolicyRule
use reg_agent_ops.Registry.AgentRegistry
use reg_agent_ops.Approval.Checks.{parse_with}
use reg_agent_ops.Base.{
  All, String, [], codes, contains_code, drop_last, ends_with_z, false, is_blank, is_hex, is_hex_64,
  is_space, len, none, ok, refl, replace_skip, true, utc_suffix, ℕ, ◌+◌, ◌<◌, ◌∷◌, ◌≡◌, ◌≤◌,
}
use reg_agent_ops.Base.Sort.{text_le}
use reg_agent_ops.Examples.Clock.{
  clock, even_digest, example_platform, example_platform-HexDigests, first_of_fields, first_text,
  odd_digest, parity_digest,
}
use reg_agent_ops.Examples.Requests.{approving, engine, request}
use reg_agent_ops.Identity.AuthenticatedAgentIdentity.{AuthenticatedAgentIdentity}
use reg_agent_ops.Identity.Binding.{
  bind_identity, binding_timestamp, establish_authenticated_agent_identity, human_valid_until,
  identity_record, statement_matches,
}
use reg_agent_ops.Identity.Binding.Bounds.{establish-bounded, max_workload_lifetime}
use reg_agent_ops.Identity.Binding.Established.{IsEstablished, establish-IsEstablished}
use reg_agent_ops.Identity.Checks.{
  aware_timestamp, b64url, identifier, identifiers, interval, is_identifier,
}
use reg_agent_ops.Identity.Context.{
  authenticated_identity_signing_document, context_time, verify_context_with_key,
  verify_signed_authenticated_agent_identity,
}
use reg_agent_ops.Identity.Context.Verified.{
  IsVerifiedContext, verify_signed_authenticated_agent_identity-IsVerifiedContext,
}
use reg_agent_ops.Identity.Ed25519.{decode_b64url, signature_valid}
use reg_agent_ops.Identity.Ed25519.Trusted.{IsOnlyKey}
use reg_agent_ops.Identity.HumanIdentityAssertion.{HumanIdentityAssertion}
use reg_agent_ops.Identity.SignedAuthenticatedAgentIdentity.{SignedAuthenticatedAgentIdentity}
use reg_agent_ops.Identity.SignedWorkloadIdentity.{SignedWorkloadIdentity}
use reg_agent_ops.Identity.TrustKeyStatus.{TrustKeyStatus}
use reg_agent_ops.Identity.Workload.{
  verify_workload_identity, verify_workload_with_key, workload_signing_document, workload_time,
}
use reg_agent_ops.Identity.WorkloadIdentityStatement.{WorkloadIdentityStatement}
use reg_agent_ops.Identity.WorkloadIdentityTrustBundle.{WorkloadIdentityTrustBundle}
use reg_agent_ops.Identity.WorkloadIdentityTrustKey.{WorkloadIdentityTrustKey}
use reg_agent_ops.Models.AgentDescriptor.{AgentDescriptor}
use reg_agent_ops.Models.AuthenticatedAuthorizationDecision.{AuthenticatedAuthorizationDecision}
use reg_agent_ops.Models.Checks.{
  is_aware, less, raise_if_less, raise_unless_less, require_digest, require_digests,
  require_optional_digest, require_positive, require_text, require_texts, require_utc_timestamp,
  utc_timestamp,
}
use reg_agent_ops.Models.Value.{
  canonical, canonical_fields, canonical_items, canonical_json, digest_artifact, insert_field,
}
use reg_agent_ops.Policy.Authenticated.{
  AuthenticatedPolicyEngine, authenticated_record, evaluate_authenticated, signed_context,
}
use reg_agent_ops.Policy.Authenticated.Total.{
  evaluate_authenticated-agrees, evaluate_authenticated-returns,
}
use reg_agent_ops.Policy.Authenticated.Verified.{
  IsAuthenticated, IsDenied, IsRegisteredAgent, evaluate_authenticated-IsJustified,
}
use reg_agent_ops.Policy.Decides.{specified}
use reg_agent_ops.Policy.PolicyBundle.{PolicyBundle}
use reg_agent_ops.Policy.PolicyRule.{PolicyRule}
use reg_agent_ops.Policy.Precedence.{IsConsistent}
use reg_agent_ops.Registry.AgentRegistry.{AgentRegistry}

abbrev pub now : String
now = "2026-01-01T00:01:00Z"

abbrev trust_key : WorkloadIdentityTrustKey
trust_key = record {
  institution_id = "bank";
  key_id = "key";
  public_key_base64url = "abcdefghijklmnopqrstuvwxyzABCDEF";
  not_before = "2026-01-01T00:00:00Z";
  not_after = "2026-01-01T00:09:00Z";
  status = TrustKeyStatus.active;
  algorithm = "Ed25519";
}

abbrev pub trust : WorkloadIdentityTrustBundle
trust = record {
  institution_id = "bank";
  keys = trust_key ∷ [];
  schema_version = "regagentops.workload-identity-trust-bundle.v1";
}

abbrev human : HumanIdentityAssertion
human = record {
  institution_id = "bank";
  provider_id = "idp";
  human_owner_id = "owner";
  issuer = "https://idp";
  subject = "subject";
  audiences = "client" ∷ [];
  client_id = "client";
  key_id = "idp-key";
  algorithm = "EdDSA";
  token_digest = odd_digest;
  claims_digest = odd_digest;
  nonce_digest = odd_digest;
  jwks_digest = odd_digest;
  provider_config_digest = odd_digest;
  issued_at = "2026-01-01T00:00:00Z";
  expires_at = "2026-01-01T00:03:00Z";
  auth_time = none;
  acr = none;
  schema_version = "regagentops.human-identity-assertion.v1";
}

abbrev workload : SignedWorkloadIdentity
workload = record {
  statement = record {
    institution_id = "bank";
    agent_id = "agent";
    human_owner_id = "owner";
    model_provider = "provider";
    model_id = "model";
    workload_id = "workload";
    challenge_digest = odd_digest;
    issued_at = "2026-01-01T00:00:00Z";
    expires_at = "2026-01-01T00:09:00Z";
    schema_version = "regagentops.workload-identity-statement.v1";
  };
  key_id = "key";
  algorithm = "Ed25519";
  signature_base64url = even_digest;
  signing_document_digest = odd_digest;
  schema_version = "regagentops.signed-workload-identity.v1";
}

abbrev agent : AgentDescriptor
agent = record {
  institution_id = "bank";
  agent_id = "agent";
  human_owner_id = "owner";
  model_provider = "provider";
  model_id = "model";
  enabled = true;
}

-- valid from minute 1 until the owner's assertion ends
abbrev identity : AuthenticatedAgentIdentity
identity = record {
  institution_id = "bank";
  agent_id = "agent";
  human_owner_id = "owner";
  provider_id = "idp";
  workload_id = "workload";
  agent_descriptor_digest = odd_digest;
  human_identity_digest = even_digest;
  workload_identity_digest = odd_digest;
  established_at = now;
  valid_until = "2026-01-01T00:03:00Z";
  schema_version = "regagentops.authenticated-agent-identity.v1";
}

abbrev pub context : SignedAuthenticatedAgentIdentity
context = record {
  identity = identity;
  key_id = "key";
  algorithm = "Ed25519";
  signature_base64url = even_digest;
  signing_document_digest = odd_digest;
  schema_version = "regagentops.signed-authenticated-agent-identity.v1";
}

established : establish_authenticated_agent_identity agent human workload trust now ≡ ok identity
unfolding establish_authenticated_agent_identity human_valid_until workload_time
    verify_workload_identity verify_workload_with_key workload_signing_document
    WorkloadIdentityStatement.encode WorkloadIdentityStatement.artifact_digest signature_valid
    decode_b64url bind_identity statement_matches identity_record binding_timestamp utc_suffix
    replace_skip AgentDescriptor.encode HumanIdentityAssertion.encode
    HumanIdentityAssertion.artifact_digest SignedWorkloadIdentity.encode
    SignedWorkloadIdentity.artifact_digest AuthenticatedAgentIdentity.post_init interval
    aware_timestamp is_aware identifier identifiers is_identifier require_text require_texts
    utc_timestamp require_utc_timestamp require_digest require_digests require_optional_digest
    require_positive codes is_space is_blank len ends_with_z drop_last is_hex is_hex_64 clock
    first_text first_of_fields parity_digest canonical canonical_items canonical_fields insert_field
    text_le canonical_json digest_artifact raise_if_less raise_unless_less less
established = refl

establish-IsEstablished_example : IsEstablished agent human workload trust now identity
establish-IsEstablished_example = establish-IsEstablished agent human workload trust now established

statement-accepted : WorkloadIdentityStatement.post_init workload.statement ≡ ok tt
unfolding WorkloadIdentityStatement.post_init interval aware_timestamp is_aware identifier
    identifiers is_identifier require_text require_texts utc_timestamp require_utc_timestamp
    require_digest require_digests require_optional_digest require_positive codes is_space is_blank
    len ends_with_z drop_last is_hex is_hex_64 clock first_text first_of_fields parity_digest
    canonical canonical_items canonical_fields insert_field text_le canonical_json digest_artifact
    raise_if_less raise_unless_less less
statement-accepted = refl

establish-bounded_example :
    (from until : ℕ) × (workload_time now ≡ ok from)
    × (identity.valid_until ≡ binding_timestamp until)
    × (from < until)
    × (until ≤ from + max_workload_lifetime)
establish-bounded_example =
    establish-bounded agent human workload trust now statement-accepted established

pub context-verified : verify_signed_authenticated_agent_identity context trust now ≡ ok identity
unfolding verify_signed_authenticated_agent_identity verify_context_with_key context_time parse_with
    raise_if_less raise_unless_less less is_aware authenticated_identity_signing_document
    AuthenticatedAgentIdentity.encode AuthenticatedAgentIdentity.artifact_digest signature_valid
    decode_b64url codes is_space is_blank len ends_with_z drop_last is_hex is_hex_64 clock
    first_text first_of_fields parity_digest canonical canonical_items canonical_fields insert_field
    text_le canonical_json digest_artifact
context-verified = refl

verify_signed_authenticated_agent_identity-IsVerifiedContext_example :
    (key : WorkloadIdentityTrustKey) × IsOnlyKey trust context.key_id key
    × IsVerifiedContext key context now identity
verify_signed_authenticated_agent_identity-IsVerifiedContext_example =
    verify_signed_authenticated_agent_identity-IsVerifiedContext context trust now context-verified

abbrev pub behind_identity : AuthenticatedPolicyEngine
behind_identity = record { agents = engine.agents; base = engine }

pub now_valid : require_utc_timestamp "evaluated_at" now ≡ ok tt
unfolding require_utc_timestamp utc_timestamp require_text is_blank codes is_space len ends_with_z
    drop_last clock raise_if_less raise_unless_less less is_aware
now_valid = refl

approving-accepted : PolicyBundle.post_init approving ≡ ok tt
unfolding PolicyBundle.post_init is_blank codes is_space
approving-accepted = refl

rules-IsConsistent : All IsConsistent approving.rules
unfolding PolicyRule.effect_consistent
rules-IsConsistent = (refl, (refl, tt))

agent-IsRegisteredAgent : IsRegisteredAgent behind_identity.agents request identity
unfolding AgentRegistry.get AgentDescriptor.encode clock first_text first_of_fields parity_digest
    canonical canonical_items canonical_fields insert_field text_le canonical_json digest_artifact
    codes is_space is_blank len ends_with_z drop_last is_hex is_hex_64 raise_if_less
    raise_unless_less less is_aware
agent-IsRegisteredAgent = record {
  institution = refl;
  agent_id = refl;
  owner = refl;
  agent = agent;
  found = refl;
  enabled = refl;
  unchanged = refl;
}

now_aware : is_aware now ≡ true
unfolding is_aware clock drop_last codes raise_if_less raise_unless_less less
now_aware = refl

identity-accepted : AuthenticatedAgentIdentity.post_init identity ≡ ok tt
unfolding AuthenticatedAgentIdentity.post_init interval aware_timestamp is_aware identifier
    identifiers is_identifier require_text require_texts utc_timestamp require_utc_timestamp
    require_digest require_digests require_optional_digest require_positive codes is_space is_blank
    len ends_with_z drop_last is_hex is_hex_64 clock raise_if_less raise_unless_less less
identity-accepted = refl

trust_key-accepted : WorkloadIdentityTrustKey.post_init trust_key ≡ ok tt
unfolding WorkloadIdentityTrustKey.post_init interval aware_timestamp is_aware identifier
    identifiers is_identifier require_text require_texts utc_timestamp require_utc_timestamp
    require_digest require_digests require_optional_digest require_positive codes is_space is_blank
    len ends_with_z drop_last is_hex is_hex_64 clock b64url contains_code raise_if_less
    raise_unless_less less
trust_key-accepted = refl

evaluate_authenticated-returns_example :
    (d : AuthenticatedAuthorizationDecision) × (evaluate_authenticated behind_identity request
        approving
        (signed_context context)
        trust
        now
      ≡ ok d)
evaluate_authenticated-returns_example =
    evaluate_authenticated-returns request approving now example_platform-HexDigests now_valid
      behind_identity approving-accepted rules-IsConsistent (signed_context context) trust now_aware
      (identity-accepted, (trust_key-accepted, tt))

abbrev agreed_decision : AuthenticatedAuthorizationDecision
agreed_decision =
    authenticated_record request (SignedAuthenticatedAgentIdentity.artifact_digest context)
      (specified engine request approving now) true now

evaluate_authenticated-agrees_example :
    evaluate_authenticated behind_identity request approving (signed_context context) trust now
    ≡ ok agreed_decision
evaluate_authenticated-agrees_example =
    evaluate_authenticated-agrees request approving now example_platform-HexDigests now_valid
      behind_identity approving-accepted rules-IsConsistent context trust context-verified
      agent-IsRegisteredAgent

evaluate_authenticated-IsJustified_example :
    (agreed_decision.identity_verified ≡ true
      → IsAuthenticated behind_identity request approving
          (signed_context context)
          trust
          now
          agreed_decision)
    × (agreed_decision.identity_verified ≡ false → IsDenied agreed_decision)
evaluate_authenticated-IsJustified_example =
    evaluate_authenticated-IsJustified request approving now behind_identity trust
      (signed_context context)
      (evaluate_authenticated-agrees request approving now example_platform-HexDigests now_valid
        behind_identity approving-accepted rules-IsConsistent context trust context-verified
        agent-IsRegisteredAgent)
