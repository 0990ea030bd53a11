-- ===== src/Examples/Approvals.antt =====
-- The approval of the request to pay: a delegated authority grant, a trust key and a signed vote.
use reg_agent_ops.Approval.ApprovalAuthorityGrant
use reg_agent_ops.Approval.ApprovalEscalationPolicy
use reg_agent_ops.Approval.ApprovalRequirement
use reg_agent_ops.Approval.ApprovalResolution
use reg_agent_ops.Approval.ApprovalStatement
use reg_agent_ops.Approval.ApprovalTrustBundle
use reg_agent_ops.Approval.ApprovalTrustKey
use reg_agent_ops.Approval.Authority
use reg_agent_ops.Approval.Gate.OneTime
use reg_agent_ops.Approval.SignedApprovalPackage
use reg_agent_ops.Approval.SignedApprovalStatement
use reg_agent_ops.Models.AgentActionEnvelope
use reg_agent_ops.Models.AuthenticatedAuthorizationDecision
use reg_agent_ops.Models.AuthorizationDecision
use reg_agent_ops.Policy.PolicyBundle
use reg_agent_ops.Policy.PolicyRule
use reg_agent_ops.Approval.ApprovalAuthorityGrant.{ApprovalAuthorityGrant}
use reg_agent_ops.Approval.ApprovalEscalationPolicy.{ApprovalEscalationPolicy}
use reg_agent_ops.Approval.ApprovalKeyStatus.{ApprovalKeyStatus, approval_key_status_eq}
use reg_agent_ops.Approval.ApprovalRequirement.{ApprovalRequirement}
use reg_agent_ops.Approval.ApprovalResolution.{ApprovalResolution}
use reg_agent_ops.Approval.ApprovalStatement.{ApprovalStatement}
use reg_agent_ops.Approval.ApprovalTrustBundle.{ApprovalTrustBundle}
use reg_agent_ops.Approval.ApprovalTrustKey.{ApprovalTrustKey}
use reg_agent_ops.Approval.ApprovalVote.{ApprovalVote, approval_vote_eq}
use reg_agent_ops.Approval.Authority.{
  ApprovalAuthorityRegistry, authority_time, authorize_approver, authorize_by, by_digest,
  grant_by_digest, narrows, outlives, require_current, validate_grant,
}
use reg_agent_ops.Approval.Authority.Attenuation.{
  Descends, InScope, IsInForce, validate_grant-attenuates,
}
use reg_agent_ops.Approval.Authority.Termination.{post_init-ends}
use reg_agent_ops.Approval.Checks.{
  bounded_text, bounded_texts, decode, digests, parse_with, timestamp,
}
use reg_agent_ops.Approval.Gate.{
  ApprovalGate, add_seconds, after_binding, binding_failure, build_requirement, conclude, counted,
  format_time, gate_time, minimum_approvals, redemption, requirement_current,
  requirement_identifier, requirement_record, resolution, resolution_record, resolve, separation,
  tally,
}
use reg_agent_ops.Approval.Gate.Continuation.{Continues, resolve-Continues}
use reg_agent_ops.Approval.Gate.Counting.{Casts, tally-counts}
use reg_agent_ops.Approval.Gate.OneTime.{redeemed, run-once}
use reg_agent_ops.Approval.Gate.Requirement.{Demands, build_requirement-Demands}
use reg_agent_ops.Approval.GrantType.{GrantType, grant_type_eq}
use reg_agent_ops.Approval.Replay.{ApprovalReplayLedger, consume, violates}
use reg_agent_ops.Approval.Signature.{
  ApprovalSigner, approval_signing_document, check_signature, encode_bytes, sign_approval_statement,
  verify_signed_approval, verify_with_key,
}
use reg_agent_ops.Approval.Signature.RoundTrip.{IsSignerOf, IsValidAt, sign-verify}
use reg_agent_ops.Approval.Signature.Verified.{IsVerified, verify_signed_approval-IsVerified}
use reg_agent_ops.Approval.SignedApprovalPackage.{SignedApprovalPackage}
use reg_agent_ops.Approval.SignedApprovalStatement.{SignedApprovalStatement}
use reg_agent_ops.Base.{
  All, String, [], arith, codes, contains_code, drop_last, ends_with_z, err, false, fuel_exhausted,
  is_blank, is_hex, is_hex_64, is_space, len, nat_eq, none, ok, refl, replace_skip, select, some,
  string_eq, strip_equals, take_text, texts_eq, true, unique, utc_suffix, ◌&&◌, ◌==◌, ◌∷◌, ◌≡◌, ◌≢◌,
}
use reg_agent_ops.Base.Sort.{text_le}
use reg_agent_ops.Examples.Clock.{
  clock, even_digest, example_platform, first_of_fields, first_text, odd_digest, parity_digest,
}
use reg_agent_ops.Examples.Requests.{authorization, request}
use reg_agent_ops.Models.AgentActionEnvelope.{AgentActionEnvelope}
use reg_agent_ops.Models.AuthenticatedAuthorizationDecision.{AuthenticatedAuthorizationDecision}
use reg_agent_ops.Models.AuthorizationDecision.{AuthorizationDecision}
use reg_agent_ops.Models.Checks.{is_aware, less, raise_if_less, raise_unless_less}
use reg_agent_ops.Models.DataClassification.{data_classification_eq}
use reg_agent_ops.Models.Decision.{decision_eq}
use reg_agent_ops.Models.Environment.{Environment, environment_eq}
use reg_agent_ops.Models.RiskTier.{RiskTier, risk_tier_eq}
use reg_agent_ops.Models.Value.{
  canonical, canonical_fields, canonical_items, canonical_json, digest_artifact, insert_field,
}
use reg_agent_ops.Policy.Engine.{decision_record}
use reg_agent_ops.Policy.PolicyBundle.{PolicyBundle}
use reg_agent_ops.Policy.PolicyRule.{PolicyRule}

abbrev direct_grant : ApprovalAuthorityGrant
direct_grant = record {
  grant_id = "direct";
  institution_id = "bank";
  issuer_principal_id = "board";
  subject_principal_id = "head";
  role_id = "role";
  grant_type = GrantType.direct;
  allowed_tool_ids = "mcp:ledger:pay" ∷ [];
  allowed_actions = "pay" ∷ "invoke" ∷ [];
  allowed_environments = Environment.production ∷ [];
  max_risk_tier = RiskTier.critical;
  valid_from = "2026-01-01T00:00:00Z";
  valid_until = "2026-01-01T00:09:00Z";
  can_delegate = true;
  parent_grant_digest = none;
  schema_version = "regagentops.approval-authority-grant.v1";
}

abbrev delegated_grant : ApprovalAuthorityGrant
delegated_grant = record {
  grant_id = "delegated";
  institution_id = "bank";
  issuer_principal_id = "head";
  subject_principal_id = "approver";
  role_id = "role";
  grant_type = GrantType.delegated;
  allowed_tool_ids = "mcp:ledger:pay" ∷ [];
  allowed_actions = "invoke" ∷ [];
  allowed_environments = Environment.production ∷ [];
  max_risk_tier = RiskTier.high;
  valid_from = "2026-01-01T00:00:00Z";
  valid_until = "2026-01-01T00:03:00Z";
  can_delegate = false;
  parent_grant_digest = some odd_digest;
  schema_version = "regagentops.approval-authority-grant.v1";
}

abbrev authority : ApprovalAuthorityRegistry
authority = record {
  bundle = record {
    institution_id = "bank";
    grants = direct_grant ∷ delegated_grant ∷ [];
    schema_version = "regagentops.approval-authority-bundle.v1";
  };
}

delegated_grant-valid : validate_grant 3 authority.bundle.grants delegated_grant [] ≡ ok tt
unfolding codes is_space is_blank len ends_with_z drop_last is_hex is_hex_64 clock first_text
    first_of_fields parity_digest canonical canonical_items canonical_fields insert_field text_le
    canonical_json digest_artifact validate_grant by_digest narrows outlives authority_time
    parse_with ApprovalAuthorityGrant.encode ApprovalAuthorityGrant.artifact_digest raise_if_less
    raise_unless_less less is_aware
delegated_grant-valid = refl

delegated_grant-parent : by_digest authority.bundle.grants odd_digest ≡ some direct_grant
unfolding codes is_space is_blank len ends_with_z drop_last is_hex is_hex_64 clock first_text
    first_of_fields parity_digest canonical canonical_items canonical_fields insert_field text_le
    canonical_json digest_artifact by_digest ApprovalAuthorityGrant.encode
    ApprovalAuthorityGrant.artifact_digest raise_if_less raise_unless_less less is_aware
delegated_grant-parent = refl

delegated_grant-InScope : InScope delegated_grant request
delegated_grant-InScope = record {
  institution = refl;
  tool = refl;
  action = refl;
  environment = refl;
  risk = omega arith;
}

delegated_grant-IsInForce : IsInForce delegated_grant 60000000
unfolding authority_time parse_with codes is_space is_blank len ends_with_z drop_last is_hex
    is_hex_64 clock raise_if_less raise_unless_less less is_aware
delegated_grant-IsInForce = record {
  start = 0;
  finish = 180000000;
  start_parsed = refl;
  finish_parsed = refl;
  started = omega arith;
  unfinished = omega arith;
}

validate_grant-attenuates_example : InScope direct_grant request × IsInForce direct_grant 60000000
validate_grant-attenuates_example =
    validate_grant-attenuates authority.bundle.grants direct_grant 3 {grant = delegated_grant} []
      request 60000000 delegated_grant-valid (Descends.up refl delegated_grant-parent Descends.here)
      delegated_grant-InScope delegated_grant-IsInForce

post_init-ends_example : Authority.post_init authority ≢ err fuel_exhausted
post_init-ends_example = post_init-ends authority

abbrev escalation : ApprovalEscalationPolicy
escalation = record {
  institution_id = "bank";
  policy_approval_minimum = 1;
  high_risk_minimum = 1;
  critical_risk_minimum = 2;
  max_requirement_lifetime_seconds = 540;
  schema_version = "regagentops.approval-escalation-policy.v1";
}

abbrev pub requirement : ApprovalRequirement
requirement = requirement_record request authorization escalation "2026-01-01T00:00:00Z" 540000000

escalation-valid : ApprovalEscalationPolicy.post_init escalation ≡ ok tt
unfolding codes is_space is_blank len ends_with_z drop_last is_hex is_hex_64
    ApprovalEscalationPolicy.post_init bounded_text
escalation-valid = refl

requirement-built :
    build_requirement request authorization escalation "2026-01-01T00:00:00Z"
    ≡ ok (some requirement)
unfolding codes is_space is_blank len ends_with_z drop_last is_hex is_hex_64 clock first_text
    first_of_fields parity_digest canonical canonical_items canonical_fields insert_field text_le
    canonical_json digest_artifact AgentActionEnvelope.encode AgentActionEnvelope.artifact_digest
    PolicyRule.encode PolicyBundle.encode PolicyBundle.artifact_digest AuthorizationDecision.encode
    AuthorizationDecision.decision_digest AuthenticatedAuthorizationDecision.encode
    AuthenticatedAuthorizationDecision.artifact_digest decision_record requirement_record
    requirement_identifier take_text format_time utc_suffix replace_skip minimum_approvals
    separation ApprovalEscalationPolicy.encode ApprovalEscalationPolicy.artifact_digest
    ApprovalRequirement.encode ApprovalRequirement.artifact_digest build_requirement gate_time
    parse_with add_seconds ApprovalRequirement.post_init timestamp bounded_text bounded_texts
    digests raise_if_less raise_unless_less less is_aware
requirement-built = refl

build_requirement-Demands_example :
    Demands true 1 (some requirement)
    × Demands true 1 (some requirement)
    × Demands false 2 (some requirement)
unfolding decision_record
build_requirement-Demands_example =
    build_requirement-Demands request authorization escalation "2026-01-01T00:00:00Z"
      escalation-valid requirement-built

abbrev trust_key : ApprovalTrustKey
trust_key = record {
  institution_id = "bank";
  principal_id = "approver";
  key_id = "key";
  public_key_base64url = "key";
  not_before = "2026-01-01T00:00:00Z";
  not_after = "2026-01-01T00:09:00Z";
  status = ApprovalKeyStatus.active;
  algorithm = "Ed25519";
}

abbrev trust : ApprovalTrustBundle
trust = record {
  institution_id = "bank";
  keys = trust_key ∷ [];
  schema_version = "regagentops.approval-trust-bundle.v1";
}

abbrev gate : ApprovalGate
gate = record { authority = authority; trust = trust }

abbrev signed : SignedApprovalStatement
signed = record {
  statement = record {
    approval_id = "approval";
    institution_id = "bank";
    requirement_digest = ApprovalRequirement.artifact_digest requirement;
    request_digest = AgentActionEnvelope.artifact_digest request;
    approver_id = "approver";
    authority_grant_digest = even_digest;
    vote = ApprovalVote.approve;
    issued_at = "2026-01-01T00:01:00Z";
    expires_at = "2026-01-01T00:03:00Z";
    rationale_digest = even_digest;
    schema_version = "regagentops.approval-statement.v1";
  };
  key_id = "key";
  algorithm = "Ed25519";
  signature_base64url = "signature";
  signing_document_digest = odd_digest;
  schema_version = "regagentops.signed-approval-statement.v1";
}

abbrev submitted : SignedApprovalPackage
submitted = record {
  requirement = requirement;
  approvals = signed ∷ [];
  schema_version = "regagentops.signed-approval-package.v1";
}

abbrev signer : ApprovalSigner
signer = record {
  institution_id = "bank";
  principal_id = "approver";
  key_id = "key";
  algorithm = "Ed25519";
  sign = λ message. codes even_digest;
}

trust_key-IsSignerOf : IsSignerOf trust_key signer
unfolding codes is_space is_blank len ends_with_z drop_last is_hex is_hex_64 decode contains_code
    strip_equals
trust_key-IsSignerOf = record {
  public_key = codes "key=";
  decoded = refl;
  verifies = λ message. refl;
  unpadded = λ message. refl;
  inverse = λ message. refl;
}

trust_key-IsValidAt : IsValidAt trust_key signed.statement "2026-01-01T00:02:00Z"
unfolding codes is_space is_blank len ends_with_z drop_last is_hex is_hex_64 clock
    ApprovalTrustKey.parse_time parse_with is_aware raise_if_less raise_unless_less less
trust_key-IsValidAt = record {
  now = 120000000;
  issued = 60000000;
  expires = 180000000;
  key_start = 0;
  key_end = 540000000;
  now_parsed = refl;
  issued_parsed = refl;
  expires_parsed = refl;
  key_start_parsed = refl;
  key_end_parsed = refl;
  issued_alike = refl;
  expires_alike = refl;
  key_start_alike = refl;
  key_end_alike = refl;
  issued_before = omega arith;
  unexpired = omega arith;
  key_started = omega arith;
  key_unexpired = omega arith;
}

-- the statement as the signer signs it
abbrev signed_by_signer : SignedApprovalStatement
signed_by_signer = record {
  statement = signed.statement;
  key_id = "key";
  algorithm = "Ed25519";
  signature_base64url = even_digest;
  signing_document_digest = odd_digest;
  schema_version = "regagentops.signed-approval-statement.v1";
}

statement-signed : sign_approval_statement signed.statement signer ≡ ok signed_by_signer
unfolding codes is_space is_blank len ends_with_z drop_last is_hex is_hex_64 clock first_text
    first_of_fields parity_digest canonical canonical_items canonical_fields insert_field text_le
    canonical_json digest_artifact AgentActionEnvelope.encode AgentActionEnvelope.artifact_digest
    PolicyRule.encode PolicyBundle.encode PolicyBundle.artifact_digest AuthorizationDecision.encode
    AuthorizationDecision.decision_digest AuthenticatedAuthorizationDecision.encode
    AuthenticatedAuthorizationDecision.artifact_digest decision_record requirement_record
    requirement_identifier take_text format_time utc_suffix replace_skip minimum_approvals
    separation ApprovalEscalationPolicy.encode ApprovalEscalationPolicy.artifact_digest
    ApprovalRequirement.encode ApprovalRequirement.artifact_digest sign_approval_statement
    approval_signing_document encode_bytes strip_equals SignedApprovalStatement.post_init decode
    contains_code raise_if_less raise_unless_less less is_aware
statement-signed = refl

sign-verify_example :
    verify_signed_approval signed_by_signer trust "2026-01-01T00:02:00Z" ≡ ok signed.statement
sign-verify_example =
    sign-verify trust_key signer trust_key-IsSignerOf signed.statement trust "2026-01-01T00:02:00Z"
      refl refl refl refl trust_key-IsValidAt statement-signed

vote-verified : verify_signed_approval signed trust "2026-01-01T00:02:00Z" ≡ ok signed.statement
unfolding codes is_space is_blank len ends_with_z drop_last is_hex is_hex_64 clock first_text
    first_of_fields parity_digest canonical canonical_items canonical_fields insert_field text_le
    canonical_json digest_artifact AgentActionEnvelope.encode AgentActionEnvelope.artifact_digest
    PolicyRule.encode PolicyBundle.encode PolicyBundle.artifact_digest AuthorizationDecision.encode
    AuthorizationDecision.decision_digest AuthenticatedAuthorizationDecision.encode
    AuthenticatedAuthorizationDecision.artifact_digest decision_record requirement_record
    requirement_identifier take_text format_time utc_suffix replace_skip minimum_approvals
    separation ApprovalEscalationPolicy.encode ApprovalEscalationPolicy.artifact_digest
    ApprovalRequirement.encode ApprovalRequirement.artifact_digest verify_signed_approval
    verify_with_key raise_if_less raise_unless_less less is_aware check_signature decode
    contains_code ApprovalTrustKey.parse_time parse_with approval_signing_document
    ApprovalStatement.encode ApprovalStatement.artifact_digest
vote-verified = refl

verify_signed_approval-IsVerified_example :
    (key : ApprovalTrustKey) × (select
        (λ k. k.principal_id == "approver" && k.key_id == "key")
        trust.keys
      ≡ key ∷ [])
    × IsVerified key signed "2026-01-01T00:02:00Z" signed.statement
verify_signed_approval-IsVerified_example =
    verify_signed_approval-IsVerified signed trust "2026-01-01T00:02:00Z" vote-verified

votes :
    tally gate request requirement "2026-01-01T00:02:00Z" (signed ∷ []) [] []
    ≡ ok (counted ("approver" ∷ []) [])
unfolding codes is_space is_blank len ends_with_z drop_last is_hex is_hex_64 clock first_text
    first_of_fields parity_digest canonical canonical_items canonical_fields insert_field text_le
    canonical_json digest_artifact AgentActionEnvelope.encode AgentActionEnvelope.artifact_digest
    PolicyRule.encode PolicyBundle.encode PolicyBundle.artifact_digest AuthorizationDecision.encode
    AuthorizationDecision.decision_digest AuthenticatedAuthorizationDecision.encode
    AuthenticatedAuthorizationDecision.artifact_digest decision_record requirement_record
    requirement_identifier take_text format_time utc_suffix replace_skip minimum_approvals
    separation ApprovalEscalationPolicy.encode ApprovalEscalationPolicy.artifact_digest
    ApprovalRequirement.encode ApprovalRequirement.artifact_digest tally verify_signed_approval
    verify_with_key raise_if_less raise_unless_less less is_aware check_signature decode
    contains_code ApprovalTrustKey.parse_time parse_with approval_signing_document
    ApprovalStatement.encode ApprovalStatement.artifact_digest authorize_approver grant_by_digest
    authorize_by require_current authority_time ApprovalAuthorityGrant.permits
    ApprovalAuthorityGrant.valid_at timestamp bounded_text ApprovalAuthorityGrant.encode
    ApprovalAuthorityGrant.artifact_digest
votes = refl

tally-counts_example :
    (unique {A = String} ("approver" ∷ []) ≡ true)
    × All
        (λ who.
          Casts gate request requirement "2026-01-01T00:02:00Z" ApprovalVote.approve who
            (signed ∷ []))
        ("approver" ∷ [])
    × All
        (λ who.
          Casts gate request requirement "2026-01-01T00:02:00Z" ApprovalVote.deny who (signed ∷ []))
        []
tally-counts_example =
    tally-counts gate request requirement "2026-01-01T00:02:00Z" (signed ∷ []) ("approver" ∷ []) []
      votes

abbrev pub continuing : ApprovalResolution
continuing =
    resolution_record submitted request "2026-01-01T00:02:00Z" true true ("approver" ∷ []) []
      "approval_requirement_satisfied"

abbrev redeemed_once : ApprovalReplayLedger
redeemed_once = redemption submitted request "2026-01-01T00:02:00Z" ∷ []

package-resolved :
    resolve gate request authorization submitted "2026-01-01T00:02:00Z" []
    ≡ (ok continuing, redeemed_once)
unfolding codes is_space is_blank len ends_with_z drop_last is_hex is_hex_64 clock first_text
    first_of_fields parity_digest canonical canonical_items canonical_fields insert_field text_le
    canonical_json digest_artifact AgentActionEnvelope.encode AgentActionEnvelope.artifact_digest
    PolicyRule.encode PolicyBundle.encode PolicyBundle.artifact_digest AuthorizationDecision.encode
    AuthorizationDecision.decision_digest AuthenticatedAuthorizationDecision.encode
    AuthenticatedAuthorizationDecision.artifact_digest decision_record requirement_record
    requirement_identifier take_text format_time utc_suffix replace_skip minimum_approvals
    separation ApprovalEscalationPolicy.encode ApprovalEscalationPolicy.artifact_digest
    ApprovalRequirement.encode ApprovalRequirement.artifact_digest tally verify_signed_approval
    verify_with_key raise_if_less raise_unless_less less is_aware check_signature decode
    contains_code ApprovalTrustKey.parse_time parse_with approval_signing_document
    ApprovalStatement.encode ApprovalStatement.artifact_digest authorize_approver grant_by_digest
    authorize_by require_current authority_time ApprovalAuthorityGrant.permits
    ApprovalAuthorityGrant.valid_at timestamp bounded_text ApprovalAuthorityGrant.encode
    ApprovalAuthorityGrant.artifact_digest resolve binding_failure after_binding gate_time
    requirement_current conclude consume violates redemption resolution resolution_record
    ApprovalResolution.post_init digests SignedApprovalStatement.encode SignedApprovalPackage.encode
    SignedApprovalPackage.artifact_digest ApprovalTrustBundle.encode
package-resolved = refl

resolve-Continues_example :
    Continues gate request authorization submitted "2026-01-01T00:02:00Z" [] redeemed_once
      continuing
unfolding resolution_record
resolve-Continues_example =
    resolve-Continues gate request authorization submitted "2026-01-01T00:02:00Z" [] redeemed_once
      package-resolved refl

abbrev one_call : OneTime.Attempt
one_call = record {
  gate = gate;
  request = request;
  authorization = authorization;
  submitted = submitted;
  evaluated_at = "2026-01-01T00:02:00Z";
}

run-once_example :
    (unique (OneTime.run (one_call ∷ one_call ∷ []) []) ≡ true)
    × All (λ d. redeemed [] d ≡ false) (OneTime.run (one_call ∷ one_call ∷ []) [])
run-once_example = run-once (one_call ∷ one_call ∷ []) []
