-- ===== src/Models/AuthorizationDecision.antt =====
-- models.py: `AuthorizationDecision`, with `__post_init__` as `post_init`.
use reg_agent_ops.Models.Decision
use reg_agent_ops.Base.{
  Bool, List, Result, String, [], for_each, is_empty, is_hex_64, nat_eq, not, raise_if, same_texts,
  string_eq, unique, value_error, ◌&&◌, ◌==◌, ◌>>◌, ◌||◌, ◌∷◌,
}
use reg_agent_ops.Base.Sort.{sort_texts}
use reg_agent_ops.Models.Checks.{require_utc_timestamp}
use reg_agent_ops.Models.Decision.{Decision, decision_eq}
use reg_agent_ops.Models.Value.{Platform, Value, dict, digest_artifact, flag, text, texts}

pub record AuthorizationDecision : Type 0 where
  pub request_digest : String
  pub policy_bundle_digest : String
  pub decision : Decision
  pub matched_rule_ids : List String
  pub constraints : List String
  pub reason_codes : List String
  pub human_approval_required : Bool
  pub policy_permits_execution : Bool
  pub evaluated_at : String
  pub governance_evidence_digests : List String
  pub schema_version : String

-- `asdict`, with the members of enumerations as their values
unfoldable pub encode : AuthorizationDecision → Value
encode r = dict (
    ("request_digest", text r.request_digest)
    ∷ ("policy_bundle_digest", text r.policy_bundle_digest)
    ∷ ("decision", text (Decision.value r.decision))
    ∷ ("matched_rule_ids", texts r.matched_rule_ids)
    ∷ ("constraints", texts r.constraints)
    ∷ ("reason_codes", texts r.reason_codes)
    ∷ ("human_approval_required", flag r.human_approval_required)
    ∷ ("policy_permits_execution", flag r.policy_permits_execution)
    ∷ ("evaluated_at", text r.evaluated_at)
    ∷ ("governance_evidence_digests", texts r.governance_evidence_digests)
    ∷ ("schema_version", text r.schema_version)
    ∷ [])

-- the checks of `__post_init__` that tie the two flags and the constraints to the decision
unfoldable pub flags_consistent : AuthorizationDecision → Result (Unit {0})
flags_consistent r = do
  raise_if
      (r.decision == Decision.deny && (r.human_approval_required || r.policy_permits_execution))
      (value_error "DENY cannot require approval or permit execution")
  raise_if
      (r.decision == Decision.require_human_approval
        && (not r.human_approval_required || r.policy_permits_execution))
      (value_error "REQUIRE_HUMAN_APPROVAL must require approval and must not permit execution")
  raise_if
      (r.decision == Decision.allow
        && (r.human_approval_required || not r.policy_permits_execution))
      (value_error "ALLOW must permit execution without approval")
  raise_if
      (r.decision == Decision.allow_with_constraints
        && (r.human_approval_required || not r.policy_permits_execution || is_empty r.constraints))
      (value_error
        "ALLOW_WITH_CONSTRAINTS requires constraints and permits execution without approval")

module _ ⦃p : Platform⦄ where
  unfoldable pub decision_digest : AuthorizationDecision → String
  decision_digest r = digest_artifact (encode r)

  unfoldable pub post_init : AuthorizationDecision → Result (Unit {0})
  unfolding flags_consistent
  post_init r = do
    raise_if (not (is_hex_64 r.request_digest))
        (value_error "request_digest must be a lowercase SHA-256 hex digest")
    raise_if (not (is_hex_64 r.policy_bundle_digest))
        (value_error "policy_bundle_digest must be a lowercase SHA-256 hex digest")
    require_utc_timestamp "evaluated_at" r.evaluated_at
    raise_if (not (unique r.matched_rule_ids)) (value_error "matched_rule_ids must be unique")
    raise_if (not (unique r.constraints)) (value_error "constraints must be unique")
    raise_if (not (unique r.governance_evidence_digests))
        (value_error "governance_evidence_digests must be unique")
    raise_if
        (not (same_texts (sort_texts r.governance_evidence_digests) r.governance_evidence_digests))
        (value_error "governance_evidence_digests must be sorted")
    for_each r.governance_evidence_digests (λ digest.
        raise_if (not (is_hex_64 digest))
          (value_error "governance_evidence_digests must contain lowercase SHA-256 digests"))
    flags_consistent r
