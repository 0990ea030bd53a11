-- ===== src/Mcp/McpPolicyEnforcementResult.antt =====
-- mcp.py: `McpPolicyEnforcementResult`, with `__post_init__` as `post_init`.
use reg_agent_ops.Models.Decision
use reg_agent_ops.Models.RiskTier
use reg_agent_ops.Base.{
  Bool, List, Option, Result, String, [], contains, for_each, if◌then◌else◌, is_empty, is_none,
  nat_eq, not, raise_if, same_flag, string_eq, texts_eq, unique, value_error, ◌!=◌, ◌&&◌, ◌==◌,
  ◌>>◌, ◌||◌, ◌∷◌,
}
use reg_agent_ops.Models.Checks.{
  default_limit, require_digests, require_optional_digest, require_text, require_utc_timestamp,
}
use reg_agent_ops.Models.DataClassification.{data_classification_eq}
use reg_agent_ops.Models.Decision.{Decision, decision_eq}
use reg_agent_ops.Models.Environment.{environment_eq}
use reg_agent_ops.Models.RiskTier.{RiskTier, risk_tier_eq}
use reg_agent_ops.Models.Value.{Platform, Value, dict, digest_artifact, flag, optional, text, texts}

pub record McpPolicyEnforcementResult : Type 0 where
  pub institution_id : String
  pub request_digest : String
  pub mcp_registry_snapshot_digest : String
  pub server_registration_digest : Option String
  pub tool_snapshot_digest : Option String
  pub tool_descriptor_digest : Option String
  pub authenticated_authorization_digest : Option String
  pub identity_verified : Bool
  pub risk_tier : RiskTier
  pub decision : Decision
  pub constraints : List String
  pub reason_codes : List String
  pub human_approval_required : Bool
  pub execution_permitted : Bool
  pub execution_performed : Bool
  pub evaluated_at : String
  pub schema_version : String

-- `asdict`, with the members of enumerations as their values
unfoldable pub encode : McpPolicyEnforcementResult → Value
encode r = dict (
    ("institution_id", text r.institution_id)
    ∷ ("request_digest", text r.request_digest)
    ∷ ("mcp_registry_snapshot_digest", text r.mcp_registry_snapshot_digest)
    ∷ ("server_registration_digest", optional r.server_registration_digest)
    ∷ ("tool_snapshot_digest", optional r.tool_snapshot_digest)
    ∷ ("tool_descriptor_digest", optional r.tool_descriptor_digest)
    ∷ ("authenticated_authorization_digest", optional r.authenticated_authorization_digest)
    ∷ ("identity_verified", flag r.identity_verified)
    ∷ ("risk_tier", text (RiskTier.value r.risk_tier))
    ∷ ("decision", text (Decision.value r.decision))
    ∷ ("constraints", texts r.constraints)
    ∷ ("reason_codes", texts r.reason_codes)
    ∷ ("human_approval_required", flag r.human_approval_required)
    ∷ ("execution_permitted", flag r.execution_permitted)
    ∷ ("execution_performed", flag r.execution_performed)
    ∷ ("evaluated_at", text r.evaluated_at)
    ∷ ("schema_version", text r.schema_version)
    ∷ [])

-- `risk_tier in _HIGH_IMPACT_RISKS`
abbrev pub high_impact : RiskTier → Bool
high_impact risk = contains (RiskTier.high ∷ RiskTier.critical ∷ []) risk

abbrev pub expected_approval : McpPolicyEnforcementResult → Bool
expected_approval r = r.decision == Decision.require_human_approval || high_impact r.risk_tier

-- the checks of `__post_init__` that tie the flags to the decision and the risk tier
unfoldable pub flags_consistent : McpPolicyEnforcementResult → Result (Unit {0})
flags_consistent r = do
  raise_if r.execution_performed
      (value_error "MCP policy enforcement adapter does not execute tools")
  if r.decision == Decision.deny
      then raise_if (r.human_approval_required || r.execution_permitted)
          (value_error "DENY cannot require human approval or permit execution")
      else (do
        raise_if (not r.identity_verified || is_none r.authenticated_authorization_digest)
            (value_error "non-DENY MCP continuation requires verified authenticated authorization")
        raise_if (not (same_flag r.human_approval_required (expected_approval r)))
            (value_error "MCP approval flag is inconsistent with policy decision and risk tier")
        raise_if
            (not (
              same_flag r.execution_permitted (
                contains (Decision.allow ∷ Decision.allow_with_constraints ∷ []) r.decision
                && not (expected_approval r))))
            (value_error "MCP execution continuation is inconsistent with approval gate state"))

module _ ⦃p : Platform⦄ where
  unfoldable pub artifact_digest : McpPolicyEnforcementResult → String
  artifact_digest r = digest_artifact (encode r)

  unfoldable pub post_init : McpPolicyEnforcementResult → Result (Unit {0})
  unfolding flags_consistent
  post_init r = do
    require_text "institution_id" r.institution_id default_limit
    require_digests (
        ("request_digest", r.request_digest)
        ∷ ("mcp_registry_snapshot_digest", r.mcp_registry_snapshot_digest)
        ∷ [])
    require_optional_digest "server_registration_digest" r.server_registration_digest
    require_optional_digest "tool_snapshot_digest" r.tool_snapshot_digest
    require_optional_digest "tool_descriptor_digest" r.tool_descriptor_digest
    require_optional_digest "authenticated_authorization_digest"
        r.authenticated_authorization_digest
    raise_if (not (unique r.constraints)) (value_error "constraints must be unique")
    for_each r.constraints (λ constraint. require_text "constraint" constraint default_limit)
    raise_if (r.decision == Decision.allow_with_constraints && is_empty r.constraints)
        (value_error "ALLOW_WITH_CONSTRAINTS requires represented constraints")
    raise_if (r.decision != Decision.allow_with_constraints && not (is_empty r.constraints))
        (value_error "constraints are only valid for ALLOW_WITH_CONSTRAINTS")
    raise_if (is_empty r.reason_codes || not (unique r.reason_codes))
        (value_error "reason_codes must be non-empty and unique")
    for_each r.reason_codes (λ reason. require_text "reason_code" reason default_limit)
    flags_consistent r
    require_utc_timestamp "evaluated_at" r.evaluated_at
    require_text "schema_version" r.schema_version default_limit
