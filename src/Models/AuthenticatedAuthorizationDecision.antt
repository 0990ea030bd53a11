-- ===== src/Models/AuthenticatedAuthorizationDecision.antt =====
-- authenticated_policy.py: `AuthenticatedAuthorizationDecision`, with `__post_init__` as `post_init`.
use reg_agent_ops.Models.AuthorizationDecision
use reg_agent_ops.Base.{
  Bool, Result, String, [], is_hex_64, nat_eq, not, raise_if, string_eq, texts_eq, value_error,
  ◌!=◌, ◌&&◌, ◌>>◌, ◌||◌, ◌∷◌,
}
use reg_agent_ops.Models.AuthorizationDecision.{AuthorizationDecision}
use reg_agent_ops.Models.DataClassification.{data_classification_eq}
use reg_agent_ops.Models.Decision.{Decision, decision_eq}
use reg_agent_ops.Models.Environment.{environment_eq}
use reg_agent_ops.Models.RiskTier.{risk_tier_eq}
use reg_agent_ops.Models.Value.{Platform, Value, dict, digest_artifact, flag, text}

pub record AuthenticatedAuthorizationDecision : Type 0 where
  pub request_digest : String
  pub identity_context_digest : String
  pub authorization : AuthorizationDecision
  pub identity_verified : Bool
  pub evaluated_at : String
  pub schema_version : String

-- `asdict`, with the members of enumerations as their values
unfoldable pub encode : AuthenticatedAuthorizationDecision → Value
encode r = dict (
    ("request_digest", text r.request_digest)
    ∷ ("identity_context_digest", text r.identity_context_digest)
    ∷ ("authorization", AuthorizationDecision.encode r.authorization)
    ∷ ("identity_verified", flag r.identity_verified)
    ∷ ("evaluated_at", text r.evaluated_at)
    ∷ ("schema_version", text r.schema_version)
    ∷ [])

abbrev pub decision : AuthenticatedAuthorizationDecision → Decision
decision r = r.authorization.decision

module _ ⦃p : Platform⦄ where
  unfoldable pub artifact_digest : AuthenticatedAuthorizationDecision → String
  artifact_digest r = digest_artifact (encode r)

  unfoldable pub post_init : AuthenticatedAuthorizationDecision → Result (Unit {0})
  post_init r = do
    raise_if (not (is_hex_64 r.request_digest))
        (value_error "request_digest must be a lowercase SHA-256 digest")
    raise_if (not (is_hex_64 r.identity_context_digest))
        (value_error "identity_context_digest must be a lowercase SHA-256 digest")
    raise_if (r.authorization.request_digest != r.request_digest)
        (value_error "nested authorization must bind the same request digest")
    raise_if (r.authorization.evaluated_at != r.evaluated_at)
        (value_error "nested authorization must use the same evaluation time")
    raise_if
        (not r.identity_verified
          && (r.authorization.decision != Decision.deny
              || r.authorization.human_approval_required
              || r.authorization.policy_permits_execution))
        (value_error "unverified identity must produce a non-executable DENY decision")
