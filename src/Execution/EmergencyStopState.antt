-- ===== src/Execution/EmergencyStopState.antt =====
-- execution.py: `EmergencyStopState`, with `__post_init__` as `post_init`.
use reg_agent_ops.Base.{Bool, Option, Result, String, [], ℕ, ◌>>◌, ◌∷◌}
use reg_agent_ops.Models.Checks.{
  default_limit, require_optional_digest, require_positive, require_text, require_utc_timestamp,
}
use reg_agent_ops.Models.Value.{Platform, Value, dict, digest_artifact, flag, num, optional, text}

pub record EmergencyStopState : Type 0 where
  pub institution_id : String
  pub state_version : ℕ
  pub halted : Bool
  pub reason_digest : Option String
  pub effective_at : String
  pub schema_version : String

-- `asdict`, with the members of enumerations as their values
unfoldable pub encode : EmergencyStopState → Value
encode r = dict (
    ("institution_id", text r.institution_id)
    ∷ ("state_version", num r.state_version)
    ∷ ("halted", flag r.halted)
    ∷ ("reason_digest", optional r.reason_digest)
    ∷ ("effective_at", text r.effective_at)
    ∷ ("schema_version", text r.schema_version)
    ∷ [])

module _ ⦃p : Platform⦄ where
  unfoldable pub artifact_digest : EmergencyStopState → String
  artifact_digest r = digest_artifact (encode r)

  unfoldable pub post_init : EmergencyStopState → Result (Unit {0})
  post_init r = do
    require_text "institution_id" r.institution_id default_limit
    require_positive "state_version" r.state_version
    require_optional_digest "reason_digest" r.reason_digest
    require_utc_timestamp "effective_at" r.effective_at
    require_text "schema_version" r.schema_version default_limit
