-- ===== src/Approval/ApprovalStatement.antt =====
-- approval_models.py: `ApprovalStatement`, with `__post_init__` as `post_init`.
use reg_agent_ops.Approval.ApprovalVote
use reg_agent_ops.Approval.ApprovalVote.{ApprovalVote}
use reg_agent_ops.Approval.Checks.{bounded_texts, digests, timestamp}
use reg_agent_ops.Base.{Result, String, [], ltb, raise_if, value_error, ◌-◌, ◌>>=◌, ◌>>◌, ◌∷◌}
use reg_agent_ops.Models.Checks.{raise_unless_less}
use reg_agent_ops.Models.Value.{Platform, Value, dict, digest_artifact, text}

pub record ApprovalStatement : Type 0 where
  pub approval_id : String
  pub institution_id : String
  pub requirement_digest : String
  pub request_digest : String
  pub approver_id : String
  pub authority_grant_digest : String
  pub vote : ApprovalVote
  pub issued_at : String
  pub expires_at : String
  pub rationale_digest : String
  pub schema_version : String

-- `asdict`, with the members of enumerations as their values
unfoldable pub encode : ApprovalStatement → Value
encode r = dict (
    ("approval_id", text r.approval_id)
    ∷ ("institution_id", text r.institution_id)
    ∷ ("requirement_digest", text r.requirement_digest)
    ∷ ("request_digest", text r.request_digest)
    ∷ ("approver_id", text r.approver_id)
    ∷ ("authority_grant_digest", text r.authority_grant_digest)
    ∷ ("vote", text (ApprovalVote.value r.vote))
    ∷ ("issued_at", text r.issued_at)
    ∷ ("expires_at", text r.expires_at)
    ∷ ("rationale_digest", text r.rationale_digest)
    ∷ ("schema_version", text r.schema_version)
    ∷ [])

module _ ⦃p : Platform⦄ where
  unfoldable pub artifact_digest : ApprovalStatement → String
  artifact_digest r = digest_artifact (encode r)

  -- Times are in microseconds, so 15 minutes are 900 * 10 ^ 6.
  unfoldable pub post_init : ApprovalStatement → Result (Unit {0})
  post_init r = do
    bounded_texts (
        ("approval_id", r.approval_id)
        ∷ ("institution_id", r.institution_id)
        ∷ ("approver_id", r.approver_id)
        ∷ [])
    digests (
        ("requirement_digest", r.requirement_digest)
        ∷ ("request_digest", r.request_digest)
        ∷ ("authority_grant_digest", r.authority_grant_digest)
        ∷ ("rationale_digest", r.rationale_digest)
        ∷ [])
    issued ← timestamp "issued_at" r.issued_at
    expires ← timestamp "expires_at" r.expires_at
    raise_unless_less r.issued_at r.expires_at issued expires
        (value_error "approval statement must expire after issuance")
    raise_if (ltb 900000000 (expires - issued))
        (value_error "approval statements are limited to 15 minutes")
