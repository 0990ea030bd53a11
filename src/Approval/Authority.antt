-- ===== src/Approval/Authority.antt =====
-- approval_authority.py: which grants a bundle may hold, and who may approve what. `_validate_grant`
-- follows the parents of a grant; it is given fuel here, one step for each grant that it visits.
pub mod Attenuation
pub mod Termination
use reg_agent_ops.Approval.ApprovalAuthorityGrant
use reg_agent_ops.Models.RiskTier
use reg_agent_ops.Approval.ApprovalAuthorityBundle.{ApprovalAuthorityBundle}
use reg_agent_ops.Approval.ApprovalAuthorityGrant.{ApprovalAuthorityGrant}
use reg_agent_ops.Approval.Checks.{parse_with}
use reg_agent_ops.Approval.GrantType.{GrantType, grant_type_eq}
use reg_agent_ops.Base.{
  Bool, List, Option, Result, String, [], approval_authority_error, contains, err, for_each,
  fuel_exhausted, if◌then◌else◌, length, ltb, nat_eq, none, not, ok, raise_if, select, some,
  string_eq, subset, suc, texts_eq, true, zero, ℕ, ◌!=◌, ◌&&◌, ◌++◌, ◌==◌, ◌>>=◌, ◌>>◌, ◌||◌, ◌∷◌,
}
use reg_agent_ops.Models.AgentActionEnvelope.{AgentActionEnvelope}
use reg_agent_ops.Models.Checks.{less, or_raise, raise_if_less, raise_unless_less}
use reg_agent_ops.Models.DataClassification.{data_classification_eq}
use reg_agent_ops.Models.Decision.{decision_eq}
use reg_agent_ops.Models.Environment.{environment_eq}
use reg_agent_ops.Models.RiskTier.{RiskTier, risk_tier_eq}
use reg_agent_ops.Models.Value.{Platform}

pub record ApprovalAuthorityRegistry : Type 0 where
  pub bundle : ApprovalAuthorityBundle

module _ ⦃p : Platform⦄ where
  -- `_parse`
  unfoldable pub authority_time : String → Result ℕ
  authority_time =
      parse_with (approval_authority_error "approval authority time must be RFC3339 UTC")
        (approval_authority_error "approval authority time is invalid")

  -- `{grant.artifact_digest: grant for grant in grants}.get(digest)`: the last entry of a key stays
  unfoldable pub by_digest : List ApprovalAuthorityGrant → String → Option ApprovalAuthorityGrant
  by_digest [] digest = none
  by_digest (grant ∷ grants) digest = elim (by_digest grants digest) [
    | some later ↦ some later
    | none ↦ if ApprovalAuthorityGrant.artifact_digest grant == digest then some grant else none
  ]

  -- `_parse(grant.valid_from) < _parse(parent.valid_from) or _parse(grant.valid_until) >
  -- _parse(parent.valid_until)`
  unfoldable pub outlives : ApprovalAuthorityGrant → ApprovalAuthorityGrant → Result Bool
  outlives grant parent = do
    start ← authority_time grant.valid_from
    parent_start ← authority_time parent.valid_from
    sooner ← less grant.valid_from parent.valid_from start parent_start
    if sooner then ok true else (do
      finish ← authority_time grant.valid_until
      parent_finish ← authority_time parent.valid_until
      less parent.valid_until grant.valid_until parent_finish finish)

  -- The checks of a delegated grant against its parent, once the parent itself has been validated.
  unfoldable pub narrows : ApprovalAuthorityGrant → ApprovalAuthorityGrant → Result (Unit {0})
  narrows grant parent = do
    raise_if (not parent.can_delegate)
        (approval_authority_error "parent approval grant does not permit delegation")
    raise_if (grant.issuer_principal_id != parent.subject_principal_id)
        (approval_authority_error "delegated grant issuer must be the parent grant subject")
    raise_if (grant.institution_id != parent.institution_id)
        (approval_authority_error "delegated grant cannot cross institutions")
    raise_if (not (subset grant.allowed_tool_ids parent.allowed_tool_ids))
        (approval_authority_error "delegated grant cannot widen tool scope")
    raise_if (not (subset grant.allowed_actions parent.allowed_actions))
        (approval_authority_error "delegated grant cannot widen action scope")
    raise_if (not (subset grant.allowed_environments parent.allowed_environments))
        (approval_authority_error "delegated grant cannot widen environment scope")
    raise_if (ltb (RiskTier.rank parent.max_risk_tier) (RiskTier.rank grant.max_risk_tier))
        (approval_authority_error "delegated grant cannot increase maximum risk tier")
    longer ← outlives grant parent
    raise_if longer
        (approval_authority_error "delegated grant validity must remain within parent validity")

  -- `grant.parent_grant_digest or ""`
  abbrev pub parent_key : ApprovalAuthorityGrant → String
  parent_key grant = elim grant.parent_grant_digest [ none ↦ "" | some digest ↦ digest ]

  unfoldable pub validate_grant :
      ℕ → List ApprovalAuthorityGrant → ApprovalAuthorityGrant → List String → Result (Unit {0})
  validate_grant zero grants grant trail = err fuel_exhausted
  validate_grant (suc fuel) grants grant trail =
      let digest = ApprovalAuthorityGrant.artifact_digest grant in
      if contains trail digest
      then err (approval_authority_error "approval delegation cycle detected")
      else if grant.grant_type == GrantType.direct
      then ok tt
      else elim (by_digest grants (parent_key grant)) [
        | none ↦ err (approval_authority_error "delegated approval grant parent is missing")
        | some parent ↦
            validate_grant fuel grants parent (trail ++ digest ∷ []) >> narrows grant parent
      ]

  -- One step more than there are grants is enough.
  abbrev pub enough : List ApprovalAuthorityGrant → ℕ
  enough grants = suc (length grants)

  unfoldable pub post_init : ApprovalAuthorityRegistry → Result (Unit {0})
  post_init r =
      for_each r.bundle.grants
        (λ grant. validate_grant (enough r.bundle.grants) r.bundle.grants grant [])

  unfoldable pub grant_by_digest :
      ApprovalAuthorityRegistry → String → Result (Option ApprovalAuthorityGrant)
  grant_by_digest r digest =
      elim (select (λ grant. ApprovalAuthorityGrant.artifact_digest grant == digest)
        r.bundle.grants) [
          | [] ↦ ok none
          | grant ∷ [] ↦ ok (some grant)
          | _ ↦ err (approval_authority_error "approval grant digest is ambiguous")
        ]

  -- `not (_parse(grant.valid_from) <= now < _parse(grant.valid_until))`, raised
  unfoldable pub require_current : ApprovalAuthorityGrant → String → ℕ → Result (Unit {0})
  require_current grant at now = do
    start ← authority_time grant.valid_from
    raise_if_less at grant.valid_from now start
        (approval_authority_error "approval authority grant is not currently valid")
    finish ← authority_time grant.valid_until
    raise_unless_less at grant.valid_until now finish
        (approval_authority_error "approval authority grant is not currently valid")

  -- the checks of `authorize_approver` once the grant has been found
  unfoldable pub authorize_by :
      ApprovalAuthorityGrant → String → AgentActionEnvelope → String → Bool → Result (Unit {0})
  authorize_by grant approver_id request evaluated_at requester_separation_required = do
    raise_if (grant.subject_principal_id != approver_id)
        (approval_authority_error "approval signer is not the grant subject")
    now ← authority_time evaluated_at
    require_current grant evaluated_at now
    raise_if (grant.institution_id != request.institution_id)
        (approval_authority_error "approval authority institution mismatch")
    raise_if
        (not (contains grant.allowed_tool_ids request.tool_id)
          || not (contains grant.allowed_actions request.action))
        (approval_authority_error "approval authority does not cover the requested tool action")
    raise_if (not (contains grant.allowed_environments request.environment))
        (approval_authority_error "approval authority does not cover the requested environment")
    raise_if (ltb (RiskTier.rank grant.max_risk_tier) (RiskTier.rank request.risk_tier))
        (approval_authority_error "approval authority does not cover the request risk tier")
    raise_if (requester_separation_required && approver_id == request.human_owner_id)
        (approval_authority_error "requester and approver must be separated")

  unfoldable pub authorize_approver :
      ApprovalAuthorityRegistry
      → String
      → String
      → AgentActionEnvelope
      → String
      → Bool
      → Result ApprovalAuthorityGrant
  authorize_approver r approver_id grant_digest request evaluated_at requester_separation_required =
      do
        found ← grant_by_digest r grant_digest
        grant ← or_raise found (approval_authority_error "approval authority grant not found")
        authorize_by grant approver_id request evaluated_at requester_separation_required
        ok grant
