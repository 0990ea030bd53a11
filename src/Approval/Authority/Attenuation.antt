-- ===== src/Approval/Authority/Attenuation.antt =====
-- What a validated chain of delegations cannot do: reach further than any grant above it.
use reg_agent_ops.Approval.ApprovalAuthorityGrant
use reg_agent_ops.Models.RiskTier
use reg_agent_ops.Approval.ApprovalAuthorityGrant.{ApprovalAuthorityGrant}
use reg_agent_ops.Approval.Authority.{
  authority_time, by_digest, narrows, outlives, parent_key, validate_grant,
}
use reg_agent_ops.Approval.GrantType.{GrantType, grant_type_eq}
use reg_agent_ops.Base.{
  >>-eq-ok, Bool-cases, Eq, List, Result-cases, String, [], and-true, arith, contains, eq_of_beq,
  eq_of_bne, false, inl, inr, nat_eq, ok, some, string_eq, subset, suc, sym, texts_eq, true, zero,
  ℕ, ◌++◌, ◌<◌, ◌∙◌, ◌∷◌, ◌≡◌, ◌≤◌,
}
use reg_agent_ops.Models.AgentActionEnvelope.{AgentActionEnvelope}
use reg_agent_ops.Models.Checks.{less-ok}
use reg_agent_ops.Models.DataClassification.{data_classification_eq}
use reg_agent_ops.Models.Decision.{decision_eq}
use reg_agent_ops.Models.Environment.{environment_eq}
use reg_agent_ops.Models.RiskTier.{RiskTier, risk_tier_eq}
use reg_agent_ops.Models.Value.{Platform}

-- The request lies in the scope of the grant.
pub record InScope (grant : ApprovalAuthorityGrant) (request : AgentActionEnvelope) : Type 0 where
  pub institution : grant.institution_id ≡ request.institution_id
  pub tool : contains grant.allowed_tool_ids request.tool_id ≡ true
  pub action : contains grant.allowed_actions request.action ≡ true
  pub environment : contains grant.allowed_environments request.environment ≡ true
  pub risk : RiskTier.rank request.risk_tier ≤ RiskTier.rank grant.max_risk_tier

module _ {ℓ} {A : Type ℓ} ⦃e : Eq A⦄ where
  contains-subset :
      (a : A) (xs ys : List A) → subset xs ys ≡ true → contains xs a ≡ true → contains ys a ≡ true
  contains-subset a [] ys s h = cc
  contains-subset a (x ∷ xs) ys s h = elim (Bool-cases (e.beq a x)) [
    | inl q ↦ rw (eq_of_beq a x q) ((and-true _ _ s).0)
    | inr q ↦ contains-subset a xs ys ((and-true _ _ s).1) (rw q at h)
  ]

module _ ⦃p : Platform⦄ where
  -- The grant is valid at a time, by its own two timestamps.
  pub record IsInForce (grant : ApprovalAuthorityGrant) (now : ℕ) : Type 0 where
    pub start : ℕ
    pub finish : ℕ
    pub start_parsed : authority_time grant.valid_from ≡ ok start
    pub finish_parsed : authority_time grant.valid_until ≡ ok finish
    pub started : start ≤ now
    pub unfinished : now < finish

  module _ (grant parent : ApprovalAuthorityGrant) (narrow : narrows grant parent ≡ ok tt) where
    narrows-InScope :
        (request : AgentActionEnvelope) → InScope grant request → InScope parent request
    unfolding narrows
    narrows-InScope request s = record {
      institution =
          sym (eq_of_bne grant.institution_id parent.institution_id (ground arith)) ∙ s.institution;
      tool =
          contains-subset request.tool_id grant.allowed_tool_ids parent.allowed_tool_ids
            (ground arith) s.tool;
      action =
          contains-subset request.action grant.allowed_actions parent.allowed_actions (ground arith)
            s.action;
      environment =
          contains-subset request.environment grant.allowed_environments parent.allowed_environments
            (ground arith) s.environment;
      risk = ground arith;
    }

    within : outlives grant parent ≡ ok false
    unfolding narrows
    within = ground arith

    narrows-IsInForce : (now : ℕ) → IsInForce grant now → IsInForce parent now
    unfolding outlives
    narrows-IsInForce now c = elim (Result-cases (authority_time parent.valid_from)) [
      | inr (e, failed) ↦ absurd (ground (arith, within))
      | inl (start, started) ↦ elim (Result-cases (authority_time parent.valid_until)) [
        | inr (e, failed) ↦ absurd (ground (arith, within))
        | inl (finish, finished) ↦ record {
          start = start;
          finish = finish;
          start_parsed = started;
          finish_parsed = finished;
          started = ground (
            arith,
            within,
            less-ok grant.valid_from parent.valid_from c.start start {is_less = false},
          );
          unfinished = ground (
            arith,
            within,
            less-ok parent.valid_until grant.valid_until finish c.finish {is_less = false},
          );
        }
      ]
    ]

  -- `root` is the grant itself or stands above it, along the parents that validation follows.
  pub data Descends (grants : List ApprovalAuthorityGrant) (root : ApprovalAuthorityGrant)
      : ApprovalAuthorityGrant → Type 0 where
    here : Descends grants root root
    up :
        {grant parent : ApprovalAuthorityGrant}
        → grant.grant_type ≡ GrantType.delegated
        → by_digest grants (parent_key grant) ≡ some parent
        → Descends grants root parent
        → Descends grants root grant

  -- one level of validation
  validate_grant-step :
      (fuel : ℕ) (grants : List ApprovalAuthorityGrant) (grant parent : ApprovalAuthorityGrant)
      (trail : List String)
      → grant.grant_type ≡ GrantType.delegated
      → by_digest grants (parent_key grant) ≡ some parent
      → validate_grant (suc fuel) grants grant trail ≡ ok tt
      → (validate_grant fuel grants parent
            (trail ++ ApprovalAuthorityGrant.artifact_digest grant ∷ [])
          ≡ ok tt)
        × (narrows grant parent ≡ ok tt)
  unfolding validate_grant
  validate_grant-step fuel grants grant parent trail d found h =
      let digest = ApprovalAuthorityGrant.artifact_digest grant in
      >>-eq-ok (validate_grant fuel grants parent (trail ++ digest ∷ [])) (narrows grant parent)
        (ground arith)

  -- A grant that validation accepts reaches no further than any grant above it: whatever request
  -- and time it covers, every ancestor covers.
  pub validate_grant-attenuates :
      (grants : List ApprovalAuthorityGrant) (root : ApprovalAuthorityGrant) (fuel : ℕ)
      {grant : ApprovalAuthorityGrant} (trail : List String) (request : AgentActionEnvelope)
      (now : ℕ)
      → validate_grant fuel grants grant trail ≡ ok tt
      → Descends grants root grant
      → InScope grant request
      → IsInForce grant now
      → InScope root request × IsInForce root now
  validate_grant-attenuates grants root fuel trail request now h here s c = (s, c)
  validate_grant-attenuates grants root zero trail request now h (up d found rest) s c =
      absurd (unfold validate_grant in cc h)
  validate_grant-attenuates grants root (suc fuel) {grant = grant} trail request now h
        (up {parent = parent} d found rest) s c =
      let (above, narrow) = validate_grant-step fuel grants grant parent trail d found h in
      validate_grant-attenuates grants root fuel
        (trail ++ ApprovalAuthorityGrant.artifact_digest grant ∷ []) request now above rest
        (narrows-InScope grant parent narrow request s)
        (narrows-IsInForce grant parent narrow now c)
