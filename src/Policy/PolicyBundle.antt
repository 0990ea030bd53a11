-- ===== src/Policy/PolicyBundle.antt =====
-- policy.py: `PolicyBundle`, with `__post_init__` as `post_init`.
use reg_agent_ops.Policy.PolicyRule
use reg_agent_ops.Base.{
  List, Result, String, [], any, is_blank, map, nat_eq, not, raise_if, string_eq, texts_eq, unique,
  value_error, ◌!=◌, ◌>>◌, ◌∷◌,
}
use reg_agent_ops.Models.Value.{Platform, Value, array_of, dict, digest_artifact, text}
use reg_agent_ops.Policy.PolicyRule.{PolicyRule}

pub record PolicyBundle : Type 0 where
  pub institution_id : String
  pub rules : List PolicyRule
  pub schema_version : String

-- `asdict`, with the members of enumerations as their values
unfoldable pub encode : PolicyBundle → Value
encode r = dict (
    ("institution_id", text r.institution_id)
    ∷ ("rules", array_of PolicyRule.encode r.rules)
    ∷ ("schema_version", text r.schema_version)
    ∷ [])

module _ ⦃p : Platform⦄ where
  unfoldable pub artifact_digest : PolicyBundle → String
  artifact_digest r = digest_artifact (encode r)

  unfoldable pub post_init : PolicyBundle → Result (Unit {0})
  post_init r = do
    raise_if (is_blank r.institution_id) (value_error "institution_id must not be empty")
    raise_if (not (unique (map (λ rule. rule.rule_id) r.rules)))
        (value_error "policy bundle contains duplicate rule ids")
    raise_if (any (λ rule. rule.institution_id != r.institution_id) r.rules)
        (value_error "every policy rule must belong to the policy bundle institution")
