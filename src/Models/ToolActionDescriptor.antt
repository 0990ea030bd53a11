-- ===== src/Models/ToolActionDescriptor.antt =====
-- models.py: `ToolActionDescriptor`, with `__post_init__` as `post_init`.
use reg_agent_ops.Models.DataClassification
use reg_agent_ops.Base.{
  Bool, List, Result, String, [], is_empty, nat_eq, not, raise_if, string_eq, unique, value_error,
  ◌>>◌, ◌∷◌,
}
use reg_agent_ops.Models.Checks.{require_texts}
use reg_agent_ops.Models.DataClassification.{DataClassification, data_classification_eq}
use reg_agent_ops.Models.Value.{Platform, Value, array_of, dict, flag, text}

pub record ToolActionDescriptor : Type 0 where
  pub institution_id : String
  pub tool_id : String
  pub action : String
  pub allowed_data_classifications : List DataClassification
  pub production_registered : Bool
  pub enabled : Bool

-- `asdict`, with the members of enumerations as their values
unfoldable pub encode : ToolActionDescriptor → Value
encode r = dict (
    ("institution_id", text r.institution_id)
    ∷ ("tool_id", text r.tool_id)
    ∷ ("action", text r.action)
    ∷ (
      "allowed_data_classifications",
      array_of (λ v. text (DataClassification.value v)) r.allowed_data_classifications,
    )
    ∷ ("production_registered", flag r.production_registered)
    ∷ ("enabled", flag r.enabled)
    ∷ [])

module _ ⦃p : Platform⦄ where
  unfoldable pub post_init : ToolActionDescriptor → Result (Unit {0})
  post_init r = do
    require_texts
        (("institution_id", r.institution_id) ∷ ("tool_id", r.tool_id) ∷ ("action", r.action) ∷ [])
    raise_if (is_empty r.allowed_data_classifications)
        (value_error "allowed_data_classifications must not be empty")
    raise_if (not (unique r.allowed_data_classifications))
        (value_error "allowed_data_classifications must be unique")
