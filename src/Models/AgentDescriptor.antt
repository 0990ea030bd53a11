-- ===== src/Models/AgentDescriptor.antt =====
-- models.py: `AgentDescriptor`, with `__post_init__` as `post_init`.
use reg_agent_ops.Base.{Bool, Result, String, [], ◌∷◌}
use reg_agent_ops.Models.Checks.{require_texts}
use reg_agent_ops.Models.Value.{Platform, Value, dict, flag, text}

pub record AgentDescriptor : Type 0 where
  pub institution_id : String
  pub agent_id : String
  pub human_owner_id : String
  pub model_provider : String
  pub model_id : String
  pub enabled : Bool

-- `asdict`, with the members of enumerations as their values
unfoldable pub encode : AgentDescriptor → Value
encode r = dict (
    ("institution_id", text r.institution_id)
    ∷ ("agent_id", text r.agent_id)
    ∷ ("human_owner_id", text r.human_owner_id)
    ∷ ("model_provider", text r.model_provider)
    ∷ ("model_id", text r.model_id)
    ∷ ("enabled", flag r.enabled)
    ∷ [])

module _ ⦃p : Platform⦄ where
  unfoldable pub post_init : AgentDescriptor → Result (Unit {0})
  post_init r = require_texts (
      ("institution_id", r.institution_id)
      ∷ ("agent_id", r.agent_id)
      ∷ ("human_owner_id", r.human_owner_id)
      ∷ ("model_provider", r.model_provider)
      ∷ ("model_id", r.model_id)
      ∷ [])
