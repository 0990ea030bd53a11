-- ===== src/Registry/ToolRegistry.antt =====
-- registry.py: `ToolRegistry`, with `__post_init__` as `post_init`.
use reg_agent_ops.Base.{
  List, Option, Result, String, [], if◌then◌else◌, map, nat_eq, none, not, raise_if, some,
  string_eq, texts_eq, unique, value_error, ◌&&◌, ◌==◌, ◌∷◌,
}
use reg_agent_ops.Models.ToolActionDescriptor.{ToolActionDescriptor}

pub record ToolRegistry : Type 0 where
  pub actions : List ToolActionDescriptor

-- `(item.institution_id, item.tool_id, item.action)`
abbrev pub key : ToolActionDescriptor → List String
key item = item.institution_id ∷ item.tool_id ∷ item.action ∷ []

unfoldable pub post_init : ToolRegistry → Result (Unit {0})
post_init r =
    raise_if (not (unique (map key r.actions)))
      (value_error "tool registry contains duplicate institution/tool/action identities")

-- `get`: the first action with the three ids
abbrev pub first :
    List ToolActionDescriptor → String → String → String → Option ToolActionDescriptor
first [] institution_id tool_id action = none
first (item ∷ items) institution_id tool_id action =
    let rest = first items institution_id tool_id action in
    if item.institution_id == institution_id && item.tool_id == tool_id && item.action == action
    then some item
    else rest

unfoldable pub get : ToolRegistry → String → String → String → Option ToolActionDescriptor
get r = first r.actions

-- @no items
