-- ===== src/Registry/Lookup.antt =====
-- A registry that its constructor accepts finds each of its own entries.
use reg_agent_ops.Registry.AgentRegistry
use reg_agent_ops.Registry.ToolRegistry
use reg_agent_ops.Base.{
  All, List, [], arith, beq_self, contains, false, map, nat_eq, ok, some, string_eq, texts_eq, true,
  unique, ◌∷◌, ◌≡◌,
}
use reg_agent_ops.Models.AgentDescriptor.{AgentDescriptor}
use reg_agent_ops.Models.DataClassification.{data_classification_eq}
use reg_agent_ops.Models.Decision.{decision_eq}
use reg_agent_ops.Models.Environment.{environment_eq}
use reg_agent_ops.Models.RiskTier.{risk_tier_eq}
use reg_agent_ops.Models.ToolActionDescriptor.{ToolActionDescriptor}
use reg_agent_ops.Registry.AgentRegistry.{AgentRegistry}
use reg_agent_ops.Registry.ToolRegistry.{ToolRegistry}

abbrev FindsAgent : List AgentDescriptor → AgentDescriptor → Type 0
FindsAgent agents agent =
    AgentRegistry.first agents agent.institution_id agent.agent_id ≡ some agent

FindsAgent-cons :
    (a : AgentDescriptor) (agents zs : List AgentDescriptor)
    → contains (map AgentRegistry.key zs) (AgentRegistry.key a) ≡ false
    → All (FindsAgent agents) zs
    → All (FindsAgent (a ∷ agents)) zs
FindsAgent-cons a agents [] h k = tt
FindsAgent-cons a agents (z ∷ zs) h k =
    (ground arith, FindsAgent-cons a agents zs (ground arith) k.1)

agents_found :
    (agents : List AgentDescriptor)
    → unique (map AgentRegistry.key agents) ≡ true
    → All (FindsAgent agents) agents
agents_found [] h = tt
agents_found (a ∷ agents) h = (
  ground (arith, beq_self a.institution_id, beq_self a.agent_id),
  FindsAgent-cons a agents agents (ground arith) (agents_found agents (ground arith)),
)

abbrev FindsTool : List ToolActionDescriptor → ToolActionDescriptor → Type 0
FindsTool actions item =
    ToolRegistry.first actions item.institution_id item.tool_id item.action ≡ some item

FindsTool-cons :
    (a : ToolActionDescriptor) (actions zs : List ToolActionDescriptor)
    → contains (map ToolRegistry.key zs) (ToolRegistry.key a) ≡ false
    → All (FindsTool actions) zs
    → All (FindsTool (a ∷ actions)) zs
FindsTool-cons a actions [] h k = tt
FindsTool-cons a actions (z ∷ zs) h k =
    (ground arith, FindsTool-cons a actions zs (ground arith) k.1)

tools_found :
    (actions : List ToolActionDescriptor)
    → unique (map ToolRegistry.key actions) ≡ true
    → All (FindsTool actions) actions
tools_found [] h = tt
tools_found (a ∷ actions) h = (
  ground (arith, beq_self a.institution_id, beq_self a.tool_id, beq_self a.action),
  FindsTool-cons a actions actions (ground arith) (tools_found actions (ground arith)),
)

-- In an agent registry and a tool registry that their constructors accept, `get` at the ids of a
-- registered agent or tool action returns that very entry.
pub get-registered :
    (r : AgentRegistry) (t : ToolRegistry)
    → AgentRegistry.post_init r ≡ ok tt
    → ToolRegistry.post_init t ≡ ok tt
    → All (λ agent. AgentRegistry.get r agent.institution_id agent.agent_id ≡ some agent) r.agents
      × All
          (λ item. ToolRegistry.get t item.institution_id item.tool_id item.action ≡ some item)
          t.actions
unfolding AgentRegistry.post_init AgentRegistry.get ToolRegistry.post_init ToolRegistry.get
get-registered r t h k =
    (agents_found r.agents (ground arith), tools_found t.actions (ground arith))
