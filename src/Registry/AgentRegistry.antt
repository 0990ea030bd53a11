-- ===== src/Registry/AgentRegistry.antt =====
-- registry.py: `AgentRegistry`, with `__post_init__` as `post_init`.
use reg_agent_ops.Base.{
  List, Option, Result, String, [], if◌then◌else◌, map, nat_eq, none, not, raise_if, some,
  string_eq, texts_eq, unique, value_error, ◌&&◌, ◌==◌, ◌∷◌,
}
use reg_agent_ops.Models.AgentDescriptor.{AgentDescriptor}

pub record AgentRegistry : Type 0 where
  pub agents : List AgentDescriptor

-- `(agent.institution_id, agent.agent_id)`
abbrev pub key : AgentDescriptor → List String
key agent = agent.institution_id ∷ agent.agent_id ∷ []

unfoldable pub post_init : AgentRegistry → Result (Unit {0})
post_init r =
    raise_if (not (unique (map key r.agents)))
      (value_error "agent registry contains duplicate institution/agent identities")

-- `get`: the first agent with the two ids
abbrev pub first : List AgentDescriptor → String → String → Option AgentDescriptor
first [] institution_id agent_id = none
first (agent ∷ agents) institution_id agent_id =
    let rest = first agents institution_id agent_id in
    if agent.institution_id == institution_id && agent.agent_id == agent_id
    then some agent
    else rest

unfoldable pub get : AgentRegistry → String → String → Option AgentDescriptor
get r = first r.agents
