-- ===== src/Examples/Requests.antt =====
-- A request to pay, with the registries, the bundle and the emergency stop that it meets.
use reg_agent_ops.Models.AgentActionEnvelope
use reg_agent_ops.Base.{List, String, [], true, ◌∷◌}
use reg_agent_ops.Examples.Clock.{even_digest, example_platform}
use reg_agent_ops.Models.AgentActionEnvelope.{AgentActionEnvelope}
use reg_agent_ops.Models.AuthenticatedAuthorizationDecision.{AuthenticatedAuthorizationDecision}
use reg_agent_ops.Models.DataClassification.{DataClassification}
use reg_agent_ops.Models.Decision.{Decision}
use reg_agent_ops.Models.Environment.{Environment}
use reg_agent_ops.Models.RiskTier.{RiskTier}
use reg_agent_ops.Policy.Engine.{PolicyEngine, decision_record}
use reg_agent_ops.Policy.PolicyBundle.{PolicyBundle}
use reg_agent_ops.Policy.PolicyRule.{PolicyRule}

abbrev pub request : AgentActionEnvelope
request = record {
  request_id = "request";
  institution_id = "bank";
  agent_id = "agent";
  human_owner_id = "owner";
  model_provider = "provider";
  model_id = "model";
  tool_id = "mcp:ledger:pay";
  action = "invoke";
  resource = "account";
  data_classification = DataClassification.internal;
  business_purpose = "refund";
  environment = Environment.production;
  risk_tier = RiskTier.high;
  input_digest = even_digest;
  requested_at = "2026-01-01T00:00:00Z";
  schema_version = "regagentops.agent-action-envelope.v1";
}

abbrev pub engine : PolicyEngine
engine = record {
  agents = record {
    agents =
        record {
          institution_id = "bank";
          agent_id = "agent";
          human_owner_id = "owner";
          model_provider = "provider";
          model_id = "model";
          enabled = true;
        }
        ∷ [];
  };
  tools = record {
    actions =
        record {
          institution_id = "bank";
          tool_id = "mcp:ledger:pay";
          action = "invoke";
          allowed_data_classifications = DataClassification.internal ∷ [];
          production_registered = true;
          enabled = true;
        }
        ∷ [];
  };
}

abbrev rule : String → Decision → PolicyRule
rule rule_id effect = record {
  rule_id = rule_id;
  institution_id = "bank";
  agent_id = "agent";
  tool_id = "mcp:ledger:pay";
  action = "invoke";
  business_purposes = "refund" ∷ [];
  environments = Environment.production ∷ [];
  data_classifications = DataClassification.internal ∷ [];
  risk_tiers = RiskTier.high ∷ [];
  effect = effect;
  constraints = [];
}

abbrev pub bundle_of : List PolicyRule → PolicyBundle
bundle_of rules = record {
  institution_id = "bank";
  rules = rules;
  schema_version = "regagentops.policy-bundle.v1";
}

abbrev pub allowing : PolicyBundle
allowing = bundle_of (rule "b" Decision.allow ∷ rule "a" Decision.allow ∷ [])

abbrev pub approving : PolicyBundle
approving = bundle_of (rule "b" Decision.require_human_approval ∷ rule "a" Decision.allow ∷ [])

-- the decision that the bundle `approving` leads to
abbrev pub authorization : AuthenticatedAuthorizationDecision
authorization = record {
  request_digest = AgentActionEnvelope.artifact_digest request;
  identity_context_digest = even_digest;
  authorization =
      decision_record request approving "2026-01-01T00:00:00Z" Decision.require_human_approval
        ("a" ∷ "b" ∷ []) [] ("human_approval_required_by_policy" ∷ []);
  identity_verified = true;
  evaluated_at = "2026-01-01T00:00:00Z";
  schema_version = "regagentops.authenticated-authorization-decision.v1";
}
