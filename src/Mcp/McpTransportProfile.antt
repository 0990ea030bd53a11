-- ===== src/Mcp/McpTransportProfile.antt =====
-- mcp.py: `McpTransportProfile`, an enumeration of texts.
use reg_agent_ops.Base.{
  Bool, Eq, String, arith, eqb, nat_eq, string_eq, texts_eq, true, ℕ, ◌↔◌, ◌≡◌,
}

pub data McpTransportProfile : Type 0 where
  stdio streamable_http other : McpTransportProfile

-- `.value`
unfoldable pub value : McpTransportProfile → String
value stdio = "stdio"
value streamable_http = "streamable_http"
value other = "other"

-- the place in the declaration
abbrev pub rank : McpTransportProfile → ℕ
rank stdio = 0
rank streamable_http = 1
rank other = 2

abbrev is : McpTransportProfile → McpTransportProfile → Bool
is a b = eqb (rank a) (rank b)

pub is_iff : (a b : McpTransportProfile) → (is a b ≡ true) ↔ (a ≡ b)
is_iff a b = (λ h. ground arith, λ h. ground arith)

instance abbrev pub mcp_transport_profile_eq : Eq McpTransportProfile
mcp_transport_profile_eq = record { beq = is; beq_iff = is_iff }
