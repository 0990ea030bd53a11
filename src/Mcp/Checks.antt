-- ===== src/Mcp/Checks.antt =====
-- mcp.py: the constants and the pattern of tool names.
use reg_agent_ops.Base.{Bool, String, all, codes, eqb, leb, len, ℕ, ◌&&◌, ◌||◌}

-- MCP_MAX_TOOLS_PER_SNAPSHOT
abbrev pub max_tools_per_snapshot : ℕ
max_tools_per_snapshot = 128

-- MCP_TOOL_ACTION
abbrev pub mcp_tool_action : String
mcp_tool_action = "invoke"

-- a character of `[A-Za-z0-9_.-]`
unfoldable pub is_tool_char : ℕ → Bool
is_tool_char c =
    (leb b'A' c && leb c b'Z')
    || (leb b'a' c && leb c b'z')
    || (leb b'0' c && leb c b'9')
    || eqb c b'_'
    || eqb c b'.'
    || eqb c b'-'

-- `_MCP_TOOL_NAME.fullmatch(value)`
unfoldable pub is_tool_name : String → Bool
unfolding is_tool_char codes len
is_tool_name name = leb 1 (len name) && leb (len name) 128 && all is_tool_char (codes name)
