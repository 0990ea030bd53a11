-- ===== src/Tenants/Checks.antt =====
-- hardening.py: the checks of PostgreSQL identifiers and session settings.
use reg_agent_ops.Base.{
  Bool, List, Option, Result, String, [], all, codes, eqb, false, if◌then◌else◌, leb, length, none,
  not, raise_if, some, value_error, ℕ, ◌&&◌, ◌+++◌, ◌||◌, ◌∷◌,
}

-- a character of `[a-z_]`
abbrev pub is_sql_start : ℕ → Bool
is_sql_start c = (leb b'a' c && leb c b'z') || eqb c b'_'

-- a character of `[a-z0-9_]`
abbrev pub is_sql_char : ℕ → Bool
is_sql_char c = is_sql_start c || (leb b'0' c && leb c b'9')

-- `[a-z_][a-z0-9_]{0,62}`
abbrev pub sql_codes : List ℕ → Bool
sql_codes [] = false
sql_codes (c ∷ cs) = is_sql_start c && leb (length cs) 62 && all is_sql_char cs

-- `_SQL_IDENTIFIER.fullmatch(value)`
unfoldable pub is_sql_identifier : String → Bool
unfolding codes
is_sql_identifier value = sql_codes (codes value)

-- what follows a prefix, where a text begins with it
abbrev pub after_prefix : List ℕ → List ℕ → Option (List ℕ)
after_prefix [] cs = some cs
after_prefix (k ∷ ks) [] = none
after_prefix (k ∷ ks) (c ∷ cs) = let rest = after_prefix ks cs in if eqb k c then rest else none

-- `_SESSION_SETTING.fullmatch(value)`
unfoldable pub is_session_setting : String → Bool
unfolding codes
is_session_setting value = elim (after_prefix (codes "regagentops.") (codes value)) [
  | none ↦ false
  | some rest ↦ sql_codes rest
]

-- `_require_identifier`
unfoldable pub require_sql_identifier : String → String → Result (Unit {0})
unfolding is_sql_identifier
require_sql_identifier name value =
    raise_if (not (is_sql_identifier value))
      (value_error (name +++ " must be a safe lowercase PostgreSQL identifier"))

-- `_require_setting`
unfoldable pub require_setting : String → String → Result (Unit {0})
unfolding is_session_setting
require_setting name value =
    raise_if (not (is_session_setting value))
      (value_error (name +++ " must be a regagentops.* PostgreSQL session setting"))
