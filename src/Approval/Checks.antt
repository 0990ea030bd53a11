-- ===== src/Approval/Checks.antt =====
-- The checks of approval_models.py and approval_signature.py, which differ from those of models.py in their messages alone.
use reg_agent_ops.Base.{
  Error, List, Result, String, contains_code, ends_with_z, eqb, for_each, if◌then◌else◌, is_blank,
  is_hex_64, len, ltb, not, raise_if, value_error, ℕ, ◌%◌, ◌+++◌, ◌>>◌, ◌||◌,
}
use reg_agent_ops.Models.Checks.{instant, or_raise}
use reg_agent_ops.Models.Value.{Platform}

-- `_text`
unfoldable pub bounded_text : String → String → ℕ → Result (Unit {0})
bounded_text name value limit =
    raise_if (is_blank value || ltb limit (len value))
      (value_error (name +++ " must be non-empty bounded text"))

unfoldable pub bounded_texts : List (String × String) → Result (Unit {0})
unfolding bounded_text
bounded_texts entries = for_each entries (λ e. bounded_text e.0 e.1 256)

-- `if not _HEX_64.fullmatch(getattr(self, name)): raise ...`
unfoldable pub digests : List (String × String) → Result (Unit {0})
digests entries = for_each entries (λ e.
    raise_if (not (is_hex_64 e.1)) (value_error (e.0 +++ " must be a lowercase SHA-256 digest")))

-- `"=" * (-len(value) % 4)`
abbrev pub padding : String → String
padding value =
    let n = len value % 4 in
    if eqb n 0 then "" else if eqb n 1 then "===" else if eqb n 2 then "==" else "="

module _ ⦃p : Platform⦄ where
  -- `_timestamp`
  unfoldable pub timestamp : String → String → Result ℕ
  unfolding bounded_text
  timestamp name value = do
    bounded_text name value 64
    raise_if (not (ends_with_z value)) (value_error (name +++ " must be RFC3339 UTC"))
    or_raise (instant value) (value_error (name +++ " must be valid RFC3339 UTC"))

  -- `_parse` of approval_signature.py, approval_authority.py and approval_engine.py, which raise
  -- their own errors
  unfoldable pub parse_with : Error → Error → String → Result ℕ
  parse_with not_utc invalid value = do
    raise_if (not (ends_with_z value)) not_utc
    or_raise (instant value) invalid

  -- `_decode`
  unfoldable pub decode : String → Result (List ℕ)
  decode value = do
    raise_if (contains_code b'=' value) (value_error "base64url values must be unpadded text")
    or_raise (p.urlsafe_b64decode (value +++ padding value)) (value_error "invalid base64url value")
