-- ===== src/Identity/Checks.antt =====
-- identity_models.py: the checks of the constructors. `_text` and `_digest` say the same as
-- `_require_text` and `_require_digest`.
use reg_agent_ops.Approval.Checks.{padding}
use reg_agent_ops.Base.{
  >>-eq-ok, >>=-eq-ok, Bool, List, Result, String, [], all, arith, codes, contains_code, decimal,
  eqb, false, for_each, leb, length, not, ok, raise_if, raise_if-ok, true, value_error, ℕ, ◌&&◌,
  ◌+++◌, ◌-◌, ◌>>=◌, ◌>>◌, ◌||◌, ◌∷◌, ◌≡◌,
}
use reg_agent_ops.Models.Checks.{default_limit, is_aware, or_raise, require_text, utc_timestamp}
use reg_agent_ops.Models.Value.{Platform}

-- a character of `[A-Za-z0-9]`
abbrev pub is_alphanumeric : ℕ → Bool
is_alphanumeric c =
    (leb b'A' c && leb c b'Z') || (leb b'a' c && leb c b'z') || (leb b'0' c && leb c b'9')

-- a character of `[A-Za-z0-9._:/@+-]`
abbrev pub is_identifier_char : ℕ → Bool
is_identifier_char c =
    is_alphanumeric c
    || eqb c b'.'
    || eqb c b'_'
    || eqb c b':'
    || eqb c b'/'
    || eqb c b'@'
    || eqb c b'+'
    || eqb c b'-'

-- `_ID.fullmatch(value)`
abbrev pub identifier_codes : List ℕ → Bool
identifier_codes [] = false
identifier_codes (c ∷ cs) = is_alphanumeric c && leb (length cs) 255 && all is_identifier_char cs

unfoldable pub is_identifier : String → Bool
unfolding codes
is_identifier value = identifier_codes (codes value)

-- `_identifier`
unfoldable pub identifier : String → String → Result (Unit {0})
unfolding is_identifier
identifier name value = do
  require_text name value default_limit
  raise_if (not (is_identifier value)) (value_error (name +++ " contains unsupported characters"))

-- `for name in (...): _identifier(name, getattr(self, name))`
unfoldable pub identifiers : List (String × String) → Result (Unit {0})
unfolding identifier
identifiers entries = for_each entries (λ e. identifier e.0 e.1)

module _ ⦃p : Platform⦄ where
  -- `_b64url` with `expected_bytes`
  unfoldable pub b64url : String → String → ℕ → Result (Unit {0})
  b64url name value expected = do
    require_text name value 4096
    raise_if (contains_code b'=' value) (value_error (name +++ " must be unpadded base64url"))
    raw ←
        or_raise (p.urlsafe_b64decode (value +++ padding value))
          (value_error (name +++ " must be valid base64url"))
    raise_if (not (eqb (length raw) expected))
        (value_error (name +++ " must decode to " +++ decimal expected +++ " bytes"))

  -- `_timestamp`, which refuses a naive time
  unfoldable pub aware_timestamp : String → String → Result ℕ
  aware_timestamp name value = do
    parsed ← utc_timestamp name value
    raise_if (not (is_aware value)) (value_error (name +++ " must use UTC"))
    ok parsed

  aware_timestamp-aware :
      (name value : String) {t : ℕ} → aware_timestamp name value ≡ ok t → is_aware value ≡ true
  unfolding aware_timestamp
  aware_timestamp-aware name value h =
      let (parsed, _, h₁) = >>=-eq-ok (utc_timestamp name value) _ h in
      let (utc, _) = >>-eq-ok (raise_if (not (is_aware value)) _) _ h₁ in
      ground (arith, raise_if-ok _ _ utc)

  -- two timestamps of which the second is later; their distance in microseconds
  unfoldable pub interval : String → String → String → String → Result ℕ
  unfolding aware_timestamp
  interval start_name start end_name finish = do
    from ← aware_timestamp start_name start
    to ← aware_timestamp end_name finish
    raise_if (leb to from) (value_error (end_name +++ " must be after " +++ start_name))
    ok (to - from)

  -- the times of an interval are not naive
  pub interval-aware :
      (start_name start end_name finish : String) {length : ℕ}
      → interval start_name start end_name finish ≡ ok length
      → (is_aware start ≡ true) × (is_aware finish ≡ true)
  unfolding interval
  interval-aware start_name start end_name finish h =
      let (from, from_parsed, h₁) = >>=-eq-ok (aware_timestamp start_name start) _ h in
      let (to, to_parsed, h₂) = >>=-eq-ok (aware_timestamp end_name finish) _ h₁ in
      (
        aware_timestamp-aware start_name start from_parsed,
        aware_timestamp-aware end_name finish to_parsed,
      )
