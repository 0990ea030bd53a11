-- ===== src/Models/Checks.antt =====
-- models.py: the checks that the constructors share, and what a timestamp means.
use reg_agent_ops.Base.{
  >>-eq-ok, >>=-eq-ok, Bool, Error, List, Option, Result, String, arith, decimal, drop_last,
  ends_with_z, err, false, for_each, is_blank, is_hex_64, leb, len, ltb, none, not, ok,
  ok-injective, raise_if, raise_if-ok, refl, some, sym, true, type_error, value_error, ℕ, ◌+++◌,
  ◌<◌, ◌>>=◌, ◌>>◌, ◌||◌, ◌≡◌, ◌≤◌,
}
use reg_agent_ops.Models.Value.{DateTime, Platform}

-- `_require_text`
unfoldable pub require_text : String → String → ℕ → Result (Unit {0})
require_text name value limit = raise_if (is_blank value || ltb limit (len value)) (
    value_error
      (name +++ " must be non-empty text no longer than " +++ decimal limit +++ " characters"))

-- the default limit of `_require_text`
abbrev pub default_limit : ℕ
default_limit = 256

-- `for name in (...): _require_text(name, getattr(self, name))`
unfoldable pub require_texts : List (String × String) → Result (Unit {0})
unfolding require_text
require_texts entries = for_each entries (λ e. require_text e.0 e.1 default_limit)

-- a value, or the exception raised where there is none
abbrev pub or_raise {ℓ} : {A : Type ℓ} → Option A → Error → Result A
or_raise none e = err e
or_raise (some a) e = ok a

-- `a != b` of two truth values
abbrev pub unlike : Bool → Bool → Bool
unlike true b = not b
unlike false b = b

unlike_same : (a b : Bool) → unlike a b ≡ false → a ≡ b
unlike_same true true h = refl
unlike_same true false h = cc
unlike_same false true h = cc
unlike_same false false h = refl

unlike_self : (a : Bool) → unlike a a ≡ false
unlike_self true = refl
unlike_self false = refl

module _ ⦃p : Platform⦄ where
  -- `datetime.fromisoformat(value[:-1] + "+00:00")`
  abbrev pub date_time : String → Option DateTime
  date_time value = p.fromisoformat (drop_last value +++ "+00:00")

  -- its microseconds, and whether it is aware
  abbrev pub instant : String → Option ℕ
  instant value = elim (date_time value) [ none ↦ none | some t ↦ some t.microseconds ]

  unfoldable pub is_aware : String → Bool
  is_aware value = elim (date_time value) [ none ↦ false | some t ↦ t.aware ]

  -- `a < b` of two times, which raises where one is naive and the other aware. Their texts come
  -- first, then their microseconds.
  unfoldable pub less : String → String → ℕ → ℕ → Result Bool
  less a b x y = do
    raise_if (unlike (is_aware a) (is_aware b))
        (type_error "can't compare offset-naive and offset-aware datetimes")
    ok (ltb x y)

  -- `if a < b: raise ...` and `if a >= b: raise ...`
  unfoldable pub raise_if_less : String → String → ℕ → ℕ → Error → Result (Unit {0})
  unfolding less
  raise_if_less a b x y e = do is_less ← less a b x y; raise_if is_less e

  unfoldable pub raise_unless_less : String → String → ℕ → ℕ → Error → Result (Unit {0})
  unfolding less
  raise_unless_less a b x y e = do is_less ← less a b x y; raise_if (not is_less) e

  pub less-ok :
      (a b : String) (x y : ℕ) {is_less : Bool}
      → less a b x y ≡ ok is_less
      → (is_aware a ≡ is_aware b) × (is_less ≡ ltb x y)
  unfolding less
  less-ok a b x y h =
      let (same, h₁) = >>-eq-ok (raise_if (unlike (is_aware a) (is_aware b)) _) _ h in
      (unlike_same (is_aware a) (is_aware b) (raise_if-ok _ _ same), sym (ok-injective h₁))

  pub less-aware : (a b : String) (x y : ℕ) → is_aware a ≡ is_aware b → less a b x y ≡ ok (ltb x y)
  unfolding less
  less-aware a b x y same = rw same (rw (unlike_self (is_aware b)) refl)

  pub raise_if_less-ok :
      (a b : String) (x y : ℕ) (e : Error)
      → raise_if_less a b x y e ≡ ok tt
      → (is_aware a ≡ is_aware b) × (y ≤ x)
  unfolding raise_if_less
  raise_if_less-ok a b x y e h =
      let (is_less, compared, h₁) = >>=-eq-ok (less a b x y) _ h in
      let (same, is) = less-ok a b x y compared in (same, ground (arith, is, raise_if-ok _ _ h₁))

  pub raise_unless_less-ok :
      (a b : String) (x y : ℕ) (e : Error)
      → raise_unless_less a b x y e ≡ ok tt
      → (is_aware a ≡ is_aware b) × (x < y)
  unfolding raise_unless_less
  raise_unless_less-ok a b x y e h =
      let (is_less, compared, h₁) = >>=-eq-ok (less a b x y) _ h in
      let (same, is) = less-ok a b x y compared in (same, ground (arith, is, raise_if-ok _ _ h₁))

  pub raise_if_less-passes :
      (a b : String) (x y : ℕ) (e : Error)
      → is_aware a ≡ is_aware b
      → y ≤ x
      → raise_if_less a b x y e ≡ ok tt
  unfolding raise_if_less
  raise_if_less-passes a b x y e same order = rw (less-aware a b x y same) (ground arith)

  pub raise_unless_less-passes :
      (a b : String) (x y : ℕ) (e : Error)
      → is_aware a ≡ is_aware b
      → x < y
      → raise_unless_less a b x y e ≡ ok tt
  unfolding raise_unless_less
  raise_unless_less-passes a b x y e same order = rw (less-aware a b x y same) (ground arith)

  -- `_require_utc_timestamp`, with the time that the callers parse once more
  unfoldable pub utc_timestamp : String → String → Result ℕ
  utc_timestamp name value = do
    require_text name value 64
    raise_if (not (ends_with_z value))
        (value_error (name +++ " must be an RFC3339 UTC timestamp ending in Z"))
    or_raise (instant value) (value_error (name +++ " must be a valid RFC3339 UTC timestamp"))

  unfoldable pub require_utc_timestamp : String → String → Result (Unit {0})
  unfolding utc_timestamp
  require_utc_timestamp name value = do _ ← utc_timestamp name value; ok tt

-- `_require_digest` of mcp.py and of execution.py, which are the same
unfoldable pub require_digest : String → String → Result (Unit {0})
require_digest name value =
    raise_if (not (is_hex_64 value))
      (value_error (name +++ " must be a lowercase SHA-256 hex digest"))

unfoldable pub require_optional_digest : String → Option String → Result (Unit {0})
unfolding require_digest
require_optional_digest name none = ok tt
require_optional_digest name (some value) = require_digest name value

unfoldable pub require_digests : List (String × String) → Result (Unit {0})
unfolding require_digest
require_digests entries = for_each entries (λ e. require_digest e.0 e.1)

-- `_require_positive_int` of mcp.py and of execution.py
unfoldable pub require_positive : String → ℕ → Result (Unit {0})
require_positive name value =
    raise_if (leb value 0) (value_error (name +++ " must be a positive integer"))

-- EXECUTION_LEASE_MAX_SECONDS of execution.py
abbrev pub max_lease_seconds : ℕ
max_lease_seconds = 120
