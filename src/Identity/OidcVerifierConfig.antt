-- ===== src/Identity/OidcVerifierConfig.antt =====
-- identity_models.py: `OidcVerifierConfig`, with `__post_init__` as `post_init`.
use reg_agent_ops.Base.{
  List, Result, String, [], contains, contains_code, distinct, for_each, is_empty, leb, nat_eq, not,
  raise_if, select, starts_with, string_eq, texts_eq, unique, value_error, ℕ, ◌&&◌, ◌+++◌, ◌>>◌,
  ◌||◌, ◌∷◌,
}
use reg_agent_ops.Base.Sort.{sort_texts}
use reg_agent_ops.Identity.Checks.{identifier}
use reg_agent_ops.Models.Checks.{default_limit, require_text}
use reg_agent_ops.Models.DataClassification.{data_classification_eq}
use reg_agent_ops.Models.Decision.{decision_eq}
use reg_agent_ops.Models.Environment.{environment_eq}
use reg_agent_ops.Models.RiskTier.{risk_tier_eq}
use reg_agent_ops.Models.Value.{Platform, Value, dict, digest_artifact, num, text, texts}

pub record OidcVerifierConfig : Type 0 where
  pub institution_id : String
  pub provider_id : String
  pub issuer : String
  pub client_id : String
  pub allowed_algorithms : List String
  pub max_token_age_seconds : ℕ
  pub required_acr_values : List String
  pub schema_version : String

-- `asdict`, with the members of enumerations as their values
unfoldable pub encode : OidcVerifierConfig → Value
encode r = dict (
    ("institution_id", text r.institution_id)
    ∷ ("provider_id", text r.provider_id)
    ∷ ("issuer", text r.issuer)
    ∷ ("client_id", text r.client_id)
    ∷ ("allowed_algorithms", texts r.allowed_algorithms)
    ∷ ("max_token_age_seconds", num r.max_token_age_seconds)
    ∷ ("required_acr_values", texts r.required_acr_values)
    ∷ ("schema_version", text r.schema_version)
    ∷ [])

-- _ALLOWED_OIDC_ALGORITHMS
abbrev pub allowed_oidc_algorithms : List String
allowed_oidc_algorithms = "RS256" ∷ "PS256" ∷ "ES256" ∷ "EdDSA" ∷ []

-- `set(self.allowed_algorithms) - _ALLOWED_OIDC_ALGORITHMS`
abbrev pub unsupported_algorithms : OidcVerifierConfig → List String
unsupported_algorithms r =
    select (λ algorithm. not (contains allowed_oidc_algorithms algorithm)) r.allowed_algorithms

module _ ⦃p : Platform⦄ where
  unfoldable pub artifact_digest : OidcVerifierConfig → String
  artifact_digest r = digest_artifact (encode r)

  unfoldable pub post_init : OidcVerifierConfig → Result (Unit {0})
  post_init r = do
    identifier "institution_id" r.institution_id
    identifier "provider_id" r.provider_id
    require_text "issuer" r.issuer 512
    require_text "client_id" r.client_id default_limit
    raise_if
        (not (starts_with r.issuer "https://")
          || contains_code b'?' r.issuer
          || contains_code b'#' r.issuer)
        (value_error "issuer must be an HTTPS URL without query or fragment")
    raise_if (is_empty r.allowed_algorithms || not (unique r.allowed_algorithms))
        (value_error "allowed_algorithms must be non-empty and unique")
    let unsupported = unsupported_algorithms r
    raise_if (not (is_empty unsupported)) (
        value_error (
          "unsupported OIDC signing algorithm(s): "
          +++ p.repr_texts (sort_texts (distinct unsupported))))
    raise_if (not (leb 1 r.max_token_age_seconds && leb r.max_token_age_seconds 3600))
        (value_error "max_token_age_seconds must be between 1 and 3600")
    raise_if (not (unique r.required_acr_values)) (value_error "required_acr_values must be unique")
    for_each r.required_acr_values (λ value. require_text "required_acr_value" value default_limit)
