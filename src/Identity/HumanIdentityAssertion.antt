-- ===== src/Identity/HumanIdentityAssertion.antt =====
-- identity_models.py: `HumanIdentityAssertion`, with `__post_init__` as `post_init`.
use reg_agent_ops.Base.{
  List, Option, Result, String, [], contains, for_each, is_empty, nat_eq, none, not, ok, raise_if,
  some, string_eq, texts_eq, unique, value_error, ◌>>=◌, ◌>>◌, ◌||◌, ◌∷◌,
}
use reg_agent_ops.Identity.Checks.{aware_timestamp, identifiers, interval}
use reg_agent_ops.Identity.OidcVerifierConfig.{allowed_oidc_algorithms}
use reg_agent_ops.Models.Checks.{default_limit, require_digests, require_text}
use reg_agent_ops.Models.DataClassification.{data_classification_eq}
use reg_agent_ops.Models.Decision.{decision_eq}
use reg_agent_ops.Models.Environment.{environment_eq}
use reg_agent_ops.Models.RiskTier.{risk_tier_eq}
use reg_agent_ops.Models.Value.{Platform, Value, dict, digest_artifact, optional, text, texts}

pub record HumanIdentityAssertion : Type 0 where
  pub institution_id : String
  pub provider_id : String
  pub human_owner_id : String
  pub issuer : String
  pub subject : String
  pub audiences : List String
  pub client_id : String
  pub key_id : String
  pub algorithm : String
  pub token_digest : String
  pub claims_digest : String
  pub nonce_digest : String
  pub jwks_digest : String
  pub provider_config_digest : String
  pub issued_at : String
  pub expires_at : String
  pub auth_time : Option String
  pub acr : Option String
  pub schema_version : String

-- `asdict`, with the members of enumerations as their values
unfoldable pub encode : HumanIdentityAssertion → Value
encode r = dict (
    ("institution_id", text r.institution_id)
    ∷ ("provider_id", text r.provider_id)
    ∷ ("human_owner_id", text r.human_owner_id)
    ∷ ("issuer", text r.issuer)
    ∷ ("subject", text r.subject)
    ∷ ("audiences", texts r.audiences)
    ∷ ("client_id", text r.client_id)
    ∷ ("key_id", text r.key_id)
    ∷ ("algorithm", text r.algorithm)
    ∷ ("token_digest", text r.token_digest)
    ∷ ("claims_digest", text r.claims_digest)
    ∷ ("nonce_digest", text r.nonce_digest)
    ∷ ("jwks_digest", text r.jwks_digest)
    ∷ ("provider_config_digest", text r.provider_config_digest)
    ∷ ("issued_at", text r.issued_at)
    ∷ ("expires_at", text r.expires_at)
    ∷ ("auth_time", optional r.auth_time)
    ∷ ("acr", optional r.acr)
    ∷ ("schema_version", text r.schema_version)
    ∷ [])

module _ ⦃p : Platform⦄ where
  unfoldable pub artifact_digest : HumanIdentityAssertion → String
  artifact_digest r = digest_artifact (encode r)

  unfoldable pub post_init : HumanIdentityAssertion → Result (Unit {0})
  post_init r = do
    identifiers (
        ("institution_id", r.institution_id)
        ∷ ("provider_id", r.provider_id)
        ∷ ("human_owner_id", r.human_owner_id)
        ∷ ("subject", r.subject)
        ∷ ("key_id", r.key_id)
        ∷ [])
    require_text "issuer" r.issuer 512
    require_text "client_id" r.client_id default_limit
    raise_if (not (contains allowed_oidc_algorithms r.algorithm))
        (value_error "algorithm is not an allowed asymmetric OIDC algorithm")
    raise_if (is_empty r.audiences || not (unique r.audiences))
        (value_error "audiences must be non-empty and unique")
    for_each r.audiences (λ audience. require_text "audience" audience default_limit)
    require_digests (
        ("token_digest", r.token_digest)
        ∷ ("claims_digest", r.claims_digest)
        ∷ ("nonce_digest", r.nonce_digest)
        ∷ ("jwks_digest", r.jwks_digest)
        ∷ ("provider_config_digest", r.provider_config_digest)
        ∷ [])
    lifetime ← interval "issued_at" r.issued_at "expires_at" r.expires_at
    elim r.auth_time [
      | none ↦ ok tt
      | some auth_time ↦ (do _ ← aware_timestamp "auth_time" auth_time; ok tt)
    ]
    elim r.acr [ none ↦ ok tt | some acr ↦ require_text "acr" acr default_limit ]
