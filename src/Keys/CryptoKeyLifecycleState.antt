-- ===== src/Keys/CryptoKeyLifecycleState.antt =====
-- hardening.py: `CryptoKeyLifecycleState`, with `__post_init__` as `post_init`.
use reg_agent_ops.Keys.CryptoKeyPurpose
use reg_agent_ops.Keys.CryptoKeyStatus
use reg_agent_ops.Base.{Result, String, [], ℕ, ◌>>◌, ◌∷◌}
use reg_agent_ops.Keys.CryptoKeyPurpose.{CryptoKeyPurpose}
use reg_agent_ops.Keys.CryptoKeyStatus.{CryptoKeyStatus}
use reg_agent_ops.Models.Checks.{
  require_digest, require_positive, require_texts, require_utc_timestamp,
}
use reg_agent_ops.Models.Value.{Platform, Value, dict, digest_artifact, num, text}

pub record CryptoKeyLifecycleState : Type 0 where
  pub institution_id : String
  pub tenant_id : String
  pub purpose : CryptoKeyPurpose
  pub key_reference_digest : String
  pub state_version : ℕ
  pub status : CryptoKeyStatus
  pub effective_at : String
  pub schema_version : String

-- `asdict`, with the members of enumerations as their values
unfoldable pub encode : CryptoKeyLifecycleState → Value
encode r = dict (
    ("institution_id", text r.institution_id)
    ∷ ("tenant_id", text r.tenant_id)
    ∷ ("purpose", text (CryptoKeyPurpose.value r.purpose))
    ∷ ("key_reference_digest", text r.key_reference_digest)
    ∷ ("state_version", num r.state_version)
    ∷ ("status", text (CryptoKeyStatus.value r.status))
    ∷ ("effective_at", text r.effective_at)
    ∷ ("schema_version", text r.schema_version)
    ∷ [])

module _ ⦃p : Platform⦄ where
  unfoldable pub artifact_digest : CryptoKeyLifecycleState → String
  artifact_digest r = digest_artifact (encode r)

  unfoldable pub post_init : CryptoKeyLifecycleState → Result (Unit {0})
  post_init r = do
    require_texts (
        ("institution_id", r.institution_id)
        ∷ ("tenant_id", r.tenant_id)
        ∷ ("schema_version", r.schema_version)
        ∷ [])
    require_digest "key_reference_digest" r.key_reference_digest
    require_positive "state_version" r.state_version
    require_utc_timestamp "effective_at" r.effective_at
