-- ===== src/Keys/Registry/Disabled.antt =====
-- A disabled key is used for no new operation, whatever is registered afterwards.
use reg_agent_ops.Base.{
  >>-eq-ok, >>=-eq-ok, Bool-cases, Error, List, String, [], ap, arith, eqb, err, inl, inr, last?,
  nat_eq, not, ok, ok-injective, raise_if, raise_if-ok, some, some-injective, string_eq, sym,
  texts_eq, unit_result, ℕ, ◌!=◌, ◌||◌, ◌∙◌, ◌∷◌, ◌≡◌, ◌≤◌,
}
use reg_agent_ops.Keys.CryptoAlgorithm.{crypto_algorithm_eq}
use reg_agent_ops.Keys.CryptoKeyCustody.{crypto_key_custody_eq}
use reg_agent_ops.Keys.CryptoKeyLifecycleState.{CryptoKeyLifecycleState}
use reg_agent_ops.Keys.CryptoKeyPurpose.{crypto_key_purpose_eq}
use reg_agent_ops.Keys.CryptoKeyStatus.{CryptoKeyStatus, crypto_key_status_eq}
use reg_agent_ops.Keys.InstitutionCryptoKeyReference.{InstitutionCryptoKeyReference, key_time}
use reg_agent_ops.Keys.Registry.{InstitutionCryptoKeyRegistry, lifecycle_history}
use reg_agent_ops.Keys.Registry.Final.{IsOrdered, add_states-final}
use reg_agent_ops.Keys.Registry.Lifecycle.{add_states}
use reg_agent_ops.Keys.Registry.Status.{assert_new_operation_allowed, effective_states, status_at}
use reg_agent_ops.Models.Checks.{is_aware, less, less-ok, require_text, unlike, utc_timestamp}
use reg_agent_ops.Models.DataClassification.{data_classification_eq}
use reg_agent_ops.Models.Decision.{decision_eq}
use reg_agent_ops.Models.Environment.{environment_eq}
use reg_agent_ops.Models.RiskTier.{risk_tier_eq}
use reg_agent_ops.Models.Value.{Platform}

last?-cons :
    {A : Type 0} (x : A) (xs : List A) {y : A} → last? xs ≡ some y → last? (x ∷ xs) ≡ some y
last?-cons x [] h = cc
last?-cons x (z ∷ zs) h = h

module _ ⦃p : Platform⦄ where
  key_time-any :
      (name other value : String) {t : ℕ} → key_time name value ≡ ok t → key_time other value ≡ ok t
  unfolding key_time utc_timestamp require_text
  key_time-any name other value h = ground arith

  -- of a history's states that are effective, the last is the history's, once that is effective
  effective_states-last? :
      (moment : String) (at : ℕ) (states : List CryptoKeyLifecycleState)
      {effective : List CryptoKeyLifecycleState} {last : CryptoKeyLifecycleState} {t : ℕ}
      → effective_states moment at states ≡ ok effective
      → last? states ≡ some last
      → key_time "effective_at" last.effective_at ≡ ok t
      → t ≤ at
      → last? effective ≡ some last
  unfolding effective_states
  effective_states-last? moment at [] h is_last parsed le = cc
  effective_states-last? moment at (s ∷ []) {effective = effective} {last = last} h is_last parsed
        le =
      let (own, own_parsed, h₁) = >>=-eq-ok (key_time "effective_at" s.effective_at) _ h in
      let same = some-injective is_last in
      let same_time =
        ok-injective
          (sym own_parsed ∙ ap (λ x. key_time "effective_at" x.effective_at) same ∙ parsed) in
      let (early, compared, h₂) = >>=-eq-ok (less moment s.effective_at at own) _ h₁ in
      let (_, is_early) = less-ok moment s.effective_at at own compared in
      ground (arith, h₂, is_early, same_time, le, is_last)
  effective_states-last? moment at (s ∷ (s' ∷ states)) h is_last parsed le =
      let (own, own_parsed, h₁) = >>=-eq-ok (key_time "effective_at" s.effective_at) _ h in
      let (early, compared, h') = >>=-eq-ok (less moment s.effective_at at own) _ h₁ in
      let (rest, collected, h₂) = >>=-eq-ok (effective_states moment at (s' ∷ states)) _ h' in
      let below = effective_states-last? moment at (s' ∷ states) collected is_last parsed le in
      elim (Bool-cases early) [
        | inr yes_now ↦ ap last? (sym (ok-injective (rw yes_now at h₂))) ∙ last?-cons s rest below
        | inl not_yet ↦ ap last? (sym (ok-injective (rw not_yet at h₂))) ∙ below
      ]

  -- the status at a time from which the last state is effective
  status_at-last :
      (r : InstitutionCryptoKeyRegistry) (key : InstitutionCryptoKeyReference) (at : String)
      {last : CryptoKeyLifecycleState} {t t' : ℕ} {status : CryptoKeyStatus}
      → last? (lifecycle_history r key) ≡ some last
      → key_time "effective_at" last.effective_at ≡ ok t
      → key_time "at" at ≡ ok t'
      → t ≤ t'
      → status_at r key at ≡ ok status
      → status ≡ last.status
  unfolding status_at
  status_at-last r key at {last = last} {t' = t'} is_last parsed at_parsed le h =
      let (now, now_parsed, h₁) = >>=-eq-ok (key_time "at" at) _ h in
      let (effective, collected, h₂) =
        >>=-eq-ok (effective_states at now (lifecycle_history r key)) _ h₁ in
      let same : now ≡ t' = ok-injective (sym now_parsed ∙ at_parsed) in
      let found =
        effective_states-last? at now (lifecycle_history r key) collected is_last parsed
          (omega (arith, le, same)) in
      sym (ok-injective (rw found at h₂))

  -- In a registry in which every key's states count up from 1, a key whose last state is DISABLED,
  -- from a time on, is used for no new operation at that time or later: whatever states have been
  -- registered in the meantime, `assert_new_operation_allowed` raises.
  pub assert_new_operation_allowed-disabled :
      (r : InstitutionCryptoKeyRegistry) (states : List CryptoKeyLifecycleState)
      (key : InstitutionCryptoKeyReference) (artifact_time now : String)
      {last : CryptoKeyLifecycleState} {t t' : ℕ}
      → IsOrdered r
      → last? (lifecycle_history r key) ≡ some last
      → last.status ≡ CryptoKeyStatus.disabled
      → key_time "effective_at" last.effective_at ≡ ok t
      → key_time "artifact_time" artifact_time ≡ ok t'
      → t ≤ t'
      → (e : Error) × (assert_new_operation_allowed (add_states r states) key artifact_time now
          ≡ err e)
  unfolding assert_new_operation_allowed
  assert_new_operation_allowed-disabled r states key artifact_time now {last = last} ordered is_last
        disabled parsed at_parsed le =
      let after = add_states r states in
      let is_last_still =
        ap last? (add_states-final r states key ordered is_last disabled) ∙ is_last in
      elim (unit_result (assert_new_operation_allowed after key artifact_time now)) [
        | inr raised ↦ raised
        | inl returned ↦
            let (a, a_parsed, h₁) = >>=-eq-ok (key_time "artifact_time" artifact_time) _ returned in
            let (n, n_parsed, h₂) = >>=-eq-ok (key_time "now" now) _ h₁ in
            let (at_once, h₃) =
              >>-eq-ok
                (raise_if (unlike (is_aware artifact_time) (is_aware now) || not (eqb a n)) _) _
                h₂ in
            let (status, read, h₄) = >>=-eq-ok (status_at after key artifact_time) _ h₃ in
            let (is_active, h₅) = >>-eq-ok (raise_if (status != CryptoKeyStatus.active) _) _ h₄ in
            let own =
              status_at-last after key artifact_time is_last_still parsed
                (key_time-any "artifact_time" "at" artifact_time at_parsed) le read in
            absurd (ground (arith, own, disabled, raise_if-ok _ _ is_active))
      ]
