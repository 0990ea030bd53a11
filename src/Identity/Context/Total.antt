-- ===== src/Identity/Context/Total.antt =====
-- Whatever it is given, the verification of a signed agent identity returns or raises its own error.
use reg_agent_ops.Identity.AuthenticatedAgentIdentity
use reg_agent_ops.Identity.WorkloadIdentityTrustKey
use reg_agent_ops.Approval.Checks.{parse_with}
use reg_agent_ops.Base.{
  All, All-select, Bool, Error, List, Result, Result-cases, String, [], ap, arith, err, false,
  identity_signature_error, inl, inr, ltb, nat_eq, not, ok, one-cases, raise_if, refl, select,
  string_eq, subst, sym, texts_eq, true, ℕ, ◌!=◌, ◌==◌, ◌>>=◌, ◌>>◌, ◌||◌, ◌∙◌, ◌∷◌, ◌≡◌,
}
use reg_agent_ops.Identity.AuthenticatedAgentIdentity.{AuthenticatedAgentIdentity}
use reg_agent_ops.Identity.Checks.{interval, interval-aware}
use reg_agent_ops.Identity.Context.{
  authenticated_identity_signing_document, context_time, is_signature_error,
  verify_context_with_key, verify_signed_authenticated_agent_identity,
}
use reg_agent_ops.Identity.Ed25519.{signature_valid}
use reg_agent_ops.Identity.SignedAuthenticatedAgentIdentity.{SignedAuthenticatedAgentIdentity}
use reg_agent_ops.Identity.TrustKeyStatus.{TrustKeyStatus, trust_key_status_eq}
use reg_agent_ops.Identity.WorkloadIdentityTrustBundle.{WorkloadIdentityTrustBundle}
use reg_agent_ops.Identity.WorkloadIdentityTrustKey.{WorkloadIdentityTrustKey}
use reg_agent_ops.Models.Checks.{is_aware, less-aware, raise_if_less, raise_unless_less}
use reg_agent_ops.Models.DataClassification.{data_classification_eq}
use reg_agent_ops.Models.Decision.{decision_eq}
use reg_agent_ops.Models.Environment.{environment_eq}
use reg_agent_ops.Models.RiskTier.{risk_tier_eq}
use reg_agent_ops.Models.Value.{Platform, digest_artifact}

-- the call returned, or raised that exception
unfoldable only_signature_error {ℓ} : {A : Type ℓ} → Result A → Bool
only_signature_error (ok a) = true
only_signature_error (err e) = is_signature_error e

only-bind {ℓ κ} :
    {A : Type ℓ} {B : Type κ} (r : Result A) (next : A → Result B)
    → only_signature_error r ≡ true
    → ((a : A) → only_signature_error (next a) ≡ true)
    → only_signature_error (r >>= next) ≡ true
unfolding only_signature_error
only-bind (ok a) next h k = k a
only-bind (err e) next h k = h

only-then {ℓ} :
    {B : Type ℓ} (r : Result (Unit {0})) (rest : Result B)
    → only_signature_error r ≡ true
    → only_signature_error rest ≡ true
    → only_signature_error (r >> rest) ≡ true
unfolding only_signature_error
only-then (ok tt) rest h k = k
only-then (err e) rest h k = h

only-ok {ℓ} : {A : Type ℓ} (a : A) → only_signature_error (ok a) ≡ true
unfolding only_signature_error
only-ok a = refl

only-raise_if :
    (b : Bool) (m : String) → only_signature_error (raise_if b (identity_signature_error m)) ≡ true
unfolding only_signature_error
only-raise_if true m = refl
only-raise_if false m = refl

module _ ⦃p : Platform⦄ where
  -- Neither the time of the verification nor a time of the identity or of a trust key is naive.
  pub record AreAware (context : SignedAuthenticatedAgentIdentity)
      (trust : WorkloadIdentityTrustBundle) (at : String) : Type 0 where
    pub at_aware : is_aware at ≡ true
    pub established : is_aware context.identity.established_at ≡ true
    pub valid_until : is_aware context.identity.valid_until ≡ true
    pub keys :
        All (λ key. (is_aware key.not_before ≡ true) × (is_aware key.not_after ≡ true)) trust.keys

  context_time-raises : (value : String) → only_signature_error (context_time value) ≡ true
  unfolding context_time parse_with only_signature_error
  context_time-raises value = ground arith

  only-raise_if_less :
      (a b : String) (x y : ℕ) (m : String)
      → is_aware a ≡ true
      → is_aware b ≡ true
      → only_signature_error (raise_if_less a b x y (identity_signature_error m)) ≡ true
  unfolding raise_if_less
  only-raise_if_less a b x y m ha hb =
      rw (less-aware a b x y (ha ∙ sym hb)) (only-raise_if (ltb x y) m)

  only-raise_unless_less :
      (a b : String) (x y : ℕ) (m : String)
      → is_aware a ≡ true
      → is_aware b ≡ true
      → only_signature_error (raise_unless_less a b x y (identity_signature_error m)) ≡ true
  unfolding raise_unless_less
  only-raise_unless_less a b x y m ha hb =
      rw (less-aware a b x y (ha ∙ sym hb)) (only-raise_if (not (ltb x y)) m)

  verify_context_with_key-raises :
      (key : WorkloadIdentityTrustKey) (context : SignedAuthenticatedAgentIdentity) (at : String)
      → is_aware at ≡ true
      → is_aware context.identity.established_at ≡ true
      → is_aware context.identity.valid_until ≡ true
      → is_aware key.not_before ≡ true
      → is_aware key.not_after ≡ true
      → only_signature_error (verify_context_with_key key context at) ≡ true
  unfolding verify_context_with_key
  verify_context_with_key-raises key context at now established until start finish =
      let document =
        authenticated_identity_signing_document context.identity context.key_id context.algorithm in
      let from = context.identity.established_at in
      let to = context.identity.valid_until in
      let expired : String = "authenticated context is expired or not yet valid" in
      let outside : String = "context trust key is outside its validity interval" in
      only-then (raise_if (key.status != TrustKeyStatus.active) _) _
        (only-raise_if (key.status != TrustKeyStatus.active) "context trust key is not active")
        (only-then
          (raise_if (key.algorithm != context.algorithm || context.algorithm != "Ed25519") _) _
          (only-raise_if (key.algorithm != context.algorithm || context.algorithm != "Ed25519")
            "context signature algorithm mismatch")
          (only-bind (context_time at) _ (context_time-raises at) (λ n.
            only-bind (context_time from) _ (context_time-raises from) (λ e.
              only-bind (context_time to) _ (context_time-raises to) (λ u.
                only-bind (context_time key.not_before) _ (context_time-raises key.not_before) (λ s.
                  only-bind (context_time key.not_after) _ (context_time-raises key.not_after) (λ f.
                    only-then (raise_if_less at from n e (identity_signature_error expired)) _
                      (only-raise_if_less at from n e expired now established)
                      (only-then (raise_unless_less at to n u (identity_signature_error expired)) _
                        (only-raise_unless_less at to n u expired now until)
                        (only-then
                          (raise_if_less from key.not_before e s (identity_signature_error outside))
                          _ (only-raise_if_less from key.not_before e s outside established start)
                          (only-then
                            (raise_unless_less from key.not_after e f
                              (identity_signature_error outside))
                            _
                            (only-raise_unless_less from key.not_after e f outside established
                              finish)
                            (only-then
                              (raise_if_less at key.not_before n s
                                (identity_signature_error outside))
                              _ (only-raise_if_less at key.not_before n s outside now start)
                              (only-then
                                (raise_unless_less at key.not_after n f
                                  (identity_signature_error outside))
                                _ (only-raise_unless_less at key.not_after n f outside now finish)
                                (only-then
                                  (raise_if
                                    (context.signing_document_digest != digest_artifact document) _)
                                  _
                                  (only-raise_if
                                    (context.signing_document_digest != digest_artifact document)
                                    "context signing document digest mismatch")
                                  (only-then
                                    (raise_if
                                      (not (
                                        signature_valid key.public_key_base64url
                                          context.signature_base64url document))
                                      _)
                                    _
                                    (only-raise_if
                                      (not (
                                        signature_valid key.public_key_base64url
                                          context.signature_base64url document))
                                      "authenticated context signature is invalid")
                                    (only-ok context.identity)))))))))))))))

  verify_context-raises :
      (context : SignedAuthenticatedAgentIdentity) (trust : WorkloadIdentityTrustBundle)
      (at : String)
      → AreAware context trust at
      → only_signature_error (verify_signed_authenticated_agent_identity context trust at) ≡ true
  unfolding verify_signed_authenticated_agent_identity only_signature_error
  verify_context-raises context trust at aware =
      elim (one-cases (select (λ k. k.key_id == context.key_id) trust.keys)) [
        | inl (key, only) ↦
            let own =
              subst
                (All (λ key. (is_aware key.not_before ≡ true) × (is_aware key.not_after ≡ true)))
                only (All-select _ (λ k. k.key_id == context.key_id) trust.keys aware.keys) in
            ground (
              arith,
              verify_context_with_key-raises key context at aware.at_aware aware.established
                  aware.valid_until own.0.0 own.0.1,
            )
        | inr (inl empty) ↦ ground arith
        | inr (inr (a, b, rest, more)) ↦ ground arith
      ]

  -- Where no time is naive, the verification of a signed agent identity raises no error but its own.
  pub verify_context-is_signature_error :
      (context : SignedAuthenticatedAgentIdentity) (trust : WorkloadIdentityTrustBundle)
      (at : String) {e : Error}
      → AreAware context trust at
      → verify_signed_authenticated_agent_identity context trust at ≡ err e
      → is_signature_error e ≡ true
  unfolding only_signature_error
  verify_context-is_signature_error context trust at aware raised =
      ap only_signature_error (sym raised) ∙ verify_context-raises context trust at aware

  identity-aware :
      (identity : AuthenticatedAgentIdentity)
      → AuthenticatedAgentIdentity.post_init identity ≡ ok tt
      → (is_aware identity.established_at ≡ true) × (is_aware identity.valid_until ≡ true)
  unfolding AuthenticatedAgentIdentity.post_init
  identity-aware identity h =
      elim (Result-cases
        (interval "established_at" identity.established_at "valid_until" identity.valid_until)) [
          | inr (e, raised) ↦ absurd (ground arith)
          | inl (lifetime, measured) ↦
              interval-aware "established_at" identity.established_at "valid_until"
                identity.valid_until measured
        ]

  key-aware :
      (key : WorkloadIdentityTrustKey)
      → WorkloadIdentityTrustKey.post_init key ≡ ok tt
      → (is_aware key.not_before ≡ true) × (is_aware key.not_after ≡ true)
  unfolding WorkloadIdentityTrustKey.post_init
  key-aware key h =
      elim (Result-cases (interval "not_before" key.not_before "not_after" key.not_after)) [
        | inr (e, raised) ↦ absurd (ground arith)
        | inl (lifetime, measured) ↦
            interval-aware "not_before" key.not_before "not_after" key.not_after measured
      ]

  keys-aware :
      (keys : List WorkloadIdentityTrustKey)
      → All (λ key. WorkloadIdentityTrustKey.post_init key ≡ ok tt) keys
      → All (λ key. (is_aware key.not_before ≡ true) × (is_aware key.not_after ≡ true)) keys
  keys-aware [] made = tt
  keys-aware (key ∷ keys) made = (key-aware key made.0, keys-aware keys made.1)

  -- The times of what the constructors accept are not naive.
  pub made-AreAware :
      (context : SignedAuthenticatedAgentIdentity) (trust : WorkloadIdentityTrustBundle)
      (at : String)
      → is_aware at ≡ true
      → AuthenticatedAgentIdentity.post_init context.identity ≡ ok tt
      → All (λ key. WorkloadIdentityTrustKey.post_init key ≡ ok tt) trust.keys
      → AreAware context trust at
  made-AreAware context trust at aware made keys =
      let (established, until) = identity-aware context.identity made in
      record {
        at_aware = aware;
        established = established;
        valid_until = until;
        keys = keys-aware trust.keys keys;
      }
