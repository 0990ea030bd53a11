-- ===== src/Changes/Registry/Chain.antt =====
-- The changes of a tenant are a chain.
use reg_agent_ops.Base.Versioned
use reg_agent_ops.Base.Versioned.Links
use reg_agent_ops.Changes.SignedConfigurationChange
use reg_agent_ops.Base.{
  >>-eq-ok, >>=-eq-ok, Bool-cases, List, Option, Option-cases, String, [], ap, append-nil, arith,
  eq_of_beq, eqb, if◌then◌else◌, inl, inr, last?, nat_eq, none, not, ok, raise_if, raise_if-ok,
  refl, same_optional, same_optional_iff, select-append, some, string_eq, subst, sym, texts_eq,
  unit_result, ◌++◌, ◌==◌, ◌∙◌, ◌∷◌, ◌≡◌, ◌⊎◌,
}
use reg_agent_ops.Base.Versioned.Contiguity.{last?-snoc}
use reg_agent_ops.Changes.Registry.{
  ConfigurationChangeRegistry, append_change, change_admitted, change_extends, change_history,
  change_scope, change_sequence, digest_of_last_change, latest_digest, object_current, object_key,
  put_digest,
}
use reg_agent_ops.Changes.Registry.Objects.{
  Inherits, Inherits-snoc, changes_of, found_digest, latest-put, left_by, left_digest,
}
use reg_agent_ops.Changes.Signature.{verify_signed_configuration_change}
use reg_agent_ops.Changes.SignedConfigurationChange.{SignedConfigurationChange}
use reg_agent_ops.Execution.EmergencyStops.{current}
use reg_agent_ops.Keys.CryptoAlgorithm.{crypto_algorithm_eq}
use reg_agent_ops.Keys.CryptoKeyCustody.{crypto_key_custody_eq}
use reg_agent_ops.Keys.CryptoKeyPurpose.{crypto_key_purpose_eq}
use reg_agent_ops.Keys.CryptoKeyStatus.{crypto_key_status_eq}
use reg_agent_ops.Keys.InstitutionCryptoKeyReference.{key_time}
use reg_agent_ops.Keys.Registry.{InstitutionCryptoKeyRegistry}
use reg_agent_ops.Models.Checks.{raise_if_less}
use reg_agent_ops.Models.DataClassification.{data_classification_eq}
use reg_agent_ops.Models.Decision.{decision_eq}
use reg_agent_ops.Models.Environment.{environment_eq}
use reg_agent_ops.Models.RiskTier.{risk_tier_eq}
use reg_agent_ops.Models.Value.{Platform}

module _ ⦃p : Platform⦄ where
  -- One call of `append`.
  pub record ChangeAttempt : Type 0 where
    pub signed : SignedConfigurationChange
    pub keys : InstitutionCryptoKeyRegistry
    pub now : String

  -- the registry after a call, and after several
  abbrev pub append_one : ConfigurationChangeRegistry → ChangeAttempt → ConfigurationChangeRegistry
  append_one r a = (append_change r a.signed a.keys a.now).1

  abbrev pub append_each :
      ConfigurationChangeRegistry → List ChangeAttempt → ConfigurationChangeRegistry
  append_each r [] = r
  append_each r (a ∷ rest) = append_each (append_one r a) rest

  pub record IsHistory (r : ConfigurationChangeRegistry) : Type 0 where
    pub chained :
        Links.IsChained SignedConfigurationChange.previous_change_digest
          SignedConfigurationChange.artifact_digest change_scope change_sequence r.changes
    pub inherited : (key : List String) → Inherits (changes_of key r.changes)
    pub latest :
        (key : List String)
        → latest_digest r.latest_object_digest key ≡ left_by (last? (changes_of key r.changes))

  digest_of_last_change-eq :
      (last : Option SignedConfigurationChange)
      → digest_of_last_change last
        ≡ Links.digest_or SignedConfigurationChange.previous_change_digest
            SignedConfigurationChange.artifact_digest none last
  digest_of_last_change-eq none = refl
  digest_of_last_change-eq (some last) = refl

  change_extends-inverts :
      (last : Option SignedConfigurationChange) (signed : SignedConfigurationChange)
      → change_extends last signed ≡ ok tt
      → (change_sequence signed ≡ Versioned.next_version change_sequence last)
        × (signed.previous_change_digest ≡ digest_of_last_change last)
  unfolding change_extends
  change_extends-inverts last signed h =
      let (follows, h₁) =
        >>-eq-ok
          (raise_if
            (not (eqb signed.request.sequence (Versioned.next_version change_sequence last))) _)
          _ h in
      let (extends, h₂) =
        >>-eq-ok
          (raise_if (not (same_optional signed.previous_change_digest (digest_of_last_change last)))
            _)
          _ h₁ in
      (
        ground (arith, raise_if-ok _ _ follows),
        (same_optional_iff signed.previous_change_digest (digest_of_last_change last)).0
            (ground (arith, raise_if-ok _ _ extends)),
      )

  object_current-inverts :
      (current : Option String) (signed : SignedConfigurationChange)
      → object_current current signed.request ≡ ok tt
      → (current ≡ none) ⊎ (current ≡ found_digest signed)
  unfolding object_current
  object_current-inverts none signed h = inl refl
  object_current-inverts (some current) signed h = inr (
      sym (
        (same_optional_iff (found_digest signed) (some current)).0
          (ground (arith, raise_if-ok _ _ h))))

  module _ (r : ConfigurationChangeRegistry) (a : ChangeAttempt) where
    abbrev past : Option SignedConfigurationChange
    past = last? (Versioned.history change_scope change_sequence r.changes (change_scope a.signed))

    abbrev appended : ConfigurationChangeRegistry
    appended = record {
      changes = r.changes ++ a.signed ∷ [];
      latest_object_digest =
          put_digest r.latest_object_digest (object_key a.signed.request) (left_digest a.signed);
    }

    -- what a change that `append` takes extends
    record Follows : Type 0 where
      is_next : change_sequence a.signed ≡ Versioned.next_version change_sequence past
      extends : a.signed.previous_change_digest ≡ digest_of_last_change past
      finds :
          (latest_digest r.latest_object_digest (object_key a.signed.request) ≡ none)
          ⊎ (latest_digest r.latest_object_digest (object_key a.signed.request)
              ≡ found_digest a.signed)

    change_admitted-Follows : change_admitted r a.signed a.keys a.now ≡ ok tt → Follows
    unfolding change_admitted change_history
    change_admitted-Follows h =
        let (_, _, h₁) = >>=-eq-ok (verify_signed_configuration_change a.signed a.keys a.now) _ h in
        let (_, _, h₂) = >>=-eq-ok (key_time "now" a.now) _ h₁ in
        let (_, _, h₃) = >>=-eq-ok (key_time "effective_at" a.signed.request.effective_at) _ h₂ in
        let (_, h₄) = >>-eq-ok (raise_if_less _ _ _ _ _) _ h₃ in
        let (extended, found) = >>-eq-ok (change_extends past a.signed) _ h₄ in
        let (is_next, extends) = change_extends-inverts past a.signed extended in
        record {
          is_next = is_next;
          extends = extends;
          finds =
              object_current-inverts
                (latest_digest r.latest_object_digest (object_key a.signed.request)) a.signed found;
        }

    append_change-cases : (append_one r a ≡ r) ⊎ ((append_one r a ≡ appended) × Follows)
    unfolding append_change
    append_change-cases =
        elim (Option-cases (
          Versioned.find change_scope change_sequence r.changes (change_scope a.signed)
            (change_sequence a.signed))) [
              | inr (existing, found) ↦ inl (ground arith)
              | inl new ↦ elim (unit_result (change_admitted r a.signed a.keys a.now)) [
                | inr (e, refused) ↦ inl (ground arith)
                | inl admitted ↦ inr (ground arith, change_admitted-Follows admitted)
              ]
            ]

    module _ (i : IsHistory r) (f : Follows) where
      changes_of-appended :
          (key : List String)
          → changes_of key (r.changes ++ a.signed ∷ []) ≡ (
              if object_key a.signed.request == key
              then changes_of key r.changes ++ a.signed ∷ []
              else changes_of key r.changes)
      changes_of-appended key = elim (Bool-cases (object_key a.signed.request == key)) [
        | inl own ↦ rw own (
            select-append (λ signed. object_key signed.request == key) r.changes (a.signed ∷ [])
            ∙ ap (λ l. changes_of key r.changes ++ l) (rw own refl))
        | inr other ↦ rw other (
            select-append (λ signed. object_key signed.request == key) r.changes (a.signed ∷ [])
            ∙ ap (λ l. changes_of key r.changes ++ l) (rw other refl)
            ∙ append-nil (changes_of key r.changes))
      ]

      appended-latest :
          (key : List String)
          → latest_digest appended.latest_object_digest key
            ≡ left_by (last? (changes_of key appended.changes))
      appended-latest key = elim (Bool-cases (object_key a.signed.request == key)) [
        | inl own ↦
            latest-put r.latest_object_digest (object_key a.signed.request) (left_digest a.signed)
              key
            ∙ rw (changes_of-appended key, own, last?-snoc (changes_of key r.changes) a.signed) refl
        | inr other ↦
            latest-put r.latest_object_digest (object_key a.signed.request) (left_digest a.signed)
              key
            ∙ rw (changes_of-appended key, other) (i.latest key)
      ]

      appended-Inherits : (key : List String) → Inherits (changes_of key appended.changes)
      appended-Inherits key = elim (Bool-cases (object_key a.signed.request == key)) [
        | inr other ↦ rw (changes_of-appended key, other) (i.inherited key)
        | inl own ↦
            let same = eq_of_beq (object_key a.signed.request) key own in
            let kept = ap (latest_digest r.latest_object_digest) same in
            rw (changes_of-appended key, own)
              (Inherits-snoc (changes_of key r.changes) a.signed (i.inherited key) (elim f.finds [
                | inl new ↦ inl (sym (i.latest key) ∙ sym kept ∙ new)
                | inr found ↦ inr (sym (i.latest key) ∙ sym kept ∙ found)
              ]))
      ]

      appended-IsHistory : IsHistory appended
      appended-IsHistory = record {
        chained =
            Links.appended-IsChained SignedConfigurationChange.previous_change_digest
              SignedConfigurationChange.artifact_digest change_scope change_sequence r.changes
              a.signed i.chained f.is_next (f.extends ∙ digest_of_last_change-eq past);
        inherited = appended-Inherits;
        latest = appended-latest;
      }

    append_one-IsHistory : IsHistory r → IsHistory (append_one r a)
    append_one-IsHistory i = elim append_change-cases [
      | inl unchanged ↦ subst IsHistory (sym unchanged) i
      | inr (changed, f) ↦ subst IsHistory (sym changed) (appended-IsHistory i f)
    ]

  -- From a registry that is a history, such as the empty one, every sequence of calls of `append`,
  -- whether they return or raise, leads to such a registry: the changes of every tenant count up from
  -- 1 and each names the digest of the one before it, the first none; every change of an object after
  -- its first names as its previous configuration the one that the change before it proposed; and the
  -- digest kept for an object is the one that its last change proposed.
  pub append_each-IsHistory :
      (r : ConfigurationChangeRegistry) (attempts : List ChangeAttempt)
      → IsHistory r
      → IsHistory (append_each r attempts)
  append_each-IsHistory r [] i = i
  append_each-IsHistory r (a ∷ rest) i =
      append_each-IsHistory (append_one r a) rest (append_one-IsHistory r a i)
