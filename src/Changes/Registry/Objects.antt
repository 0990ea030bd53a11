-- ===== src/Changes/Registry/Objects.antt =====
-- The changes of an object, which pass its configuration's digest on.
use reg_agent_ops.Base.Versioned.Links
use reg_agent_ops.Base.{
  Bool-cases, List, Option, String, [], beq_self, eq_of_beq, if◌then◌else◌, inl, inr, last?, nat_eq,
  none, refl, select, some, string_eq, subst, sym, texts_eq, true, ◌++◌, ◌==◌, ◌∙◌, ◌∷◌, ◌≡◌, ◌⊎◌,
}
use reg_agent_ops.Changes.Registry.{latest_digest, object_key, put_digest}
use reg_agent_ops.Changes.SignedConfigurationChange.{SignedConfigurationChange}
use reg_agent_ops.Keys.CryptoAlgorithm.{crypto_algorithm_eq}
use reg_agent_ops.Keys.CryptoKeyCustody.{crypto_key_custody_eq}
use reg_agent_ops.Keys.CryptoKeyPurpose.{crypto_key_purpose_eq}
use reg_agent_ops.Keys.CryptoKeyStatus.{crypto_key_status_eq}
use reg_agent_ops.Models.DataClassification.{data_classification_eq}
use reg_agent_ops.Models.Decision.{decision_eq}
use reg_agent_ops.Models.Environment.{environment_eq}
use reg_agent_ops.Models.RiskTier.{risk_tier_eq}

-- the digest that a change found, and the one that it leaves
abbrev pub found_digest : SignedConfigurationChange → Option String
found_digest signed = signed.request.previous_configuration_digest

abbrev pub left_digest : SignedConfigurationChange → String
left_digest signed = signed.request.proposed_configuration_digest

-- the changes of an object, in the order of insertion
abbrev pub changes_of :
    List String → List SignedConfigurationChange → List SignedConfigurationChange
changes_of key changes = select (λ signed. object_key signed.request == key) changes

-- Each change of an object but the first found the digest that the one before it left.
abbrev pub Inherits : List SignedConfigurationChange → Type 0
Inherits [] = Unit
Inherits (x ∷ xs) = Links.Linked found_digest left_digest (some (left_digest x)) xs

-- what the registry keeps for an object is what its last change left
abbrev pub left_by : Option SignedConfigurationChange → Option String
left_by last = Links.digest_or found_digest left_digest none last

pub latest-put :
    (entries : List (List String × String)) (key : List String) (digest : String)
    (other : List String)
    → latest_digest (put_digest entries key digest) other
      ≡ (if key == other then some digest else latest_digest entries other)
unfolding latest_digest put_digest
latest-put [] key digest other = elim (Bool-cases (key == other)) [
  | inl same ↦ rw same refl
  | inr ne ↦ rw ne refl
]
latest-put ((k, d) ∷ entries) key digest other = elim (Bool-cases (k == key)) [
  | inl own ↦
      let e = eq_of_beq k key own in
      elim (Bool-cases (key == other)) [
        | inl same ↦ rw (own, same) refl
        | inr ne ↦ rw (own, e, ne) refl
      ]
  | inr differs ↦ elim (Bool-cases (k == other)) [
    | inl same ↦
        let e = eq_of_beq k other same in
        elim (Bool-cases (key == other)) [
          | inl both ↦
              let contrary =
                subst (λ j. (k == j) ≡ true) (e ∙ sym (eq_of_beq key other both)) (beq_self k) in
              cc
          | inr ne ↦ rw (differs, same, ne) refl
        ]
    | inr apart ↦ rw (differs, apart) (latest-put entries key digest other)
  ]
]

left_by-last? :
    (y : SignedConfigurationChange) (ys : List SignedConfigurationChange)
    → left_by (last? (y ∷ ys))
      ≡ Links.digest_or found_digest left_digest (some (left_digest y)) (last? ys)
left_by-last? y [] = refl
left_by-last? y (z ∷ zs) =
    Links.digest_or-nonempty found_digest left_digest none (some (left_digest y)) z zs refl

left_something :
    (digest : String) (last : Option SignedConfigurationChange)
    → Links.digest_or found_digest left_digest (some digest) last ≡ none
    → ⊥
left_something digest none h = cc
left_something digest (some last) h = cc

pub Inherits-snoc :
    (xs : List SignedConfigurationChange) (x : SignedConfigurationChange)
    → Inherits xs
    → (left_by (last? xs) ≡ none) ⊎ (left_by (last? xs) ≡ found_digest x)
    → Inherits (xs ++ x ∷ [])
Inherits-snoc [] x h e = tt
Inherits-snoc (y ∷ ys) x h (inl nothing) =
    absurd (left_something (left_digest y) (last? ys) (sym (left_by-last? y ys) ∙ nothing))
Inherits-snoc (y ∷ ys) x h (inr found) =
    Links.Linked-snoc found_digest left_digest (some (left_digest y)) ys x h
      (sym found ∙ left_by-last? y ys)
