-- ===== src/Keys/Registry/Lifecycle.antt =====
-- The life cycle of a key as a state machine: the steps it takes, and that DISABLED is its end.
use reg_agent_ops.Base.Versioned
use reg_agent_ops.Keys.InstitutionCryptoKeyReference
use reg_agent_ops.Base.{
  >>-eq-ok, >>=-eq-ok, List, Option-cases, String, [], arith, contains, eq_of_beq, eq_of_bne,
  find_first-passes, inl, inr, last?, nat_eq, ok, raise_if, raise_if-ok, some, string_eq, texts_eq,
  true, unit_result, ◌!=◌, ◌&&◌, ◌++◌, ◌+◌, ◌==◌, ◌∷◌, ◌≡◌, ◌⊎◌,
}
use reg_agent_ops.Keys.CryptoAlgorithm.{crypto_algorithm_eq}
use reg_agent_ops.Keys.CryptoKeyCustody.{crypto_key_custody_eq}
use reg_agent_ops.Keys.CryptoKeyLifecycleState.{CryptoKeyLifecycleState}
use reg_agent_ops.Keys.CryptoKeyPurpose.{crypto_key_purpose_eq}
use reg_agent_ops.Keys.CryptoKeyStatus.{CryptoKeyStatus, crypto_key_status_eq}
use reg_agent_ops.Keys.InstitutionCryptoKeyReference.{InstitutionCryptoKeyReference}
use reg_agent_ops.Keys.Registry.{
  InstitutionCryptoKeyRegistry, allowed_transitions, key_by_digest, lifecycle_history,
  register_state, state_admitted, state_follows, state_scope, state_version,
}
use reg_agent_ops.Models.DataClassification.{data_classification_eq}
use reg_agent_ops.Models.Decision.{decision_eq}
use reg_agent_ops.Models.Environment.{environment_eq}
use reg_agent_ops.Models.RiskTier.{risk_tier_eq}
use reg_agent_ops.Models.Value.{Platform}

-- One step that `_ALLOWED_KEY_TRANSITIONS` permits, and any number of them.
pub data Step : CryptoKeyStatus → CryptoKeyStatus → Type 0 where
  retire : Step CryptoKeyStatus.active CryptoKeyStatus.retired
  disable : Step CryptoKeyStatus.active CryptoKeyStatus.disabled
  disable_retired : Step CryptoKeyStatus.retired CryptoKeyStatus.disabled

pub data Reaches : CryptoKeyStatus → CryptoKeyStatus → Type 0 where
  stay : {s : CryptoKeyStatus} → Reaches s s
  step : {s t u : CryptoKeyStatus} → Reaches s t → Step t u → Reaches s u

allowed_transitions-Step :
    (s t : CryptoKeyStatus) → contains (allowed_transitions s) t ≡ true → Step s t
unfolding allowed_transitions
allowed_transitions-Step CryptoKeyStatus.active CryptoKeyStatus.active h = cc h
allowed_transitions-Step CryptoKeyStatus.active CryptoKeyStatus.retired h = Step.retire
allowed_transitions-Step CryptoKeyStatus.active CryptoKeyStatus.disabled h = Step.disable
allowed_transitions-Step CryptoKeyStatus.retired CryptoKeyStatus.active h = cc h
allowed_transitions-Step CryptoKeyStatus.retired CryptoKeyStatus.retired h = cc h
allowed_transitions-Step CryptoKeyStatus.retired CryptoKeyStatus.disabled h = Step.disable_retired
allowed_transitions-Step CryptoKeyStatus.disabled t h = cc h

module _ ⦃p : Platform⦄ where
  -- the registry after a call of `register_state`, and after several
  abbrev pub add_state :
      InstitutionCryptoKeyRegistry → CryptoKeyLifecycleState → InstitutionCryptoKeyRegistry
  add_state r state = (register_state r state).1

  abbrev pub add_states :
      InstitutionCryptoKeyRegistry → List CryptoKeyLifecycleState → InstitutionCryptoKeyRegistry
  add_states r [] = r
  add_states r (state ∷ rest) = add_states (add_state r state) rest

  -- A call has left the registry alone, or has added a state at its end.
  pub register_state-cases :
      (r : InstitutionCryptoKeyRegistry) (state : CryptoKeyLifecycleState)
      → (add_state r state ≡ r)
        ⊎ ((add_state r state ≡ record r { states = r.states ++ state ∷ [] })
            × (state_admitted r state ≡ ok tt))
  unfolding register_state
  register_state-cases r state = elim (unit_result (state_admitted r state)) [
    | inr (e, refused) ↦ inl (ground arith)
    | inl admitted ↦
        elim (Option-cases (
          Versioned.find state_scope state_version r.states (state_scope state)
            (state_version state))) [
              | inl new ↦ inr (ground arith, admitted)
              | inr (existing, found) ↦ inl (ground arith)
            ]
  ]

  -- what `state_admitted` has checked
  pub record IsAdmittedState (r : InstitutionCryptoKeyRegistry) (state : CryptoKeyLifecycleState)
      : Type 0 where
    pub key : InstitutionCryptoKeyReference
    pub in_scope :
        state_scope state
        ≡ key.institution_id
          ∷ key.tenant_id
          ∷ InstitutionCryptoKeyReference.artifact_digest key
          ∷ []
    pub purpose : state.purpose ≡ key.purpose
    pub previous : CryptoKeyLifecycleState
    pub is_last : last? (lifecycle_history r key) ≡ some previous
    pub is_next : state.state_version ≡ previous.state_version + 1
    pub permitted : Step previous.status state.status

  key_by_digest-scope :
      (r : InstitutionCryptoKeyRegistry) (institution_id tenant_id digest : String)
      {key : InstitutionCryptoKeyReference}
      → key_by_digest r institution_id tenant_id digest ≡ ok key
      → institution_id ∷ tenant_id ∷ digest ∷ []
        ≡ key.institution_id
          ∷ key.tenant_id
          ∷ InstitutionCryptoKeyReference.artifact_digest key
          ∷ []
  unfolding key_by_digest
  key_by_digest-scope r institution_id tenant_id digest {key = key} h =
      let passes =
        find_first-passes
          (λ key.
            key.institution_id == institution_id
            && key.tenant_id == tenant_id
            && InstitutionCryptoKeyReference.artifact_digest key == digest)
          r.keys {x = key} (ground arith) in
      let institution = eq_of_beq key.institution_id institution_id (ground arith) in
      let tenant = eq_of_beq key.tenant_id tenant_id (ground arith) in
      let same =
        eq_of_beq (InstitutionCryptoKeyReference.artifact_digest key) digest (ground arith) in
      cc (institution, tenant, same)

  state_follows-inverts :
      (previous state : CryptoKeyLifecycleState)
      → state_follows previous state ≡ ok tt
      → (state.state_version ≡ previous.state_version + 1) × Step previous.status state.status
  unfolding state_follows
  state_follows-inverts previous state h =
      (ground arith, allowed_transitions-Step previous.status state.status (ground arith))

  pub state_admitted-inverts :
      (r : InstitutionCryptoKeyRegistry) (state : CryptoKeyLifecycleState)
      → state_admitted r state ≡ ok tt
      → IsAdmittedState r state
  unfolding state_admitted
  state_admitted-inverts r state h =
      let (key, found, h₁) =
        >>=-eq-ok (key_by_digest r state.institution_id state.tenant_id state.key_reference_digest)
          _ h in
      let (same, h₂) = >>-eq-ok (raise_if (state.purpose != key.purpose) _) _ h₁ in
      elim (Option-cases (last? (lifecycle_history r key))) [
        | inl missing ↦ absurd (ground (arith, missing, h₂))
        | inr (previous, is_last) ↦
            let (next, permitted) = state_follows-inverts previous state (rw is_last at h₂) in
            record {
              key = key;
              in_scope =
                  key_by_digest-scope r state.institution_id state.tenant_id
                    state.key_reference_digest found;
              purpose = eq_of_bne state.purpose key.purpose (raise_if-ok _ _ same);
              previous = previous;
              is_last = is_last;
              is_next = next;
              permitted = permitted;
            }
      ]
