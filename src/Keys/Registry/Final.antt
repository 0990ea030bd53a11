-- ===== src/Keys/Registry/Final.antt =====
-- Whatever states are registered, every key goes along permitted steps, and a disabled one stays so.
use reg_agent_ops.Base.Versioned
use reg_agent_ops.Keys.InstitutionCryptoKeyReference
use reg_agent_ops.Base.{
  Bool-cases, List, String, [], ap, eq_of_beq, inl, inr, last?, nat_eq, refl, some, some-injective,
  string_eq, subst, sym, texts_eq, ◌++◌, ◌==◌, ◌∙◌, ◌∷◌, ◌≡◌, ◌≢◌,
}
use reg_agent_ops.Base.Versioned.Contiguity.{appended-Extends, appended-IsContiguous, last?-snoc}
use reg_agent_ops.Execution.EmergencyStops.{scope}
use reg_agent_ops.Keys.CryptoAlgorithm.{crypto_algorithm_eq}
use reg_agent_ops.Keys.CryptoKeyCustody.{crypto_key_custody_eq}
use reg_agent_ops.Keys.CryptoKeyLifecycleState.{CryptoKeyLifecycleState}
use reg_agent_ops.Keys.CryptoKeyPurpose.{crypto_key_purpose_eq}
use reg_agent_ops.Keys.CryptoKeyStatus.{CryptoKeyStatus, crypto_key_status_eq}
use reg_agent_ops.Keys.InstitutionCryptoKeyReference.{InstitutionCryptoKeyReference}
use reg_agent_ops.Keys.Registry.{
  InstitutionCryptoKeyRegistry, lifecycle_history, state_scope, state_version,
}
use reg_agent_ops.Keys.Registry.Lifecycle.{
  IsAdmittedState, Reaches, Step, add_state, add_states, register_state-cases,
  state_admitted-inverts,
}
use reg_agent_ops.Models.DataClassification.{data_classification_eq}
use reg_agent_ops.Models.Decision.{decision_eq}
use reg_agent_ops.Models.Environment.{environment_eq}
use reg_agent_ops.Models.RiskTier.{risk_tier_eq}
use reg_agent_ops.Models.Value.{Platform}

Reaches-cons : {s t u : CryptoKeyStatus} → Step s t → Reaches t u → Reaches s u
Reaches-cons first Reaches.stay = Reaches.step Reaches.stay first
Reaches-cons first (Reaches.step later last) = Reaches.step (Reaches-cons first later) last

disabled-ends : {s t : CryptoKeyStatus} → Step s t → s ≢ CryptoKeyStatus.disabled
disabled-ends Step.retire e = cc e
disabled-ends Step.disable e = cc e
disabled-ends Step.disable_retired e = cc e

module _ ⦃p : Platform⦄ where
  -- the states of the scope, in the order of their versions
  abbrev states_of : InstitutionCryptoKeyRegistry → List String → List CryptoKeyLifecycleState
  states_of r key = Versioned.history state_scope state_version r.states key

  -- every key's states count up from 1
  abbrev pub IsOrdered : InstitutionCryptoKeyRegistry → Type 0
  IsOrdered r = Versioned.IsContiguous state_scope state_version r.states

  -- What one call does to the states of a scope.
  data Grows (before after : List CryptoKeyLifecycleState) : Type 0 where
    same : after ≡ before → Grows before after
    grown :
        (previous state : CryptoKeyLifecycleState)
        → last? before ≡ some previous
        → Step previous.status state.status
        → after ≡ before ++ state ∷ []
        → Grows before after

  lifecycle_history-eq :
      (r : InstitutionCryptoKeyRegistry) (key : InstitutionCryptoKeyReference)
      → lifecycle_history r key
        ≡ states_of r (
            key.institution_id
            ∷ key.tenant_id
            ∷ InstitutionCryptoKeyReference.artifact_digest key
            ∷ [])
  unfolding lifecycle_history
  lifecycle_history-eq r key = refl

  module _ (r : InstitutionCryptoKeyRegistry) (ordered : IsOrdered r)
      (state : CryptoKeyLifecycleState) where
    last-admitted :
        (a : IsAdmittedState r state) → last? (states_of r (state_scope state)) ≡ some a.previous
    last-admitted a =
        ap (λ scope. last? (states_of r scope)) a.in_scope
        ∙ ap last? (sym (lifecycle_history-eq r a.key))
        ∙ a.is_last

    next-admitted :
        (a : IsAdmittedState r state)
        → state_version state
          ≡ Versioned.next_version state_version (last? (states_of r (state_scope state)))
    next-admitted a = a.is_next ∙ ap (Versioned.next_version state_version) (sym (last-admitted a))

    add_state-Grows :
        (scope : List String)
        → IsOrdered (add_state r state)
          × Grows (states_of r scope) (states_of (add_state r state) scope)
    add_state-Grows scope = elim (register_state-cases r state) [
      | inl unchanged ↦ (
        subst IsOrdered (sym unchanged) ordered,
        Grows.same (ap (λ r'. states_of r' scope) unchanged),
      )
      | inr (changed, admitted) ↦
          let a = state_admitted-inverts r state admitted in
          let e =
            appended-Extends state_scope state_version r.states state ordered (next-admitted a) in
          (
            subst IsOrdered (sym changed) (
                appended-IsContiguous state_scope state_version r.states state ordered
                  (next-admitted a)),
            elim (Bool-cases (state_scope state == scope)) [
              | inr other ↦
                  Grows.same (ap (λ r'. states_of r' scope) changed ∙ e.others scope other)
              | inl own ↦
                  subst (λ k. Grows (states_of r k) (states_of (add_state r state) k))
                    (eq_of_beq (state_scope state) scope own)
                    (Grows.grown a.previous state (last-admitted a) a.permitted
                      (ap (λ r'. states_of r' (state_scope state)) changed ∙ e.appended))
            ],
          )
    ]

  -- Where a scope's states have come to: a reachable status, and no further than DISABLED.
  record IsGrown (before after : List CryptoKeyLifecycleState) (first : CryptoKeyLifecycleState)
      : Type 0 where
    last : CryptoKeyLifecycleState
    is_last : last? after ≡ some last
    reached : Reaches first.status last.status
    final : first.status ≡ CryptoKeyStatus.disabled → after ≡ before

  Grows-IsGrown :
      (before between after : List CryptoKeyLifecycleState) {first : CryptoKeyLifecycleState}
      → last? before ≡ some first
      → Grows before between
      → ((next : CryptoKeyLifecycleState) → last? between ≡ some next → IsGrown between after next)
      → IsGrown before after first
  Grows-IsGrown before between after {first = first} h (Grows.same unchanged) later =
      subst (λ b. IsGrown b after first) unchanged (later first (ap last? unchanged ∙ h))
  Grows-IsGrown before between after {first = first} h
        (Grows.grown previous state is_last permitted longer) later =
      let own : previous ≡ first = some-injective (sym is_last ∙ h) in
      let own_step = subst (λ s. Step s.status state.status) own permitted in
      let g = later state (ap last? longer ∙ last?-snoc before state) in
      record {
        last = g.last;
        is_last = g.is_last;
        reached = Reaches-cons own_step g.reached;
        final = λ disabled. absurd (disabled-ends own_step disabled);
      }

  add_states-IsGrown :
      (r : InstitutionCryptoKeyRegistry) (states : List CryptoKeyLifecycleState)
      (scope : List String) {first : CryptoKeyLifecycleState}
      → IsOrdered r
      → last? (states_of r scope) ≡ some first
      → IsGrown (states_of r scope) (states_of (add_states r states) scope) first
  add_states-IsGrown r [] scope {first = first} ordered h = record {
    last = first;
    is_last = h;
    reached = Reaches.stay;
    final = λ d. refl;
  }
  add_states-IsGrown r (state ∷ states) scope ordered h =
      let (ordered', grows) = add_state-Grows r ordered state scope in
      Grows-IsGrown (states_of r scope) (states_of (add_state r state) scope)
        (states_of (add_states (add_state r state) states) scope) h grows
        (λ next last. add_states-IsGrown (add_state r state) states scope ordered' last)

  -- In a registry in which every key's states count up from 1, whatever states are registered, and
  -- whether the calls return or raise: a key that has a last state still has one, and its status is
  -- reached from the former one by steps ACTIVE to RETIRED or DISABLED, and RETIRED to DISABLED.
  pub add_states-Reaches :
      (r : InstitutionCryptoKeyRegistry) (states : List CryptoKeyLifecycleState)
      (key : InstitutionCryptoKeyReference) {first : CryptoKeyLifecycleState}
      → IsOrdered r
      → last? (lifecycle_history r key) ≡ some first
      → (last : CryptoKeyLifecycleState) × (last? (lifecycle_history (add_states r states) key)
          ≡ some last)
        × Reaches first.status last.status
  unfolding lifecycle_history
  add_states-Reaches r states key ordered h =
      let g =
        add_states-IsGrown r states
          (key.institution_id
            ∷ key.tenant_id
            ∷ InstitutionCryptoKeyReference.artifact_digest key
            ∷ [])
          ordered h in
      (g.last, g.is_last, g.reached)

  -- In a registry in which every key's states count up from 1, once the last state of a key is
  -- DISABLED, no sequence of registrations of states changes the history of the key.
  pub add_states-final :
      (r : InstitutionCryptoKeyRegistry) (states : List CryptoKeyLifecycleState)
      (key : InstitutionCryptoKeyReference) {first : CryptoKeyLifecycleState}
      → IsOrdered r
      → last? (lifecycle_history r key) ≡ some first
      → first.status ≡ CryptoKeyStatus.disabled
      → lifecycle_history (add_states r states) key ≡ lifecycle_history r key
  unfolding lifecycle_history
  add_states-final r states key ordered h disabled =
      let g =
        add_states-IsGrown r states
          (key.institution_id
            ∷ key.tenant_id
            ∷ InstitutionCryptoKeyReference.artifact_digest key
            ∷ [])
          ordered h in
      g.final disabled
