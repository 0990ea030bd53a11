-- ===== src/Base/Versioned/Contiguity.antt =====
-- A registration keeps the versions of every scope contiguous, and grows one history at its end.
use Prim.Native.Nat.{ℕ, ◌+◌}
use Prim.Native.String.{String}
use mathlib.Core.Path.{◌≡◌, refl, sym, ap, subst, ◌∙◌}
use mathlib.Core.Logic.{◌⊎◌, inl, inr}
use mathlib.Core.Bool.{false, true}
use mathlib.Core.Option.{none, some}
use mathlib.Core.List.{List, [], ◌∷◌, ◌++◌, append-nil}
use native.Mathlib.Omega.{arith}
use reg_agent_ops.Base.Tests.{Bool-cases, leb}
use reg_agent_ops.Base.Lists.{All-last?, All-selected, last?, length, select-append}
use reg_agent_ops.Base.Equality.{◌==◌, beq_self, eq_of_beq, texts_eq}
use reg_agent_ops.Base.Outcome.{Error, Result, ok, unit_result}
use reg_agent_ops.Base.Sort.{All-sort}
use reg_agent_ops.Base.Versioned.{
  Extends, InOrder, InOrder-snoc, IsContiguous, find, history, history-eq, next_version,
  next_version-eq, of_scope, register,
}

pub last?-snoc {ℓ} : {A : Type ℓ} (xs : List A) (x : A) → last? (xs ++ x ∷ []) ≡ some x
last?-snoc [] x = refl
last?-snoc (y ∷ []) x = refl
last?-snoc (y ∷ (z ∷ zs)) x = last?-snoc (z ∷ zs) x

module _ {ℓ} {A : Type ℓ} (scope : A → List String) (version : A → ℕ) where
  module _ (items : List A) (item : A) (c : IsContiguous scope version items) where
    version-eq :
        version item ≡ next_version version (last? (history scope version items (scope item)))
        → version item ≡ 1 + length (of_scope scope version (scope item) items)
    version-eq v =
        v
        ∙ ap (λ h. next_version version (last? h)) (history-eq scope version items (scope item) c)
        ∙ next_version-eq scope version (of_scope scope version (scope item) items)
            (c.in_order (scope item))

    own_items :
        of_scope scope version (scope item) (items ++ item ∷ [])
        ≡ of_scope scope version (scope item) items ++ item ∷ []
    own_items =
        select-append (λ s. scope s == scope item) items (item ∷ [])
        ∙ ap (λ l. of_scope scope version (scope item) items ++ l) (rw (beq_self (scope item)) refl)

    other_items :
        (key : List String)
        → (scope item == key) ≡ false
        → of_scope scope version key (items ++ item ∷ []) ≡ of_scope scope version key items
    other_items key ne =
        select-append (λ s. scope s == key) items (item ∷ [])
        ∙ ap (λ l. of_scope scope version key items ++ l) (rw ne refl)
        ∙ append-nil (of_scope scope version key items)

    pub appended-IsContiguous :
        version item ≡ next_version version (last? (history scope version items (scope item)))
        → IsContiguous scope version (items ++ item ∷ [])
    appended-IsContiguous v = record {
      in_order = λ key. elim (Bool-cases (scope item == key)) [
        | inr ne ↦ rw (other_items key ne) (c.in_order key)
        | inl same ↦
            subst (λ k. InOrder scope version 1 (of_scope scope version k (items ++ item ∷ [])))
              (eq_of_beq (scope item) key same)
              (rw own_items (
                InOrder-snoc scope version 1 (of_scope scope version (scope item) items) item
                  (c.in_order (scope item)) (version-eq v)))
      ];
    }

    pub appended-Extends :
        version item ≡ next_version version (last? (history scope version items (scope item)))
        → Extends scope version items (items ++ item ∷ []) item
    appended-Extends v =
        let c' = appended-IsContiguous v in
        record {
          is_next =
              rw (history-eq scope version items (scope item) c) (omega (arith, version-eq v));
          appended =
              history-eq scope version (items ++ item ∷ []) (scope item) c'
              ∙ own_items
              ∙ ap (λ h. h ++ item ∷ []) (sym (history-eq scope version items (scope item) c));
          others = λ key ne.
              history-eq scope version (items ++ item ∷ []) key c'
              ∙ other_items key ne
              ∙ sym (history-eq scope version items key c);
        }

  module _ (digest : A → String) (conflict : Error) (gap : ℕ → Error)
      (checks : List A → A → Result (Unit {0})) where
    -- a registration either changes nothing or appends the next version
    pub register-cases :
        (items : List A) (item : A)
        → ((register scope version digest conflict gap checks items item).1 ≡ items)
          ⊎ (((register scope version digest conflict gap checks items item).1 ≡ items ++ item ∷ [])
              × (version item
                  ≡ next_version version (last? (history scope version items (scope item))))
              × (checks (history scope version items (scope item)) item ≡ ok tt))
    unfolding register
    register-cases items item =
        ground (arith, unit_result (checks (history scope version items (scope item)) item))

    pub registered-IsContiguous :
        (items : List A) (item : A)
        → IsContiguous scope version items
        → IsContiguous scope version
            (register scope version digest conflict gap checks items item).1
    registered-IsContiguous items item c = elim (register-cases items item) [
      | inl same ↦ rw same c
      | inr (grown, v, checked) ↦ rw grown (appended-IsContiguous items item c v)
    ]

    pub registered-Extends :
        (items : List A) (item : A)
        → IsContiguous scope version items
        → ((register scope version digest conflict gap checks items item).1 ≡ items)
          ⊎ Extends scope version items
              (register scope version digest conflict gap checks items item).1
              item
    registered-Extends items item c = elim (register-cases items item) [
      | inl same ↦ inl same
      | inr (grown, v, checked) ↦ inr (rw grown (appended-Extends items item c v))
    ]

    -- what a registration that returns has done with an entry that was not there
    pub register-new :
        (items : List A) (item : A) {d : String}
        → find scope version items (scope item) (version item) ≡ none
        → (register scope version digest conflict gap checks items item).0 ≡ ok d
        → ((register scope version digest conflict gap checks items item).1 ≡ items ++ item ∷ [])
          × (version item ≡ next_version version (last? (history scope version items (scope item))))
          × (checks (history scope version items (scope item)) item ≡ ok tt)
    unfolding register
    register-new items item new h =
        ground (arith, unit_result (checks (history scope version items (scope item)) item))

    pub last?-register :
        (items : List A) (item : A) {d : String}
        → IsContiguous scope version items
        → find scope version items (scope item) (version item) ≡ none
        → (register scope version digest conflict gap checks items item).0 ≡ ok d
        → last? (
            history scope version
              (register scope version digest conflict gap checks items item).1
              (scope item))
          ≡ some item
    last?-register items item c new h =
        let (grown, v, checked) = register-new items item new h in
        let e = appended-Extends items item c v in
        rw (grown, e.appended) (last?-snoc (history scope version items (scope item)) item)

  -- the last entry of a history belongs to its scope
  pub last?-history :
      (items : List A) (key : List String) {item : A}
      → last? (history scope version items key) ≡ some item
      → scope item ≡ key
  unfolding history
  last?-history items key {item = item} h = eq_of_beq (scope item) key (
      All-last? (λ x. (scope x == key) ≡ true) (history scope version items key)
        (All-sort (λ a b. leb (version a) (version b)) (λ x. (scope x == key) ≡ true)
          (of_scope scope version key items) (All-selected (λ x. scope x == key) items))
        h)
