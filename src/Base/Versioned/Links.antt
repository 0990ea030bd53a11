-- ===== src/Base/Versioned/Links.antt =====
-- Items with contiguous versions of which each names the digest of the one before it in its scope.
use Prim.Native.Nat.{ℕ}
use Prim.Native.String.{String}
use mathlib.Core.Path.{◌≡◌, sym, subst}
use mathlib.Core.Logic.{inl, inr}
use mathlib.Core.Option.{Option, none, some}
use mathlib.Core.List.{List, [], ◌∷◌, ◌++◌}
use reg_agent_ops.Base.Tests.{Bool-cases}
use reg_agent_ops.Base.Lists.{last?}
use reg_agent_ops.Base.Equality.{◌==◌, eq_of_beq, texts_eq}
use reg_agent_ops.Base.Versioned.{IsContiguous, history, next_version}
use reg_agent_ops.Base.Versioned.Contiguity.{appended-Extends, appended-IsContiguous}

module _ {ℓ} {A : Type ℓ} (previous : A → Option String) (digest : A → String) where
  -- Each item names the digest of the one before it, the first one what is given.
  abbrev pub Linked : Option String → List A → Type 0
  Linked before [] = Unit
  Linked before (x ∷ xs) = (previous x ≡ before) × Linked (some (digest x)) xs

  -- the digest that the item after a last one has to name
  abbrev pub digest_or : Option String → Option A → Option String
  digest_or before none = before
  digest_or before (some last) = some (digest last)

  pub digest_or-nonempty :
      (before before' : Option String) (z : A) (zs : List A) {d : Option String}
      → d ≡ digest_or before (last? (z ∷ zs))
      → d ≡ digest_or before' (last? (z ∷ zs))
  digest_or-nonempty before before' z [] e = e
  digest_or-nonempty before before' z (y ∷ ys) e = digest_or-nonempty before before' y ys e

  pub Linked-snoc :
      (before : Option String) (xs : List A) (x : A)
      → Linked before xs
      → previous x ≡ digest_or before (last? xs)
      → Linked before (xs ++ x ∷ [])
  Linked-snoc before [] x h e = (e, tt)
  Linked-snoc before (y ∷ []) x h e = (h.0, (e, tt))
  Linked-snoc before (y ∷ (z ∷ zs)) x h e = (
    h.0,
    Linked-snoc (some (digest y)) (z ∷ zs) x h.1
        (digest_or-nonempty before (some (digest y)) z zs e),
  )

  module _ (scope : A → List String) (version : A → ℕ) where
    -- Every scope's items count up from 1 and are linked.
    pub record IsChained (items : List A) : Type 0 where
      pub ordered : IsContiguous scope version items
      pub linked : (key : List String) → Linked none (history scope version items key)

    pub appended-IsChained :
        (items : List A) (item : A)
        → IsChained items
        → version item ≡ next_version version (last? (history scope version items (scope item)))
        → previous item ≡ digest_or none (last? (history scope version items (scope item)))
        → IsChained (items ++ item ∷ [])
    appended-IsChained items item c follows extends =
        let e = appended-Extends scope version items item c.ordered follows in
        record {
          ordered = appended-IsContiguous scope version items item c.ordered follows;
          linked = λ key. elim (Bool-cases (scope item == key)) [
            | inr other ↦ subst (Linked none) (sym (e.others key other)) (c.linked key)
            | inl own ↦
                subst (λ k. Linked none (history scope version (items ++ item ∷ []) k))
                  (eq_of_beq (scope item) key own)
                  (subst (Linked none) (sym e.appended) (
                    Linked-snoc none (history scope version items (scope item)) item
                      (c.linked (scope item)) extends))
          ];
        }
