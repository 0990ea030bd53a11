-- ===== src/Base/Versioned.antt =====
-- What the append-only registries of the program have in common: entries of a scope carry the
-- versions 1, 2, 3, …; the dictionary's key, the scope with the version, is read off the entry, so
-- the entries alone are kept, in the order of their registration.
pub mod Contiguity
pub mod Links
use Prim.Native.Nat.{ℕ, suc, ◌+◌}
use Prim.Native.String.{String}
use mathlib.Core.Path.{◌≡◌, refl, sym, ap, subst, ◌∙◌}
use mathlib.Core.Logic.{◌⊎◌, inl, inr}
use mathlib.Core.Bool.{Bool, true, false, not, ◌&&◌}
use mathlib.Core.Option.{Option, none, some}
use mathlib.Core.List.{List, [], ◌∷◌, ◌++◌, append-nil}
use native.Mathlib.Omega.{arith}
use reg_agent_ops.Base.Tests.{eqb, leb, if◌then◌else◌, Bool-cases}
use reg_agent_ops.Base.Lists.{All, last?, length, select, select-append}
use reg_agent_ops.Base.Equality.{Eq, ◌==◌, ◌!=◌, beq_self, eq_of_beq, string_eq, texts_eq}
use reg_agent_ops.Base.Outcome.{Error, Result, ok, err, Result-cases, unit_result}
use reg_agent_ops.Base.Sort.{sort}

-- `1 if not history else history[-1].version + 1`
abbrev pub next_version {ℓ} : {A : Type ℓ} → (A → ℕ) → Option A → ℕ
next_version version none = 1
next_version version (some previous) = version previous + 1

module _ {ℓ} {A : Type ℓ} (scope : A → List String) (version : A → ℕ) where
  abbrev pub of_scope : List String → List A → List A
  of_scope key items = select (λ item. scope item == key) items

  -- `sorted((item ... if scope matches), key=lambda item: item.version)`
  unfoldable pub history : List A → List String → List A
  history items key = sort (λ a b. leb (version a) (version b)) (of_scope key items)

  -- `entries.get((scope, version))`
  abbrev pub find : List A → List String → ℕ → Option A
  find [] key v = none
  find (item ∷ items) key v =
      let rest = find items key v in
      if scope item == key && eqb (version item) v then some item else rest

  -- The registration of an entry: one that is there already is compared by its digest; a new one
  -- has the next version of its scope and passes the registry's own checks on the history.
  unfoldable pub register :
      (A → String)
      → Error
      → (ℕ → Error)
      → (List A → A → Result (Unit {0}))
      → List A
      → A
      → Result String × List A
  register digest conflict gap checks items item =
      let past = history items (scope item) in
      elim (find items (scope item) (version item)) [
        | some existing ↦
            if digest existing != digest item
            then (err conflict, items)
            else (ok (digest existing), items)
        | none ↦
            if not (eqb (version item) (next_version version (last? past)))
            then (err (gap (next_version version (last? past))), items)
            else elim (checks past item) [
              | err e ↦ (err e, items)
              | ok _ ↦ (ok (digest item), items ++ item ∷ [])
            ]
      ]

  -- The versions count up from `k`.
  abbrev pub InOrder : ℕ → List A → Type 0
  InOrder k [] = Unit
  InOrder k (x ∷ xs) = (version x ≡ k) × InOrder (suc k) xs

  sort-InOrder :
      (k : ℕ) (xs : List A) → InOrder k xs → sort (λ a b. leb (version a) (version b)) xs ≡ xs
  sort-InOrder k [] h = refl
  sort-InOrder k (x ∷ []) h = refl
  sort-InOrder k (x ∷ (y ∷ ys)) h =
      rw (sort-InOrder (suc k) (y ∷ ys) h.1) (ground (arith, h.0, h.1.0))

  InOrder-snoc :
      (k : ℕ) (xs : List A) (item : A)
      → InOrder k xs
      → version item ≡ k + length xs
      → InOrder k (xs ++ item ∷ [])
  InOrder-snoc k [] item h e = (omega arith, tt)
  InOrder-snoc k (x ∷ xs) item h e = (h.0, InOrder-snoc (suc k) xs item h.1 (omega arith))

  next_version-last? :
      (k : ℕ) (x : A) (xs : List A)
      → InOrder k (x ∷ xs)
      → next_version version (last? (x ∷ xs)) ≡ k + length (x ∷ xs)
  next_version-last? k x [] h = omega (arith, h.0)
  next_version-last? k x (y ∷ ys) h = omega (arith, next_version-last? (suc k) y ys h.1)

  next_version-eq : (xs : List A) → InOrder 1 xs → next_version version (last? xs) ≡ 1 + length xs
  next_version-eq [] h = refl
  next_version-eq (x ∷ xs) h = next_version-last? 1 x xs h

  -- Every scope's entries stand in the order of their versions, which start at 1.
  pub record IsContiguous (items : List A) : Type 0 where
    pub in_order : (key : List String) → InOrder 1 (of_scope key items)

  pub history-eq :
      (items : List A) (key : List String)
      → IsContiguous items
      → history items key ≡ of_scope key items
  unfolding history
  history-eq items key c = sort-InOrder 1 (of_scope key items) (c.in_order key)

  -- `item` is the next version of its scope, and has been added to its history alone.
  pub record Extends (items items' : List A) (item : A) : Type ℓ where
    pub is_next : version item ≡ suc (length (history items (scope item)))
    pub appended : history items' (scope item) ≡ history items (scope item) ++ item ∷ []
    pub others :
        (key : List String) → (scope item == key) ≡ false → history items' key ≡ history items key
