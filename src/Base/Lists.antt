-- ===== src/Base/Lists.antt =====
-- Lists over the native numbers.
use Prim.Native.Nat.{ℕ, suc, max}
use mathlib.Core.Bool.{Bool, true, false, not, ◌&&◌, ◌||◌}
use mathlib.Core.List.{List, [], ◌∷◌, ◌++◌, map}
use mathlib.Core.Logic.{◌⊎◌, inl, inr}
use mathlib.Core.Path.{◌≡◌, refl, ap, subst}
use mathlib.Core.Option.{Option, none, some}
use native.Mathlib.Omega.{arith}
use reg_agent_ops.Base.Tests.{Bool-cases, if◌then◌else◌}

module _ {ℓ} {A : Type ℓ} where
  abbrev pub length : List A → ℕ
  length [] = 0
  length (x ∷ xs) = suc (length xs)

  abbrev pub is_empty : List A → Bool
  is_empty [] = true
  is_empty (x ∷ xs) = false

  -- `any(p(x) for x in xs)` and `all(...)`
  abbrev pub any : (A → Bool) → List A → Bool
  any p [] = false
  any p (x ∷ xs) = p x || any p xs

  abbrev pub all : (A → Bool) → List A → Bool
  all p [] = true
  all p (x ∷ xs) = p x && all p xs

  -- `[x for x in xs if p(x)]`
  abbrev pub select : (A → Bool) → List A → List A
  select p [] = []
  select p (x ∷ xs) = let rest = select p xs in if p x then x ∷ rest else rest

  abbrev pub All {κ} : (A → Type κ) → List A → Type κ
  All P [] = Unit
  All P (x ∷ xs) = P x × All P xs

  pub is_empty-select : (p : A → Bool) (xs : List A) → is_empty (select p xs) ≡ not (any p xs)
  is_empty-select p [] = refl
  is_empty-select p (x ∷ xs) = ground (arith, is_empty-select p xs)

  pub All-select {κ} :
      (P : A → Type κ) (p : A → Bool) (xs : List A) → All P xs → All P (select p xs)
  All-select P p [] h = tt
  All-select P p (x ∷ xs) h = elim (Bool-cases (p x)) [
    | inl e ↦ rw e (h.0, All-select P p xs h.1)
    | inr e ↦ rw e (All-select P p xs h.1)
  ]

  pub is_empty-append : (xs ys : List A) → is_empty (xs ++ ys) ≡ (is_empty xs && is_empty ys)
  is_empty-append [] ys = refl
  is_empty-append (x ∷ xs) ys = refl

  pub length-snoc : (xs : List A) (d : A) → length (xs ++ d ∷ []) ≡ suc (length xs)
  length-snoc [] d = refl
  length-snoc (x ∷ xs) d = omega (arith, length-snoc xs d)

pub is_empty-map {ℓ κ} :
    {A : Type ℓ} {B : Type κ} (f : A → B) (xs : List A) → is_empty (map f xs) ≡ is_empty xs
is_empty-map f [] = refl
is_empty-map f (x ∷ xs) = refl

pub All-map {ℓ κ μ} :
    {A : Type ℓ} {P : A → Type κ} {Q : A → Type μ} (f : (a : A) → P a → Q a) (xs : List A)
    → All P xs
    → All Q xs
All-map f [] h = tt
All-map f (x ∷ xs) h = (f x h.0, All-map f xs h.1)

-- `xs[-1]`, where there is one
abbrev pub last? {ℓ} : {A : Type ℓ} → List A → Option A
last? [] = none
last? (x ∷ []) = some x
last? (x ∷ (y ∷ ys)) = last? (y ∷ ys)

pub select-append {ℓ} :
    {A : Type ℓ} (p : A → Bool) (xs ys : List A) → select p (xs ++ ys) ≡ select p xs ++ select p ys
select-append p [] ys = refl
select-append p (x ∷ xs) ys = elim (Bool-cases (p x)) [
  | inl e ↦ rw e (ap (λ r. x ∷ r) (select-append p xs ys))
  | inr e ↦ rw e (select-append p xs ys)
]

-- one entry, none, or more
pub one-cases {ℓ} :
    {A : Type ℓ} (xs : List A)
    → ((a : A) × (xs ≡ a ∷ []))
      ⊎ ((xs ≡ []) ⊎ ((a : A) × (b : A) × (rest : List A) × (xs ≡ a ∷ b ∷ rest)))
one-cases [] = inr (inl refl)
one-cases (a ∷ []) = inl (a, refl)
one-cases (a ∷ b ∷ rest) = inr (inr (a, b, rest, refl))

-- the first entry that passes a test
abbrev pub find_first {ℓ} : {A : Type ℓ} → (A → Bool) → List A → Option A
find_first p [] = none
find_first p (x ∷ xs) = let rest = find_first p xs in if p x then some x else rest

-- `max(...)` of a list that is not empty
abbrev pub maximum : List ℕ → ℕ
maximum [] = 0
maximum (n ∷ ns) = max n (maximum ns)

or_default {ℓ} : {A : Type ℓ} → A → Option A → A
or_default a none = a
or_default a (some b) = b

pub some-injective {ℓ} : {A : Type ℓ} {a b : A} → Path (Option A) (some a) (some b) → a ≡ b
unfolding or_default
some-injective {a = a} h = ap (or_default a) h

module _ {ℓ} {A : Type ℓ} where
  pub any-append : (p : A → Bool) (xs ys : List A) → any p (xs ++ ys) ≡ (any p xs || any p ys)
  any-append p [] ys = refl
  any-append p (x ∷ xs) ys = ground (arith, any-append p xs ys)

  pub any-find_first :
      (p : A → Bool) (xs : List A) {y : A} → find_first p xs ≡ some y → any p xs ≡ true
  any-find_first p [] h = cc
  any-find_first p (x ∷ xs) {y = y} h = ground (arith, any-find_first p xs {y = y})

  -- what is found passes the test
  pub find_first-passes :
      (p : A → Bool) (xs : List A) {x : A} → find_first p xs ≡ some x → p x ≡ true
  find_first-passes p [] h = cc
  find_first-passes p (x ∷ xs) h = elim (Bool-cases (p x)) [
    | inl e ↦ subst (λ y. p y ≡ true) (some-injective (rw e at h)) e
    | inr e ↦ find_first-passes p xs (rw e at h)
  ]

  pub All-snoc {κ} : (P : A → Type κ) (xs : List A) (x : A) → All P xs → P x → All P (xs ++ x ∷ [])
  All-snoc P [] x h k = (k, tt)
  All-snoc P (y ∷ ys) x h k = (h.0, All-snoc P ys x h.1 k)

pub All-last? {ℓ κ} :
    {A : Type ℓ} (P : A → Type κ) (xs : List A) {x : A} → All P xs → last? xs ≡ some x → P x
All-last? P [] h e = cc
All-last? P (x ∷ []) h e = subst P (some-injective e) h.0
All-last? P (x ∷ (y ∷ ys)) h e = All-last? P (y ∷ ys) h.1 e

pub All-selected {ℓ} :
    {A : Type ℓ} (p : A → Bool) (xs : List A) → All (λ x. p x ≡ true) (select p xs)
All-selected p [] = tt
All-selected p (x ∷ xs) = elim (Bool-cases (p x)) [
  | inl e ↦ rw e (e, All-selected p xs)
  | inr e ↦ rw e (All-selected p xs)
]

-- what holds of every element that fails a test, where no element passes it
pub All-none {ℓ κ} :
    {A : Type ℓ} {P : A → Type κ} (p : A → Bool) (xs : List A)
    → any p xs ≡ false
    → ((x : A) → p x ≡ false → P x)
    → All P xs
All-none p [] h k = tt
All-none p (x ∷ xs) h k = (k x (ground arith), All-none p xs (ground arith) k)
