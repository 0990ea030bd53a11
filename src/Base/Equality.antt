-- ===== src/Base/Equality.antt =====
-- Equality as an interface (Python's `==`), and what the program builds from it: membership,
-- uniqueness, subsets.
use mathlib.Core.Path.{◌≡◌, refl, sym, ◌∙◌}
use mathlib.Core.Logic.{◌↔◌, inl, inr}
use mathlib.Core.Bool.{Bool, true, false, not, ◌&&◌, ◌||◌}
use mathlib.Core.Option.{Option, none, some}
use mathlib.Core.List.{List, [], ◌∷◌, ◌++◌, map}
use Prim.Native.Nat.{ℕ}
use Prim.Native.String.{String}
use native.Mathlib.Omega.{arith}
use text.Mathlib.Text.{◌==◌ as str_eq}
use text.Mathlib.TextEquality.{eq_iff}
use reg_agent_ops.Base.Lists.{All, All-map, is_empty, select}
use reg_agent_ops.Base.Tests.{eqb, Bool-cases, if◌then◌else◌}

-- `==` of a class, and what it decides
pub record Eq {ℓ} (A : Type ℓ) : Type ℓ where
  pub beq : A → A → Bool
  pub beq_iff : (x y : A) → (beq x y ≡ true) ↔ (x ≡ y)

pub eqb_iff : (m n : ℕ) → (eqb m n ≡ true) ↔ (m ≡ n)
eqb_iff m n = (λ h. ground arith, λ h. ground arith)

instance abbrev pub string_eq : Eq String
string_eq = record { beq_iff = eq_iff; beq = str_eq }

instance abbrev pub nat_eq : Eq ℕ
nat_eq = record { beq_iff = eqb_iff; beq = eqb }

infix 50 ◌!=◌ ◌==◌
abbrev pub ◌!=◌ {ℓ} : {A : Type ℓ} ⦃e : Eq A⦄ → A → A → Bool
◌!=◌ ⦃e⦄ x y = not (e.beq x y)

abbrev pub ◌==◌ {ℓ} : {A : Type ℓ} ⦃e : Eq A⦄ → A → A → Bool
◌==◌ ⦃e⦄ x y = e.beq x y

module _ {ℓ} {A : Type ℓ} ⦃e : Eq A⦄ where
  pub eq_of_beq : (a b : A) → (a == b) ≡ true → a ≡ b
  eq_of_beq a b h = (e.beq_iff a b).0 h

  pub eq_of_bne : (a b : A) → (a != b) ≡ false → a ≡ b
  eq_of_bne a b h = elim (Bool-cases (e.beq a b)) [
    | inl q ↦ eq_of_beq a b q
    | inr q ↦ absurd (ne h q)
  ]
    where
      ne : not (e.beq a b) ≡ false → e.beq a b ≡ false → ⊥
      ne p q = ground arith

  pub beq_self : (a : A) → (a == a) ≡ true
  beq_self a = (e.beq_iff a a).1 refl

  pub beq_comm : (a b : A) → (a == b) ≡ (b == a)
  beq_comm a b = elim (Bool-cases (e.beq a b)) [
    | inl p ↦ elim (Bool-cases (e.beq b a)) [
      | inl q ↦ p ∙ sym q
      | inr q ↦ cc (q, (e.beq_iff b a).1 (sym ((e.beq_iff a b).0 p)))
    ]
    | inr p ↦ elim (Bool-cases (e.beq b a)) [
      | inl q ↦ cc (p, (e.beq_iff a b).1 (sym ((e.beq_iff b a).0 q)))
      | inr q ↦ p ∙ sym q
    ]
  ]

  -- `a in xs`
  abbrev pub contains : List A → A → Bool
  contains [] a = false
  contains (x ∷ xs) a = (a == x) || contains xs a

  -- `len(set(xs)) == len(xs)`: no value stands twice
  abbrev pub unique : List A → Bool
  unique [] = true
  unique (x ∷ xs) = not (contains xs x) && unique xs

  -- `set(xs)`, each value once
  abbrev pub distinct : List A → List A
  distinct [] = []
  distinct (x ∷ xs) = let rest = distinct xs in if contains xs x then rest else x ∷ rest

  pub contains-distinct : (a : A) (xs : List A) → contains (distinct xs) a ≡ contains xs a
  contains-distinct a [] = refl
  contains-distinct a (x ∷ xs) = ground (arith, contains-distinct a xs, e.beq_iff a x)

  pub unique-distinct : (xs : List A) → unique (distinct xs) ≡ true
  unique-distinct [] = refl
  unique-distinct (x ∷ xs) = ground (arith, contains-distinct x xs, unique-distinct xs)

  pub is_empty-distinct : (xs : List A) → is_empty (distinct xs) ≡ is_empty xs
  is_empty-distinct [] = refl
  is_empty-distinct (x ∷ []) = refl
  is_empty-distinct (x ∷ (y ∷ xs)) = ground (arith, is_empty-distinct (y ∷ xs))

  -- `set(xs).issubset(ys)`
  abbrev pub subset : List A → List A → Bool
  subset [] ys = true
  subset (x ∷ xs) ys = contains ys x && subset xs ys

module _ {ℓ} {A : Type ℓ} ⦃e : Eq A⦄ where
  pub contains-snoc :
      (xs : List A) (d a : A) → contains (xs ++ d ∷ []) a ≡ (contains xs a || a == d)
  contains-snoc [] d a = ground arith
  contains-snoc (x ∷ xs) d a = ground (arith, contains-snoc xs d a)

  All-contains_cons :
      (x : A) (xs zs : List A)
      → All (λ a. contains xs a ≡ true) zs
      → All (λ a. contains (x ∷ xs) a ≡ true) zs
  All-contains_cons x xs zs = All-map (λ a h. ground arith) zs

  pub All-contains : (xs : List A) → All (λ a. contains xs a ≡ true) xs
  All-contains [] = tt
  All-contains (x ∷ xs) = (ground (arith, beq_self x), All-contains_cons x xs xs (All-contains xs))

  pub contains-append :
      (xs ys : List A) (a : A) → contains (xs ++ ys) a ≡ (contains xs a || contains ys a)
  contains-append [] ys a = refl
  contains-append (x ∷ xs) ys a = ground (arith, contains-append xs ys a)

  -- where a new value stands does not matter for uniqueness
  pub unique-middle :
      (xs : List A) (d : A) (ys : List A)
      → unique (xs ++ ys) ≡ true
      → contains (xs ++ ys) d ≡ false
      → unique ((xs ++ d ∷ []) ++ ys) ≡ true
  unique-middle [] d ys u n = ground arith
  unique-middle (x ∷ xs) d ys u n = ground (
    arith,
    unique-middle xs d ys,
    contains-append (xs ++ d ∷ []) ys x,
    contains-append xs ys x,
    contains-snoc xs d x,
    beq_comm d x,
  )

  pub unique-snoc :
      (xs : List A) (d : A)
      → unique xs ≡ true
      → contains xs d ≡ false
      → unique (xs ++ d ∷ []) ≡ true
  unique-snoc [] d u n = refl
  unique-snoc (x ∷ xs) d u n = ground (arith, contains-snoc xs d x, unique-snoc xs d, beq_comm d x)

  pub subset-snoc :
      (xs : List A) (d : A) (ys : List A)
      → subset xs ys ≡ true
      → contains ys d ≡ true
      → subset (xs ++ d ∷ []) ys ≡ true
  subset-snoc [] d ys s c = ground arith
  subset-snoc (x ∷ xs) d ys s c = ground (arith, subset-snoc xs d ys)

-- A selection of values with different keys has different keys.
module _ {ℓ κ} {A : Type ℓ} {K : Type κ} ⦃e : Eq K⦄ (key : A → K) (p : A → Bool) where
  contains-map-select :
      (a : K) (xs : List A)
      → contains (map key xs) a ≡ false
      → contains (map key (select p xs)) a ≡ false
  contains-map-select a [] h = refl
  contains-map-select a (x ∷ xs) h = ground (arith, contains-map-select a xs)

  pub unique-map-select :
      (xs : List A) → unique (map key xs) ≡ true → unique (map key (select p xs)) ≡ true
  unique-map-select [] h = refl
  unique-map-select (x ∷ xs) h =
      ground (arith, contains-map-select (key x) xs, unique-map-select xs)

-- `==` of tuples of texts
abbrev pub same_texts : List String → List String → Bool
same_texts [] [] = true
same_texts (x ∷ xs) (y ∷ ys) = x == y && same_texts xs ys
same_texts _ _ = false

pub same_texts_iff : (xs ys : List String) → (same_texts xs ys ≡ true) ↔ (xs ≡ ys)
same_texts_iff [] [] = (λ h. refl, λ h. refl)
same_texts_iff [] (y ∷ ys) = (λ h. cc, λ h. cc)
same_texts_iff (x ∷ xs) [] = (λ h. cc, λ h. cc)
same_texts_iff (x ∷ xs) (y ∷ ys) = (
  λ h. ground (arith, eq_iff x y, same_texts_iff xs ys),
  λ h. ground (arith, eq_iff x y, same_texts_iff xs ys),
)

-- Tuples of texts serve as keys.
instance abbrev pub texts_eq : Eq (List String)
texts_eq = record { beq = same_texts; beq_iff = same_texts_iff }

-- `==` of flags and of optional texts
abbrev pub same_flag : Bool → Bool → Bool
same_flag true b = b
same_flag false b = not b

abbrev pub same_optional : Option String → Option String → Bool
same_optional none none = true
same_optional (some s) (some t) = s == t
same_optional _ _ = false

pub same_optional_iff : (s t : Option String) → (same_optional s t ≡ true) ↔ (s ≡ t)
same_optional_iff none none = (λ h. refl, λ h. refl)
same_optional_iff none (some t) = (λ h. cc, λ h. cc)
same_optional_iff (some s) none = (λ h. cc, λ h. cc)
same_optional_iff (some s) (some t) =
    (λ h. ground (arith, eq_iff s t), λ h. ground (arith, eq_iff s t))

-- an entry added at the end, by its key
module _ {ℓ κ} {A : Type ℓ} {K : Type κ} ⦃e : Eq K⦄ (key : A → K) where
  contains-map-snoc :
      (a : K) (xs : List A) (x : A)
      → contains (map key (xs ++ x ∷ [])) a ≡ (contains (map key xs) a || (a == key x))
  contains-map-snoc a [] x = ground arith
  contains-map-snoc a (y ∷ ys) x = ground (arith, contains-map-snoc a ys x)

  pub unique-map-snoc :
      (xs : List A) (x : A)
      → unique (map key xs) ≡ true
      → contains (map key xs) (key x) ≡ false
      → unique (map key (xs ++ x ∷ [])) ≡ true
  unique-map-snoc [] x h k = refl
  unique-map-snoc (y ∷ ys) x h k =
      ground (arith, contains-map-snoc (key y) ys x, unique-map-snoc ys x, beq_comm (key x) (key y))
