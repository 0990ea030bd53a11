-- ===== src/Base/Sort.antt =====
-- `sorted(...)`: a stable insertion sort by a test, what it keeps of the list, and the order of
-- texts by code points, which is Python's.
use Prim.Native.String.{String}
use Prim.Native.Char.{code}
use mathlib.Core.Path.{◌≡◌, refl, sym, ap, ◌∙◌}
use mathlib.Core.Logic.{inl, inr}
use mathlib.Core.Bool.{Bool, true, false, ◌&&◌, ◌||◌, not}
use mathlib.Core.List.{List, [], ◌∷◌, map, map-id}
use native.Mathlib.Omega.{arith}
use text.Mathlib.TextEquality.{Char-path}
use reg_agent_ops.Base.Tests.{ltb, eqb, if◌then◌else◌, Bool-cases}
use reg_agent_ops.Base.Lists.{All, any, is_empty}
use reg_agent_ops.Base.Equality.{Eq, ◌==◌, beq_comm, contains, unique, string_eq}

-- `a <= b` for texts
unfoldable pub text_le : String → String → Bool
text_le String.[] t = true
text_le (String.◌∷◌ c s) String.[] = false
text_le (String.◌∷◌ c s) (String.◌∷◌ d t) =
    ltb (code c) (code d) || (eqb (code c) (code d) && text_le s t)

pub text_le_total : (s t : String) → text_le s t ≡ false → text_le t s ≡ true
unfolding text_le
text_le_total String.[] t h = cc
text_le_total (String.◌∷◌ c s) String.[] h = refl
text_le_total (String.◌∷◌ c s) (String.◌∷◌ d t) h = ground (arith, text_le_total s t)

pub text_le_trans : (s t u : String) → text_le s t ≡ true → text_le t u ≡ true → text_le s u ≡ true
unfolding text_le
text_le_trans String.[] t u h k = refl
text_le_trans (String.◌∷◌ c s) String.[] u h k = cc
text_le_trans (String.◌∷◌ c s) (String.◌∷◌ d t) String.[] h k = cc
text_le_trans (String.◌∷◌ c s) (String.◌∷◌ d t) (String.◌∷◌ e u) h k =
    ground (arith, text_le_trans s t u)

pub text_le_antisymm : (s t : String) → text_le s t ≡ true → text_le t s ≡ true → s ≡ t
unfolding text_le
text_le_antisymm String.[] String.[] h k = refl
text_le_antisymm String.[] (String.◌∷◌ d t) h k = cc
text_le_antisymm (String.◌∷◌ c s) String.[] h k = cc
text_le_antisymm (String.◌∷◌ c s) (String.◌∷◌ d t) h k =
    ground (arith, text_le_antisymm s t, Char-path c d)

module _ {ℓ} {A : Type ℓ} (le : A → A → Bool) where
  abbrev pub insert : A → List A → List A
  insert x [] = x ∷ []
  insert x (y ∷ ys) = if le x y then x ∷ (y ∷ ys) else y ∷ insert x ys

  abbrev pub sort : List A → List A
  sort [] = []
  sort (x ∷ xs) = insert x (sort xs)

  -- every neighbour, and so every later element, is at least as large
  abbrev pub IsSorted : List A → Type 0
  IsSorted [] = Unit
  IsSorted (x ∷ xs) = All (λ y. le x y ≡ true) xs × IsSorted xs

  pub any-insert : (p : A → Bool) (x : A) (ys : List A) → any p (insert x ys) ≡ (p x || any p ys)
  any-insert p x [] = refl
  any-insert p x (y ∷ ys) = ground (arith, any-insert p x ys)

  pub any-sort : (p : A → Bool) (xs : List A) → any p (sort xs) ≡ any p xs
  any-sort p [] = refl
  any-sort p (x ∷ xs) = ground (arith, any-insert p x (sort xs), any-sort p xs)

  pub is_empty-sort : (xs : List A) → is_empty (sort xs) ≡ is_empty xs
  is_empty-sort [] = refl
  is_empty-sort (x ∷ xs) = is_empty-insert (sort xs)
    where
      is_empty-insert : (ys : List A) → is_empty (insert x ys) ≡ false
      is_empty-insert [] = refl
      is_empty-insert (y ∷ ys) = ground arith

  All-insert {κ} : (P : A → Type κ) (x : A) (ys : List A) → P x → All P ys → All P (insert x ys)
  All-insert P x [] h k = (h, tt)
  All-insert P x (y ∷ ys) h k = elim (Bool-cases (le x y)) [
    | inl e ↦ rw e (h, k)
    | inr e ↦ rw e (k.0, All-insert P x ys h k.1)
  ]

  pub All-sort {κ} : (P : A → Type κ) (xs : List A) → All P xs → All P (sort xs)
  All-sort P [] h = tt
  All-sort P (x ∷ xs) h = All-insert P x (sort xs) h.0 (All-sort P xs h.1)

  module _ (total : (x y : A) → le x y ≡ false → le y x ≡ true)
      (trans : (x y z : A) → le x y ≡ true → le y z ≡ true → le x z ≡ true) where
    All-le_trans :
        (x y : A) (zs : List A)
        → le x y ≡ true
        → All (λ z. le y z ≡ true) zs
        → All (λ z. le x z ≡ true) zs
    All-le_trans x y [] h k = tt
    All-le_trans x y (z ∷ zs) h k = (trans x y z h k.0, All-le_trans x y zs h k.1)

    insert-IsSorted : (x : A) (ys : List A) → IsSorted ys → IsSorted (insert x ys)
    insert-IsSorted x [] h = (tt, tt)
    insert-IsSorted x (y ∷ ys) h = elim (Bool-cases (le x y)) [
      | inl e ↦ rw e ((e, All-le_trans x y ys e h.0), h)
      | inr e ↦
          rw e (All-insert (λ z. le y z ≡ true) x ys (total x y e) h.0, insert-IsSorted x ys h.1)
    ]

    pub sort-IsSorted : (xs : List A) → IsSorted (sort xs)
    sort-IsSorted [] = tt
    sort-IsSorted (x ∷ xs) = insert-IsSorted x (sort xs) (sort-IsSorted xs)

module _ {ℓ κ} {A : Type ℓ} {K : Type κ} ⦃e : Eq K⦄ (le : A → A → Bool) (key : A → K) where
  contains-map-insert :
      (a : K) (x : A) (ys : List A)
      → contains (map key (insert le x ys)) a ≡ (a == key x || contains (map key ys) a)
  contains-map-insert a x [] = refl
  contains-map-insert a x (y ∷ ys) = ground (arith, contains-map-insert a x ys)

  unique-map-insert :
      (x : A) (ys : List A)
      → unique (map key (insert le x ys))
        ≡ (not (contains (map key ys) (key x)) && unique (map key ys))
  unique-map-insert x [] = refl
  unique-map-insert x (y ∷ ys) =
      ground
        (arith, contains-map-insert (key y) x ys, unique-map-insert x ys, beq_comm (key x) (key y))

  -- Sorting keeps the keys, so it keeps them apart.
  pub contains-map-sort :
      (a : K) (xs : List A) → contains (map key (sort le xs)) a ≡ contains (map key xs) a
  contains-map-sort a [] = refl
  contains-map-sort a (x ∷ xs) =
      ground (arith, contains-map-insert a x (sort le xs), contains-map-sort a xs)

  pub unique-map-sort : (xs : List A) → unique (map key (sort le xs)) ≡ unique (map key xs)
  unique-map-sort [] = refl
  unique-map-sort (x ∷ xs) =
      ground
        (arith, unique-map-insert x (sort le xs), contains-map-sort (key x) xs, unique-map-sort xs)

-- `sorted(...)` of texts
abbrev pub sort_texts : List String → List String
sort_texts = sort text_le

pub sort_texts-IsSorted : (xs : List String) → IsSorted text_le (sort_texts xs)
sort_texts-IsSorted = sort-IsSorted text_le text_le_total text_le_trans

pub unique-sort_texts : (xs : List String) → unique (sort_texts xs) ≡ unique xs
unique-sort_texts xs =
    ap unique (sym (map-id (sort_texts xs)))
    ∙ unique-map-sort text_le (λ x. x) xs
    ∙ ap unique (map-id xs)
