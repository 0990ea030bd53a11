-- ===== src/Base/Outcome.antt =====
-- What a call returns or raises. An exception is its class with its message.
use mathlib.Core.Path.{◌≡◌, refl, ap}
use mathlib.Core.Logic.{◌⊎◌, inl, inr}
use mathlib.Core.Bool.{Bool, true, false}
use mathlib.Core.List.{List, [], ◌∷◌}
use Prim.Native.String.{String}

pub data Error : Type 0 where
  value_error : String → Error
  approval_gate_error : String → Error
  approval_authority_error : String → Error
  approval_signature_error : String → Error
  receipt_signature_error : String → Error
  identity_signature_error : String → Error
  workload_identity_error : String → Error
  identity_binding_error : String → Error
  overflow_error : String → Error
  index_error : String → Error
  type_error : String → Error
  -- no Python exception: the model ran out of the steps that it was given
  fuel_exhausted : Error

pub data Result {ℓ} (A : Type ℓ) : Type ℓ where
  err : Error → Result A
  ok : A → Result A

infixl 5 ◌>>=◌ ◌>>◌
-- the next statement, with the value of the one before; a raised error skips it
abbrev pub ◌>>=◌ {ℓ ℓ'} : {A : Type ℓ} {B : Type ℓ'} → Result A → (A → Result B) → Result B
err raised >>= next = err raised
ok value >>= next = next value

-- the next statement, after one that has no value
abbrev pub ◌>>◌ {ℓ} : {B : Type ℓ} → Result (Unit {0}) → Result B → Result B
statement >> rest = statement >>= λ done. rest

-- `if test: raise error`
abbrev pub raise_if : Bool → Error → Result (Unit {0})
raise_if true e = err e
raise_if false e = ok tt

-- `for x in xs: check(x)`
abbrev pub for_each {ℓ} : {A : Type ℓ} → List A → (A → Result (Unit {0})) → Result (Unit {0})
for_each [] check = ok tt
for_each (x ∷ xs) check = check x >> for_each xs check

pub >>=-eq-ok {ℓ ℓ'} :
    {A : Type ℓ} {B : Type ℓ'} (r : Result A) (next : A → Result B) {y : B}
    → (r >>= next) ≡ ok y
    → (x : A) × (r ≡ ok x) × (next x ≡ ok y)
>>=-eq-ok (err raised) next returned = cc
>>=-eq-ok (ok x) next returned = (x, refl, returned)

pub >>-eq-ok {ℓ} :
    {B : Type ℓ} (r : Result (Unit {0})) (rest : Result B) {y : B}
    → (r >> rest) ≡ ok y
    → (r ≡ ok tt) × (rest ≡ ok y)
>>-eq-ok (err raised) rest returned = cc
>>-eq-ok (ok tt) rest returned = (refl, returned)

pub raise_if-ok : (b : Bool) (e : Error) → raise_if b e ≡ ok tt → b ≡ false
raise_if-ok true e h = cc
raise_if-ok false e h = refl

abbrev value_or {ℓ} : {A : Type ℓ} → A → Result A → A
value_or a (ok b) = b
value_or a (err e) = a

pub ok-injective {ℓ} : {A : Type ℓ} {a b : A} → Path (Result A) (ok a) (ok b) → a ≡ b
ok-injective {a = a} h = ap (value_or a) h

pub Result-cases {ℓ} :
    {A : Type ℓ} (r : Result A) → ((a : A) × (r ≡ ok a)) ⊎ ((e : Error) × (r ≡ err e))
Result-cases (ok a) = inl (a, refl)
Result-cases (err e) = inr (e, refl)

-- a check that has no value
pub unit_result : (r : Result (Unit {0})) → (r ≡ ok tt) ⊎ ((e : Error) × (r ≡ err e))
unit_result (ok tt) = inl refl
unit_result (err e) = inr (e, refl)
