-- ===== src/Approval/Authority/Termination.antt =====
-- Following the parents of a grant ends: the trail holds digests of grants of the bundle, each once,
-- so it is never longer than the bundle.
use reg_agent_ops.Approval.ApprovalAuthorityGrant
use reg_agent_ops.Approval.Authority
use reg_agent_ops.Approval.ApprovalAuthorityGrant.{ApprovalAuthorityGrant}
use reg_agent_ops.Approval.Authority.{
  ApprovalAuthorityRegistry, authority_time, by_digest, enough, narrows, outlives, parent_key,
  validate_grant,
}
use reg_agent_ops.Approval.Checks.{parse_with}
use reg_agent_ops.Base.{
  Bool, Bool-cases, Eq, List, Option-cases, Result, String, [], and-true, ap, arith, beq_comm,
  beq_self, contains, err, false, for_each, fuel_exhausted, if◌then◌else◌, inl, inr, length,
  length-snoc, map, nat_eq, ok, refl, some, string_eq, subset, subset-snoc, suc, texts_eq, true,
  unique, unique-snoc, zero, ℕ, ◌++◌, ◌+◌, ◌<◌, ◌==◌, ◌>>=◌, ◌>>◌, ◌∷◌, ◌≡◌, ◌≢◌, ◌≤◌,
}
use reg_agent_ops.Models.Checks.{less}
use reg_agent_ops.Models.DataClassification.{data_classification_eq}
use reg_agent_ops.Models.Decision.{decision_eq}
use reg_agent_ops.Models.Environment.{environment_eq}
use reg_agent_ops.Models.RiskTier.{risk_tier_eq}
use reg_agent_ops.Models.Value.{Platform}

module _ {ℓ} {A : Type ℓ} ⦃e : Eq A⦄ where
  abbrev remove : A → List A → List A
  remove a [] = []
  remove a (x ∷ xs) = let rest = remove a xs in if a == x then xs else x ∷ rest

  length-remove :
      (a : A) (xs : List A) → contains xs a ≡ true → length xs ≡ suc (length (remove a xs))
  length-remove a [] h = cc
  length-remove a (x ∷ xs) h = ground (arith, length-remove a xs)

  contains-remove :
      (a b : A) (xs : List A)
      → (b == a) ≡ false
      → contains xs b ≡ true
      → contains (remove a xs) b ≡ true
  contains-remove a b [] ne h = h
  contains-remove a b (x ∷ xs) ne h =
      ground (arith, contains-remove a b xs, e.beq_iff a x, e.beq_iff b x, e.beq_iff b a)

  subset-remove :
      (a : A) (xs ys : List A)
      → contains xs a ≡ false
      → subset xs ys ≡ true
      → subset xs (remove a ys) ≡ true
  subset-remove a [] ys n s = refl
  subset-remove a (x ∷ xs) ys n s =
      ground (arith, contains-remove a x ys, subset-remove a xs ys, beq_comm a x)

  -- A list with no value twice that lies in another is no longer than it.
  pub pigeonhole : (xs ys : List A) → unique xs ≡ true → subset xs ys ≡ true → length xs ≤ length ys
  pigeonhole [] ys u s = omega arith
  pigeonhole (x ∷ xs) ys u s =
      ground (arith, length-remove x ys, subset-remove x xs ys, pigeonhole xs (remove x ys))

  subset-cons : (a : A) (xs ys : List A) → subset xs ys ≡ true → subset xs (a ∷ ys) ≡ true
  subset-cons a [] ys s = refl
  subset-cons a (x ∷ xs) ys s = ground (arith, subset-cons a xs ys)

  subset_refl : (xs : List A) → subset xs xs ≡ true
  subset_refl [] = refl
  subset_refl (x ∷ xs) = ground (arith, beq_self x, subset-cons x xs xs, subset_refl xs)

module _ ⦃p : Platform⦄ where
  abbrev digests_of : List ApprovalAuthorityGrant → List String
  digests_of grants = map (λ grant. ApprovalAuthorityGrant.artifact_digest grant) grants

  by_digest-contains :
      (grants : List ApprovalAuthorityGrant) (digest : String) {grant : ApprovalAuthorityGrant}
      → by_digest grants digest ≡ some grant
      → contains (digests_of grants) (ApprovalAuthorityGrant.artifact_digest grant) ≡ true
  unfolding by_digest
  by_digest-contains [] digest h = cc
  by_digest-contains (g ∷ grants) digest {grant = grant} h = ground (
    arith,
    by_digest-contains grants digest {grant = grant},
    beq_self (ApprovalAuthorityGrant.artifact_digest g),
  )

  authority_time-ne-fuel_exhausted : (value : String) → authority_time value ≢ err fuel_exhausted
  unfolding authority_time parse_with
  authority_time-ne-fuel_exhausted value h = ground arith

  less-ne-fuel_exhausted : (a b : String) (x y : ℕ) → less a b x y ≢ err fuel_exhausted
  unfolding less
  less-ne-fuel_exhausted a b x y h = ground arith

  bind-ne-fuel_exhausted :
      {A : Type 0} {B : Type 0} (r : Result A) (next : A → Result B)
      → r ≢ err fuel_exhausted
      → ((a : A) → next a ≢ err fuel_exhausted)
      → (r >>= next) ≢ err fuel_exhausted
  bind-ne-fuel_exhausted (ok a) next h k = k a
  bind-ne-fuel_exhausted (err e) next h k = λ raised. h (cc raised)

  if-ne-fuel_exhausted :
      (b : Bool) (r : Result Bool)
      → r ≢ err fuel_exhausted
      → (if b then ok true else r) ≢ err fuel_exhausted
  if-ne-fuel_exhausted true r h = λ raised. cc raised
  if-ne-fuel_exhausted false r h = h

  outlives-ne-fuel_exhausted :
      (grant parent : ApprovalAuthorityGrant) → outlives grant parent ≢ err fuel_exhausted
  unfolding outlives
  outlives-ne-fuel_exhausted grant parent =
      bind-ne-fuel_exhausted (authority_time grant.valid_from) _
        (authority_time-ne-fuel_exhausted grant.valid_from)
        (λ start.
          bind-ne-fuel_exhausted (authority_time parent.valid_from) _
            (authority_time-ne-fuel_exhausted parent.valid_from)
            (λ parent_start.
              bind-ne-fuel_exhausted (less grant.valid_from parent.valid_from start parent_start) _
                (less-ne-fuel_exhausted grant.valid_from parent.valid_from start parent_start)
                (λ sooner. if-ne-fuel_exhausted sooner _ (
                  bind-ne-fuel_exhausted (authority_time grant.valid_until) _
                    (authority_time-ne-fuel_exhausted grant.valid_until)
                    (λ finish.
                      bind-ne-fuel_exhausted (authority_time parent.valid_until) _
                        (authority_time-ne-fuel_exhausted parent.valid_until)
                        (λ parent_finish.
                          less-ne-fuel_exhausted parent.valid_until grant.valid_until parent_finish
                            finish))))))

  narrows-ne-fuel_exhausted :
      (grant parent : ApprovalAuthorityGrant) → narrows grant parent ≢ err fuel_exhausted
  unfolding narrows
  narrows-ne-fuel_exhausted grant parent h = ground (arith, outlives-ne-fuel_exhausted grant parent)

  >>-ne-fuel_exhausted :
      (m k : Result (Unit {0}))
      → m ≢ err fuel_exhausted
      → k ≢ err fuel_exhausted
      → (m >> k) ≢ err fuel_exhausted
  >>-ne-fuel_exhausted (ok tt) k h g e = g e
  >>-ne-fuel_exhausted (err x) k h g e = h e

  -- The invariant of the trail, and fuel for what it leaves.
  record IsTrail (grants : List ApprovalAuthorityGrant) (trail : List String) (fuel : ℕ)
      : Type 0 where
    once : unique trail ≡ true
    known : subset trail (digests_of grants) ≡ true
    room : length grants < fuel + length trail

  length-digests_of :
      (grants : List ApprovalAuthorityGrant) → length (digests_of grants) ≡ length grants
  length-digests_of [] = refl
  length-digests_of (g ∷ grants) = ap suc (length-digests_of grants)

  validate_grant-ends :
      (fuel : ℕ) (grants : List ApprovalAuthorityGrant) (grant : ApprovalAuthorityGrant)
      (trail : List String)
      → IsTrail grants trail fuel
      → contains (digests_of grants) (ApprovalAuthorityGrant.artifact_digest grant) ≡ true
      → validate_grant fuel grants grant trail ≢ err fuel_exhausted
  unfolding validate_grant
  validate_grant-ends zero grants grant trail t c h = absurd (
      omega (
        arith,
        pigeonhole trail (digests_of grants) t.once t.known,
        length-digests_of grants,
        t.room,
      ))
  validate_grant-ends (suc fuel) grants grant trail t c h =
      elim (Option-cases (by_digest grants (parent_key grant))) [
        | inl missing ↦ ground arith
        | inr (parent, found) ↦ elim (Bool-cases (contains trail digest)) [
          | inl cycle ↦ ground arith
          | inr new ↦
              let next : IsTrail grants (trail ++ digest ∷ []) fuel = record {
                once = unique-snoc trail digest t.once new;
                known = subset-snoc trail digest (digests_of grants) t.known c;
                room = omega (arith, length-snoc trail digest, t.room);
              } in
              let ends =
                validate_grant-ends fuel grants parent (trail ++ digest ∷ []) next
                  (by_digest-contains grants (parent_key grant) found) in
              >>-ne-fuel_exhausted (validate_grant fuel grants parent (trail ++ digest ∷ []))
                (narrows grant parent) ends (narrows-ne-fuel_exhausted grant parent) (ground arith)
        ]
      ]
    where
      digest : String
      digest = ApprovalAuthorityGrant.artifact_digest grant

  for_each-ne-fuel_exhausted :
      (grants visited : List ApprovalAuthorityGrant)
      → subset (digests_of visited) (digests_of grants) ≡ true
      → for_each visited (λ grant. validate_grant (enough grants) grants grant [])
        ≢ err fuel_exhausted
  for_each-ne-fuel_exhausted grants [] s = λ h. cc
  for_each-ne-fuel_exhausted grants (grant ∷ visited) s =
      >>-ne-fuel_exhausted (validate_grant (enough grants) grants grant [])
        (for_each visited (λ g. validate_grant (enough grants) grants g []))
        (validate_grant-ends (enough grants) grants grant []
          (record { once = refl; known = refl; room = omega arith }) ((and-true _ _ s).0))
        (for_each-ne-fuel_exhausted grants visited ((and-true _ _ s).1))

  -- Validating a bundle always ends within the fuel, whatever grants it holds and however their
  -- parents point at one another.
  pub post_init-ends : (r : ApprovalAuthorityRegistry) → Authority.post_init r ≢ err fuel_exhausted
  unfolding Authority.post_init
  post_init-ends r =
      for_each-ne-fuel_exhausted r.bundle.grants r.bundle.grants
        (subset_refl (digests_of r.bundle.grants))
