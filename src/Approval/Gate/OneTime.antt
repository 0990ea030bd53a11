-- ===== src/Approval/Gate/OneTime.antt =====
-- One requirement is redeemed once, over any sequence of calls of `resolve` on one ledger.
use reg_agent_ops.Approval.ApprovalRequirement
use reg_agent_ops.Approval.ApprovalRequirement.{ApprovalRequirement}
use reg_agent_ops.Approval.ApprovalResolution.{ApprovalResolution}
use reg_agent_ops.Approval.Gate.{
  ApprovalGate, after_binding, conclude, redemption, resolution_record, resolve,
}
use reg_agent_ops.Approval.Gate.Continuation.{resolve-Continues}
use reg_agent_ops.Approval.Replay.{ApprovalReplayLedger, Redemption, consume, violates}
use reg_agent_ops.Approval.SignedApprovalPackage.{SignedApprovalPackage}
use reg_agent_ops.Base.{
  All, All-map, Bool, Bool-cases, List, Result, String, [], any, ap, arith, beq_self, contains, err,
  false, if◌then◌else◌, inl, inr, nat_eq, ok, refl, string_eq, texts_eq, true, unique, ◌++◌, ◌==◌,
  ◌∷◌, ◌≡◌, ◌⊎◌,
}
use reg_agent_ops.Models.AgentActionEnvelope.{AgentActionEnvelope}
use reg_agent_ops.Models.AuthenticatedAuthorizationDecision.{AuthenticatedAuthorizationDecision}
use reg_agent_ops.Models.DataClassification.{data_classification_eq}
use reg_agent_ops.Models.Decision.{decision_eq}
use reg_agent_ops.Models.Environment.{environment_eq}
use reg_agent_ops.Models.RiskTier.{risk_tier_eq}
use reg_agent_ops.Models.Value.{Platform}

-- One call, with what it is given.
pub record Attempt : Type 0 where
  pub gate : ApprovalGate
  pub request : AgentActionEnvelope
  pub authorization : AuthenticatedAuthorizationDecision
  pub submitted : SignedApprovalPackage
  pub evaluated_at : String

-- Is the requirement in the ledger?
abbrev pub redeemed : ApprovalReplayLedger → String → Bool
redeemed rows digest = any (λ row. row.requirement_digest == digest) rows

-- the requirement whose redemption a result reports as continuing
abbrev pub continued : Result ApprovalResolution → List String
continued (err e) = []
continued (ok r) = if r.authorization_continuation_permitted then r.requirement_digest ∷ [] else []

module _ ⦃p : Platform⦄ where
  abbrev pub attempt :
      Attempt → ApprovalReplayLedger → Result ApprovalResolution × ApprovalReplayLedger
  attempt a = resolve a.gate a.request a.authorization a.submitted a.evaluated_at

  -- The calls in their order, each on the ledger that the one before it left: the requirements of
  -- the resolutions that let an authorization continue.
  pub run : List Attempt → ApprovalReplayLedger → List String
  run [] rows = []
  run (a ∷ rest) rows = let (outcome, rows') = attempt a rows in continued outcome ++ run rest rows'

  -- a call leaves the ledger alone or adds its own row
  resolve-grows :
      (a : Attempt) (rows : ApprovalReplayLedger)
      → ((attempt a rows).1 ≡ rows)
        ⊎ ((attempt a rows).1 ≡ redemption a.submitted a.request a.evaluated_at ∷ rows)
  unfolding resolve after_binding conclude consume
  resolve-grows a rows = ground arith

  redeemed-grows :
      (a : Attempt) (rows : ApprovalReplayLedger) (digest : String)
      → redeemed rows digest ≡ true
      → redeemed (attempt a rows).1 digest ≡ true
  redeemed-grows a rows digest h = elim (resolve-grows a rows) [
    | inl same ↦ rw same h
    | inr added ↦ rw added (ground arith)
  ]

  violates-false :
      (row : Redemption) (rows : ApprovalReplayLedger)
      → violates row rows ≡ false
      → redeemed rows row.requirement_digest ≡ false
  unfolding violates
  violates-false row [] h = refl
  violates-false row (old ∷ rows) h = ground (arith, violates-false row rows)

  -- a requirement that continues was not in the ledger before the call and is afterwards
  continued_fresh :
      (a : Attempt) (rows : ApprovalReplayLedger) {r : ApprovalResolution}
      → (attempt a rows).0 ≡ ok r
      → r.authorization_continuation_permitted ≡ true
      → (redeemed rows r.requirement_digest ≡ false)
        × (redeemed (attempt a rows).1 r.requirement_digest ≡ true)
  unfolding redemption resolution_record
  continued_fresh a rows {r = r} h k =
      let c =
        (resolve-Continues a.gate a.request a.authorization a.submitted a.evaluated_at rows
          (attempt a rows).1 {r = r} (λ i. (h i, (attempt a rows).1)) k).concluded in
      let same : r.requirement_digest
          ≡ ApprovalRequirement.artifact_digest a.submitted.requirement =
        ap (λ x. x.requirement_digest) c.described_by in
      (
        rw same (violates-false (redemption a.submitted a.request a.evaluated_at) rows c.fresh),
        rw (c.recorded, same)
            (ground
              (arith, beq_self (ApprovalRequirement.artifact_digest a.submitted.requirement))),
      )

  not_contained :
      (test : String → Bool) (d : String) (xs : List String)
      → test d ≡ true
      → All (λ x. test x ≡ false) xs
      → contains xs d ≡ false
  not_contained test d [] h k = refl
  not_contained test d (x ∷ xs) h k =
      ground (arith, not_contained test d xs h k.1, string_eq.beq_iff d x)

  still_fresh :
      (a : Attempt) (rows : ApprovalReplayLedger) (d : String)
      → redeemed (attempt a rows).1 d ≡ false
      → redeemed rows d ≡ false
  still_fresh a rows d h = elim (Bool-cases (redeemed rows d)) [
    | inl old ↦ cc (redeemed-grows a rows d old, h)
    | inr fresh ↦ fresh
  ]

  record IsFreshOnce (rows : ApprovalReplayLedger) (ds : List String) : Type 0 where
    once : unique ds ≡ true
    fresh : All (λ d. redeemed rows d ≡ false) ds

  add_continued :
      (a : Attempt) (rows : ApprovalReplayLedger) (outcome : Result ApprovalResolution)
      (ds : List String)
      → (attempt a rows).0 ≡ outcome
      → IsFreshOnce (attempt a rows).1 ds
      → IsFreshOnce rows (continued outcome ++ ds)
  add_continued a rows (err e) ds h f = record {
    once = f.once;
    fresh = All-map (still_fresh a rows) ds f.fresh;
  }
  add_continued a rows (ok r) ds h f = elim (Bool-cases r.authorization_continuation_permitted) [
    | inr stopped ↦
        rw stopped (record { once = f.once; fresh = All-map (still_fresh a rows) ds f.fresh })
    | inl goes_on ↦
        let (fresh, taken) = continued_fresh a rows {r = r} h goes_on in
        rw goes_on (record {
          once = ground (
            arith,
            f.once,
            not_contained (redeemed (attempt a rows).1) r.requirement_digest ds taken f.fresh,
          );
          fresh = (fresh, All-map (still_fresh a rows) ds f.fresh);
        })
  ]

  run-IsFreshOnce :
      (attempts : List Attempt) (rows : ApprovalReplayLedger) → IsFreshOnce rows (run attempts rows)
  unfolding run
  run-IsFreshOnce [] rows = record { once = refl; fresh = tt }
  run-IsFreshOnce (a ∷ rest) rows =
      add_continued a rows (attempt a rows).0 (run rest (attempt a rows).1) refl
        (run-IsFreshOnce rest (attempt a rows).1)

  -- Over any sequence of calls, by whatever gates and with whatever packages, no requirement
  -- continues twice, and none continues that the ledger held at the start.
  pub run-once :
      (attempts : List Attempt) (rows : ApprovalReplayLedger)
      → (unique (run attempts rows) ≡ true) × All (λ d. redeemed rows d ≡ false) (run attempts rows)
  run-once attempts rows = let f = run-IsFreshOnce attempts rows in (f.once, f.fresh)
