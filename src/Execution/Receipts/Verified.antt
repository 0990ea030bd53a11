-- ===== src/Execution/Receipts/Verified.antt =====
-- What `verify_signed_tool_execution_receipt` has checked when it returns.
use reg_agent_ops.Approval.Checks.{decode}
use reg_agent_ops.Base.{
  >>-eq-ok, >>=-eq-ok, List, Result-cases, String, [], arith, eq_of_bne, inl, inr, nat_eq, ok,
  ok-injective, one-cases, raise_if, raise_if-ok, select, string_eq, sym, texts_eq, true, ℕ, ◌!=◌,
  ◌&&◌, ◌<◌, ◌==◌, ◌||◌, ◌∷◌, ◌≡◌, ◌≤◌,
}
use reg_agent_ops.Execution.ExecutionKeyStatus.{ExecutionKeyStatus, execution_key_status_eq}
use reg_agent_ops.Execution.ExecutionTrustBundle.{ExecutionTrustBundle}
use reg_agent_ops.Execution.ExecutionTrustKey.{ExecutionTrustKey}
use reg_agent_ops.Execution.Receipts.{
  check_receipt_signature, execution_receipt_signing_document, verify_receipt_with_key,
  verify_signed_tool_execution_receipt,
}
use reg_agent_ops.Execution.SignedToolExecutionReceipt.{SignedToolExecutionReceipt}
use reg_agent_ops.Execution.ToolExecutionReceipt.{ToolExecutionReceipt}
use reg_agent_ops.Models.Checks.{
  raise_if_less, raise_if_less-ok, raise_unless_less, raise_unless_less-ok, utc_timestamp,
}
use reg_agent_ops.Models.DataClassification.{data_classification_eq}
use reg_agent_ops.Models.Decision.{decision_eq}
use reg_agent_ops.Models.Environment.{environment_eq}
use reg_agent_ops.Models.RiskTier.{risk_tier_eq}
use reg_agent_ops.Models.Value.{Platform, canonical_json, digest_artifact}

module _ ⦃p : Platform⦄ where
  -- The executor's trust key has signed the document built from the receipt.
  pub record IsSignedReceipt (key : ExecutionTrustKey) (signed : SignedToolExecutionReceipt)
      : Type 0 where
    pub public_key : List ℕ
    pub signature : List ℕ
    pub key_decoded : decode key.public_key_base64url ≡ ok public_key
    pub signature_decoded : decode signed.signature_base64url ≡ ok signature
    pub verified :
        p.ed25519_verify public_key signature (
          canonical_json
            (execution_receipt_signing_document signed.receipt signed.key_id signed.algorithm))
        ≡ true

  check_receipt_signature-IsSignedReceipt :
      (key : ExecutionTrustKey) (signed : SignedToolExecutionReceipt)
      → check_receipt_signature key signed
          (execution_receipt_signing_document signed.receipt signed.key_id signed.algorithm)
        ≡ ok tt
      → IsSignedReceipt key signed
  unfolding check_receipt_signature
  check_receipt_signature-IsSignedReceipt key signed h =
      elim (Result-cases (decode key.public_key_base64url)) [
        | inr (e, bad) ↦ absurd (ground arith)
        | inl (public_key, key_decoded) ↦ elim (Result-cases (decode signed.signature_base64url)) [
          | inr (e, bad) ↦ absurd (ground arith)
          | inl (signature, signature_decoded) ↦ record {
            public_key = public_key;
            signature = signature;
            key_decoded = key_decoded;
            signature_decoded = signature_decoded;
            verified = ground arith;
          }
        ]
      ]

  -- What has been checked of the receipt's completion, by the key's own interval.
  pub record IsCompleted (key : ExecutionTrustKey) (receipt : ToolExecutionReceipt) (at : String)
      : Type 0 where
    pub now : ℕ
    pub completed : ℕ
    pub key_start : ℕ
    pub key_end : ℕ
    pub now_parsed : utc_timestamp "verification time" at ≡ ok now
    pub completed_parsed : utc_timestamp "completed_at" receipt.completed_at ≡ ok completed
    pub key_start_parsed : utc_timestamp "key not_before" key.not_before ≡ ok key_start
    pub key_end_parsed : utc_timestamp "key not_after" key.not_after ≡ ok key_end
    pub past : completed ≤ now
    pub key_started : key_start ≤ completed
    pub key_unexpired : completed < key_end

  pub record IsVerifiedReceipt (key : ExecutionTrustKey) (signed : SignedToolExecutionReceipt)
      (at : String) (receipt : ToolExecutionReceipt) : Type 0 where
    pub returned : receipt ≡ signed.receipt
    pub active : key.status ≡ ExecutionKeyStatus.active
    pub algorithm : signed.algorithm ≡ "Ed25519"
    pub completion : IsCompleted key signed.receipt at
    pub document :
        signed.signing_document_digest
        ≡ digest_artifact
            (execution_receipt_signing_document signed.receipt signed.key_id signed.algorithm)
    pub by_key : IsSignedReceipt key signed

  verify_receipt_with_key-IsVerifiedReceipt :
      (key : ExecutionTrustKey) (signed : SignedToolExecutionReceipt) (at : String)
      {receipt : ToolExecutionReceipt}
      → verify_receipt_with_key key signed at ≡ ok receipt
      → IsVerifiedReceipt key signed at receipt
  unfolding verify_receipt_with_key
  verify_receipt_with_key-IsVerifiedReceipt key signed at h =
      let (is_active, h₁) = >>-eq-ok (raise_if (key.status != ExecutionKeyStatus.active) _) _ h in
      let (same_algorithm, h₂) =
        >>-eq-ok (raise_if (key.algorithm != signed.algorithm || signed.algorithm != "Ed25519") _) _
          h₁ in
      let (now, now_parsed, h₃) = >>=-eq-ok (utc_timestamp "verification time" at) _ h₂ in
      let (completed, completed_parsed, h₄) =
        >>=-eq-ok (utc_timestamp "completed_at" signed.receipt.completed_at) _ h₃ in
      let (key_start, key_start_parsed, h₅) =
        >>=-eq-ok (utc_timestamp "key not_before" key.not_before) _ h₄ in
      let (key_end, key_end_parsed, h₆) =
        >>=-eq-ok (utc_timestamp "key not_after" key.not_after) _ h₅ in
      let document =
        execution_receipt_signing_document signed.receipt signed.key_id signed.algorithm in
      let (past, h₇) = >>-eq-ok (raise_if_less _ _ _ _ _) _ h₆ in
      let (key_before, h₈) = >>-eq-ok (raise_if_less _ _ _ _ _) _ h₇ in
      let (key_after, h₉) = >>-eq-ok (raise_unless_less _ _ _ _ _) _ h₈ in
      let (bound, h₁₀) =
        >>-eq-ok (raise_if (signed.signing_document_digest != digest_artifact document) _) _ h₉ in
      let (checked, h₁₁) = >>-eq-ok (check_receipt_signature key signed document) _ h₁₀ in
      record {
        returned = sym (ok-injective h₁₁);
        active = eq_of_bne key.status ExecutionKeyStatus.active (raise_if-ok _ _ is_active);
        algorithm =
            eq_of_bne signed.algorithm "Ed25519" (ground (arith, raise_if-ok _ _ same_algorithm));
        completion = record {
          now = now;
          completed = completed;
          key_start = key_start;
          key_end = key_end;
          now_parsed = now_parsed;
          completed_parsed = completed_parsed;
          key_start_parsed = key_start_parsed;
          key_end_parsed = key_end_parsed;
          past = (raise_if_less-ok _ _ _ _ _ past).1;
          key_started = (raise_if_less-ok _ _ _ _ _ key_before).1;
          key_unexpired = (raise_unless_less-ok _ _ _ _ _ key_after).1;
        };
        document =
            eq_of_bne signed.signing_document_digest (digest_artifact document)
              (raise_if-ok _ _ bound);
        by_key = check_receipt_signature-IsSignedReceipt key signed checked;
      }

  -- When the verification of a receipt returns, it returns the signed receipt, and one trust key of
  -- the bundle alone has the executor and the key id; that key is active, was valid when the receipt
  -- completed, which is not in the future, and its bytes verify the signature on the document built
  -- from the receipt.
  pub verify_signed_tool_execution_receipt-IsVerifiedReceipt :
      (signed : SignedToolExecutionReceipt) (trust : ExecutionTrustBundle) (at : String)
      {receipt : ToolExecutionReceipt}
      → verify_signed_tool_execution_receipt signed trust at ≡ ok receipt
      → (key : ExecutionTrustKey) × (select
            (λ k. k.executor_id == signed.receipt.executor_id && k.key_id == signed.key_id)
            trust.keys
          ≡ key ∷ [])
        × IsVerifiedReceipt key signed at receipt
  unfolding verify_signed_tool_execution_receipt
  verify_signed_tool_execution_receipt-IsVerifiedReceipt signed trust at h =
      elim (one-cases (
        select (λ k. k.executor_id == signed.receipt.executor_id && k.key_id == signed.key_id)
          trust.keys)) [
            | inl (key, only) ↦
                (key, only, verify_receipt_with_key-IsVerifiedReceipt key signed at (ground arith))
            | inr (inl empty) ↦ absurd (ground arith)
            | inr (inr (a, b, rest, more)) ↦ absurd (ground arith)
          ]
