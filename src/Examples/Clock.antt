-- ===== src/Examples/Clock.antt =====
-- A platform that can be run: times within the first ten minutes of 2026, documents that stand for
-- their first text, digests that tell the parity of a document's length, one text
-- in base64, and signatures that are as long as the key.
use reg_agent_ops.Base.{
  Bool, Option, String, codes, false, if◌then◌else◌, is_hex, is_hex_64, leb, len, length, nat_eq,
  none, refl, some, string_eq, texts_eq, true, ℕ, ◌%◌, ◌*◌, ◌+++◌, ◌/◌, ◌==◌, ◌≡◌,
}
use reg_agent_ops.Models.DataClassification.{data_classification_eq}
use reg_agent_ops.Models.Decision.{decision_eq}
use reg_agent_ops.Models.Environment.{environment_eq}
use reg_agent_ops.Models.RiskTier.{risk_tier_eq}
use reg_agent_ops.Models.Value.{
  Fields, HexDigests, Platform, Value, arr, cons, end, field, flag, nil, null, num, obj, text,
}

-- the minutes 0 to 9
abbrev pub minute : ℕ → String
minute n =
    if n == 0
    then "2026-01-01T00:00:00"
    else if n == 1
    then "2026-01-01T00:01:00"
    else if n == 2
    then "2026-01-01T00:02:00"
    else if n == 3
    then "2026-01-01T00:03:00"
    else "2026-01-01T00:09:00"

abbrev microseconds : ℕ → ℕ
microseconds n = n * 60000000

unfoldable pub clock : String → Option ℕ
clock value =
    if value == minute 0 +++ "+00:00"
    then some (microseconds 0)
    else if value == minute 1 +++ "+00:00"
    then some (microseconds 1)
    else if value == minute 2 +++ "+00:00"
    then some (microseconds 2)
    else if value == minute 3 +++ "+00:00"
    then some (microseconds 3)
    else if value == minute 9 +++ "+00:00"
    then some (microseconds 9)
    else none

unfoldable mutual
  pub first_text : Value → String
  first_text null = ""
  first_text (flag b) = ""
  first_text (num n) = ""
  first_text (text s) = s
  first_text (arr nil) = ""
  first_text (arr (cons v vs)) = first_text v
  first_text (obj fs) = first_of_fields fs

  pub first_of_fields : Fields → String
  first_of_fields end = ""
  first_of_fields (field k v r) = first_text v

abbrev pub even_digest : String
even_digest = "0000000000000000000000000000000000000000000000000000000000000000"

abbrev pub odd_digest : String
odd_digest = "1111111111111111111111111111111111111111111111111111111111111111"

unfoldable pub parity_digest : String → String
parity_digest document = if len document % 2 == 0 then even_digest else odd_digest

instance abbrev pub example_platform : Platform
example_platform = record {
  dumps = first_text;
  sha256_hexdigest = parity_digest;
  fromisoformat = λ value. elim (clock value) [
    | none ↦ none
    | some t ↦ some (record { microseconds = t; aware = true })
  ];
  isoformat_error = λ value. "Invalid isoformat string: " +++ value;
  repr_texts = λ values. "[]";
  isoformat = λ t. minute (t / 60000000) +++ "+00:00";
  isoformat_local = λ t. minute (t / 60000000) +++ "+00:00";
  urlsafe_b64decode = λ s. some (codes s);
  urlsafe_b64encode = λ bytes. even_digest;
  ed25519_verify = λ key signature message. leb (length key) (length signature);
}

parity-is_hex_64 : (even : Bool) → is_hex_64 (if even then even_digest else odd_digest) ≡ true
unfolding is_hex_64 codes is_hex
parity-is_hex_64 true = refl
parity-is_hex_64 false = refl

pub example_platform-HexDigests : HexDigests
unfolding parity_digest
example_platform-HexDigests document = parity-is_hex_64 (len document % 2 == 0)
