-- ===== src/Models/Value.antt =====
-- models.py: what a dataclass is turned into before it is hashed, its canonical form
-- and its digest. `dataclasses.asdict` of each class stands beside the class as `encode`; the parts
-- of Python that the program calls through are the fields of `Platform`.
use reg_agent_ops.Base.{
  Bool, List, Option, String, [], if◌then◌else◌, is_hex_64, map, none, some, true, ℕ, ◌∷◌, ◌≡◌,
}
use reg_agent_ops.Base.Sort.{text_le}

mutual
  -- A JSON value. Numbers are the non-negative integers, the only ones that the artifacts hold.
  pub data Value : Type 0 where
    null : Value
    flag : Bool → Value
    num : ℕ → Value
    text : String → Value
    obj : Fields → Value
    arr : Items → Value

  pub data Fields : Type 0 where
    end : Fields
    field : String → Value → Fields → Fields

  pub data Items : Type 0 where
    nil : Items
    cons : Value → Items → Items

abbrev pub items : List Value → Items
items [] = nil
items (v ∷ vs) = cons v (items vs)

abbrev pub fields : List (String × Value) → Fields
fields [] = end
fields ((k, v) ∷ r) = field k v (fields r)

-- A tuple of values, a tuple of texts and an optional text, as `asdict` leaves them.
abbrev pub array_of {ℓ} : {A : Type ℓ} → (A → Value) → List A → Value
array_of f xs = arr (items (map f xs))

abbrev pub dict : List (String × Value) → Value
dict entries = obj (fields entries)

abbrev pub texts : List String → Value
texts = array_of text

abbrev pub optional : Option String → Value
optional none = null
optional (some s) = text s

-- `sorted(value.items(), key=lambda item: str(item[0]))`
unfoldable pub insert_field : String → Value → Fields → Fields
insert_field k v end = field k v end
insert_field k v (field j w r) =
    if text_le k j then field k v (field j w r) else field j w (insert_field k v r)

unfoldable mutual
  pub canonical : Value → Value
  canonical null = null
  canonical (flag b) = flag b
  canonical (num n) = num n
  canonical (text s) = text s
  canonical (arr xs) = arr (canonical_items xs)
  canonical (obj fs) = obj (canonical_fields fs)

  pub canonical_items : Items → Items
  canonical_items nil = nil
  canonical_items (cons v vs) = cons (canonical v) (canonical_items vs)

  pub canonical_fields : Fields → Fields
  canonical_fields end = end
  canonical_fields (field k v r) = insert_field k (canonical v) (canonical_fields r)

-- Python's libraries as the program uses them; no property rests on how they are implemented.
-- A `datetime`: its date and time of day in microseconds from 0001-01-01T00:00:00, and whether it
-- has an offset, which is that of UTC. Without one it is naive.
pub record DateTime : Type 0 where
  pub microseconds : ℕ
  pub aware : Bool

pub record Platform : Type 0 where
  -- `json.dumps(value, sort_keys=True, separators=(",", ":"), ensure_ascii=False)`
  pub dumps : Value → String
  -- `hashlib.sha256(document.encode("utf-8")).hexdigest()`
  pub sha256_hexdigest : String → String
  -- `datetime.fromisoformat`, of texts that end in +00:00; `none` for its ValueError. The time of a
  -- date alone, as in 2026-01-01+00:00, takes the end for a time of day and is naive.
  pub fromisoformat : String → Option DateTime
  -- the message of its ValueError
  pub isoformat_error : String → String
  -- `repr` of a list of texts
  pub repr_texts : List String → String
  -- `value.astimezone(timezone.utc).isoformat()` of an aware time, and of a naive one, which
  -- `astimezone` takes for a time in the local time zone
  pub isoformat : ℕ → String
  pub isoformat_local : ℕ → String
  -- `base64.urlsafe_b64decode` of the padded text, `none` for an exception
  pub urlsafe_b64decode : String → Option (List ℕ)
  -- `base64.urlsafe_b64encode(value).decode("ascii")`
  pub urlsafe_b64encode : List ℕ → String
  -- `Ed25519PublicKey.from_public_bytes(key).verify(signature, message.encode("utf-8"))`:
  -- false for a ValueError or an InvalidSignature
  pub ed25519_verify : List ℕ → List ℕ → String → Bool

module _ ⦃p : Platform⦄ where
  unfoldable pub canonical_json : Value → String
  canonical_json v = p.dumps (canonical v)

  unfoldable pub digest_artifact : Value → String
  digest_artifact v = p.sha256_hexdigest (canonical_json v)

  -- A SHA-256 hex digest has 64 lowercase hexadecimal digits.
  abbrev pub HexDigests : Type 0
  HexDigests = (document : String) → is_hex_64 (p.sha256_hexdigest document) ≡ true

  pub digest_artifact-is_hex_64 : HexDigests → (v : Value) → is_hex_64 (digest_artifact v) ≡ true
  unfolding digest_artifact
  digest_artifact-is_hex_64 h v = h (canonical_json v)
