-- ===== src/Contracts/Runtime.antt =====
-- What the contract models call from outside the repository: SHA-256, text encoding, JSON and
-- base64. The first two laws are the documented form of `hexdigest()` and that of a byte string;
-- the last is that decoding undoes encoding.
use memoriesql.Prelude.{ℕ, ◌≡◌, Bool, true, Option, some, String, List}
use memoriesql.Contracts.Text.{is_sha256}

mutual
  -- A JSON value, as `json.dumps` is given it.
  pub data Json : Type 0 where
    null : Json
    bool : Bool → Json
    number : ℕ → Json
    text : String → Json
    array : Items → Json
    object : Fields → Json

  pub data Items : Type 0 where
    nil : Items
    cons : Json → Items → Items

  pub data Fields : Type 0 where
    end : Fields
    entry : String → Json → Fields → Fields

pub record Runtime : Type 0 where
  -- hashlib.sha256(data).hexdigest()
  pub sha256 : List ℕ → String
  -- text.encode()
  pub encode : String → List ℕ
  -- json.dumps(value, ensure_ascii=True, separators=(",", ":"), sort_keys=True).encode()
  pub canonical_json_bytes : Json → List ℕ
  -- str(uuid)
  pub uuid_text : ℕ → String
  pub b64encode : List ℕ → String
  pub b64decode : String → Option (List ℕ)
  pub sha256_form : (data' : List ℕ) → is_sha256 (sha256 data') ≡ true
  pub b64decode-b64encode : (data' : List ℕ) → b64decode (b64encode data') ≡ some data'

module _ (py : Runtime) where
  open py use {sha256, canonical_json_bytes}

  unfoldable pub canonical_sha256 : Json → String
  canonical_sha256 value = sha256 (canonical_json_bytes value)

  pub canonical_sha256-form : (value : Json) → is_sha256 (canonical_sha256 value) ≡ true
  unfolding canonical_sha256
  canonical_sha256-form value = py.sha256_form (canonical_json_bytes value)
