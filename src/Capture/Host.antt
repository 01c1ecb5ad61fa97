-- ===== src/Capture/Host.antt =====
-- host_protocol.py of src/memoriesql/application/capture: file identities, bounded host reads.
use memoriesql.Prelude.{
  ℕ, ◌+◌, ◌≡◌, ◌↔◌, String, Bool, true, false, not, ◌&&◌, ◌||◌, Option, none, some, List, [], ◌∷◌,
  length, is_empty, is_some, leb, Eq, nat_eq, string_eq, option_eq, option_beq_iff, ◌==◌,
  value_error, Result, ok, err, check, require, field, ◌>>=◌, ◌>>◌, arith, eq_iff, eqb_iff,
}
use memoriesql.Contracts.Text.{has_length, is_sha256, is_key, optional, colons, decimal}
use memoriesql.Contracts.Runtime.{Runtime}

abbrev pub host_helper_max_read_bytes : ℕ
host_helper_max_read_bytes = 262144

-- A UUID, as its 128-bit number.
abbrev pub Uuid : Type 0
Uuid = ℕ

-- A `datetime`: the instant, and whether `tzinfo` is set.
pub record Datetime : Type 0 where
  pub instant : ℕ
  pub has_tzinfo : Bool

pub data HostReadStatus : Type 0 where
  data_read end_of_file permission_revoked permission_denied source_unavailable truncated
        rotated_or_replaced identity_drift :
      HostReadStatus

pub record FileIdentity : Type 0 where
  pub platform : String
  pub device : ℕ
  pub inode : ℕ
  pub birth_time_ns : Option ℕ

-- The constraints of a file identity's fields.
unfoldable pub is_file_identity : FileIdentity → Bool
is_file_identity f = has_length 1 32 f.platform

birth_text : Option ℕ → String
birth_text none = "unknown"
birth_text (some birth) = decimal birth

unfoldable pub stable_key : FileIdentity → String
unfolding birth_text
stable_key f =
    colons (f.platform ∷ decimal f.device ∷ decimal f.inode ∷ birth_text f.birth_time_ns ∷ [])

abbrev pub file_beq : FileIdentity → FileIdentity → Bool
file_beq f g =
    f.platform == g.platform
    && (f.device == g.device && (f.inode == g.inode && f.birth_time_ns == g.birth_time_ns))

pub file_beq_iff : (f g : FileIdentity) → (file_beq f g ≡ true) ↔ (f ≡ g)
file_beq_iff f g = ground (
  arith,
  eq_iff f.platform g.platform,
  eqb_iff f.device g.device,
  eqb_iff f.inode g.inode,
  option_beq_iff f.birth_time_ns g.birth_time_ns,
)

instance abbrev pub file_eq : Eq FileIdentity
file_eq = record { beq = file_beq; beq_iff = file_beq_iff }

pub record HostReadRequest : Type 0 where
  pub request_id : Uuid
  pub capability_id : String
  pub capability_credential : String
  pub expected_identity : Option FileIdentity
  pub byte_offset : ℕ
  pub max_bytes : ℕ

pub record HostReadResponse : Type 0 where
  pub request_id : Uuid
  pub status : HostReadStatus
  pub file_identity : Option FileIdentity
  pub start_offset : ℕ
  pub end_offset : ℕ
  pub observed_size : ℕ
  pub data_base64 : String
  pub data_sha256 : String
  pub end_of_file : Bool
  pub diagnostic_code : Option String

unfoldable pub validate_request : HostReadRequest → Result (Unit {0})
validate_request r = check (
    field (is_key r.capability_id) "capability_id"
    ∷ field (has_length 32 256 r.capability_credential) "capability_credential"
    ∷ field (optional is_file_identity r.expected_identity) "expected_identity"
    ∷ field (leb 1 r.max_bytes && leb r.max_bytes host_helper_max_read_bytes) "max_bytes"
    ∷ [])

abbrev pub is_data : HostReadStatus → Bool
is_data data_read = true
is_data _ = false

abbrev pub is_end_of_file : HostReadStatus → Bool
is_end_of_file end_of_file = true
is_end_of_file _ = false

abbrev pub is_success : HostReadStatus → Bool
is_success status = is_data status || is_end_of_file status

module _ (py : Runtime) where
  open py use {sha256, b64decode}

  unfoldable pub decode : Option (List ℕ) → Result (List ℕ)
  decode none = err (value_error "host helper response data must be canonical base64")
  decode (some payload) = ok payload

  -- response.data
  unfoldable pub response_data : HostReadResponse → Result (List ℕ)
  unfolding decode
  response_data r = decode (b64decode r.data_base64)

  -- The checks of `validate_bounded_read`, once the payload is decoded.
  bounded_read : HostReadResponse → List ℕ → Result (Unit {0})
  bounded_read r payload = check (
      require (leb (length payload) host_helper_max_read_bytes)
        "host helper response exceeds the read bound"
      ∷ require (sha256 payload == r.data_sha256)
          "host helper response hash does not match its bytes"
      ∷ require (r.end_offset == r.start_offset + length payload)
          "host helper response offsets do not bind its bytes"
      ∷ require (not (is_success r.status) || is_some r.file_identity)
          "successful host reads require file identity"
      ∷ require (not (is_success r.status) || leb r.end_offset r.observed_size)
          "successful host read exceeds observed file size"
      ∷ require (not (is_success r.status) || not r.end_of_file || r.end_offset == r.observed_size)
          "end-of-file flag must bind the observed file size"
      ∷ require (is_success r.status || is_empty payload)
          "failed host reads cannot disclose source bytes"
      ∷ require (not (is_data r.status) || not (is_empty payload))
          "data response requires source bytes"
      ∷ require (not (is_end_of_file r.status) || is_empty payload)
          "end-of-file response cannot contain bytes"
      ∷ require (not (is_end_of_file r.status) || r.end_of_file)
          "end-of-file status requires its terminal flag"
      ∷ [])

  unfoldable pub validate_response : HostReadResponse → Result (Unit {0})
  unfolding bounded_read
  validate_response r = do
    check (
        field (has_length 0 349528 r.data_base64) "data_base64"
        ∷ field (optional is_file_identity r.file_identity) "file_identity"
        ∷ field (is_sha256 r.data_sha256) "data_sha256"
        ∷ field (optional is_key r.diagnostic_code) "diagnostic_code"
        ∷ [])
    payload ← response_data r
    bounded_read r payload
