-- ===== src/Capture/Fold/Outcome.antt =====
-- The outcomes of a fold in transcript_fold.py, their validators and the two that the loop makes
-- of a read. A conversation envelope is known by what a fold asks of it, as a parameter.
use memoriesql.Prelude.{
  ℕ, ◌+◌, String, Bool, true, false, ◌&&◌, ◌||◌, Option, none, some, List, [], ◌∷◌, length, is_some,
  leb, ltb, nat_eq, string_eq, ◌==◌, Result, ok, check, require, field, ◌>>=◌, ◌>>◌,
}
use memoriesql.Contracts.Text.{has_length, is_sha256, is_key}
use memoriesql.Capture.Host.{Uuid}
use memoriesql.Capture.Range.Command.{check_each, KernelCaptureBinding}
use memoriesql.Capture.Fold.Source.{
  TranscriptFoldSourceRange, validate_slice, follow_ranges, fold_max_lineage_ranges,
  DurableTranscriptRead,
}

abbrev pub envelope_max_bytes : ℕ
envelope_max_bytes = 1048576

pub data TranscriptFoldOutcomeKind : Type 0 where
  exact_turn_kind transcript_span_kind policy_disposition_kind : TranscriptFoldOutcomeKind

-- ScopeExclusionReason of source_adapter.py
pub data ScopeExclusionReason : Type 0 where
  off_date missing_source_time cross_midnight : ScopeExclusionReason

-- `ConversationEventEnvelope.model_validate_json`, `canonical_bytes.decode()` and `canonical_hash`
-- of contracts.py.
pub record Envelopes (E : Type 0) : Type 0 where
  pub parse : String → Result E
  pub canonical_text : E → String
  pub canonical_hash : E → String

pub record ExactTurnFoldEvidence : Type 0 where
  pub envelope_canonical_json : String
  pub envelope_sha256 : String

unfoldable pub validate_exact_turn :
    {E : Type 0} → Envelopes E → ExactTurnFoldEvidence → Result (Unit {0})
validate_exact_turn envelopes e = do
  check (
      field (has_length 2 envelope_max_bytes e.envelope_canonical_json) "envelope_canonical_json"
      ∷ field (is_sha256 e.envelope_sha256) "envelope_sha256"
      ∷ [])
  envelope ← envelopes.parse e.envelope_canonical_json
  check (
      require (envelopes.canonical_text envelope == e.envelope_canonical_json)
        "exact-turn fold result must remain canonical"
      ∷ require (envelopes.canonical_hash envelope == e.envelope_sha256)
          "exact-turn fold hash must bind its canonical bytes"
      ∷ [])

pub record TranscriptSpanEvidence : Type 0 where
  pub source_object_id : Uuid
  pub source_revision_key : String
  pub file_identity_key : String
  pub byte_start : ℕ
  pub byte_end_exclusive : ℕ
  pub start_record_index : ℕ
  pub end_record_index : ℕ
  pub source_bytes_sha256 : String

unfoldable pub validate_span : TranscriptSpanEvidence → Result (Unit {0})
validate_span s = check (
    field (has_length 1 512 s.source_revision_key) "source_revision_key"
    ∷ field (has_length 1 256 s.file_identity_key) "file_identity_key"
    ∷ field (leb 1 s.byte_end_exclusive) "byte_end_exclusive"
    ∷ field (leb 1 s.end_record_index) "end_record_index"
    ∷ field (is_sha256 s.source_bytes_sha256) "source_bytes_sha256"
    ∷ require (ltb s.byte_start s.byte_end_exclusive) "transcript span bytes must be non-empty"
    ∷ require (ltb s.start_record_index s.end_record_index)
        "transcript span records must be non-empty"
    ∷ [])

pub record TranscriptPolicyDisposition : Type 0 where
  pub disposition_code : String
  pub scope_reason : Option ScopeExclusionReason

unfoldable pub validate_disposition : TranscriptPolicyDisposition → Result (Unit {0})
validate_disposition d = check (field (is_key d.disposition_code) "disposition_code" ∷ [])

pub record TranscriptFoldOutcome : Type 0 where
  pub outcome_kind : TranscriptFoldOutcomeKind
  pub byte_start : ℕ
  pub byte_end_exclusive : ℕ
  pub start_record_index : ℕ
  pub end_record_index : ℕ
  pub source_bytes_sha256 : String
  pub lineage : List TranscriptFoldSourceRange
  pub exact_turn : Option ExactTurnFoldEvidence
  pub transcript_span : Option TranscriptSpanEvidence
  pub policy_disposition : Option TranscriptPolicyDisposition

-- A nested model that is there is valid.
abbrev pub present : {A : Type 0} → (A → Result (Unit {0})) → Option A → Result (Unit {0})
present validate none = ok tt
present validate (some a) = validate a

abbrev pub count_of : {A : Type 0} → Option A → ℕ
count_of none = 0
count_of (some _) = 1

abbrev pub is_policy : TranscriptFoldOutcomeKind → Bool
is_policy policy_disposition_kind = true
is_policy _ = false

abbrev pub is_exact : TranscriptFoldOutcomeKind → Bool
is_exact exact_turn_kind = true
is_exact _ = false

-- `expected_detail is not None`, for the kind of the outcome
unfoldable pub has_detail : TranscriptFoldOutcomeKind → TranscriptFoldOutcome → Bool
has_detail exact_turn_kind o = is_some o.exact_turn
has_detail transcript_span_kind o = is_some o.transcript_span
has_detail policy_disposition_kind o = is_some o.policy_disposition

unfoldable pub span_binds : TranscriptFoldOutcome → Option TranscriptSpanEvidence → Bool
span_binds o none = true
span_binds o (some span) =
    span.byte_start == o.byte_start
    && (span.byte_end_exclusive == o.byte_end_exclusive
        && (span.start_record_index == o.start_record_index
            && (span.end_record_index == o.end_record_index
                && span.source_bytes_sha256 == o.source_bytes_sha256)))

unfoldable pub outcome_shape : TranscriptFoldOutcome → Result (Unit {0})
unfolding has_detail
outcome_shape o = check (
    field (leb 1 o.byte_end_exclusive) "byte_end_exclusive"
    ∷ field (is_sha256 o.source_bytes_sha256) "source_bytes_sha256"
    ∷ field (leb 1 (length o.lineage) && leb (length o.lineage) fold_max_lineage_ranges) "lineage"
    ∷ require (ltb o.byte_start o.byte_end_exclusive) "fold outcome bytes must be non-empty"
    ∷ require (leb o.start_record_index o.end_record_index) "fold outcome record range is invalid"
    ∷ require
        (count_of o.exact_turn + count_of o.transcript_span + count_of o.policy_disposition == 1)
        "fold outcome requires exactly one typed result"
    ∷ require (has_detail o.outcome_kind o) "fold outcome kind must match its typed result"
    ∷ require (is_policy o.outcome_kind || ltb o.start_record_index o.end_record_index)
        "exact turns and transcript spans require records"
    ∷ [])

unfoldable pub outcome_cover : TranscriptFoldOutcome → ℕ → Result (Unit {0})
unfolding span_binds
outcome_cover o expected_offset = check (
    require (expected_offset == o.byte_end_exclusive)
      "fold outcome lineage must cover its exact bytes"
    ∷ require (span_binds o o.transcript_span) "transcript span must bind its fold outcome"
    ∷ [])

module _ {E : Type 0} (envelopes : Envelopes E) where
  unfoldable pub validate_outcome : TranscriptFoldOutcome → Result (Unit {0})
  unfolding validate_exact_turn validate_span validate_disposition outcome_shape outcome_cover
  validate_outcome o = do
    check_each validate_slice o.lineage
    present (validate_exact_turn envelopes) o.exact_turn
    present validate_span o.transcript_span
    present validate_disposition o.policy_disposition
    outcome_shape o
    expected_offset ←
        follow_ranges "fold outcome lineage must be byte contiguous" o.byte_start o.lineage
    outcome_cover o expected_offset

-- The outcome of records with unknown topology, as it is handed to its validator.
unfoldable pub span_outcome :
    KernelCaptureBinding
    → String
    → String
    → ℕ
    → ℕ
    → ℕ
    → ℕ
    → DurableTranscriptRead
    → TranscriptFoldOutcome
span_outcome binding source_revision_key file_identity_key byte_start byte_end start_record
      end_record source_read =
    record {
      outcome_kind = transcript_span_kind;
      byte_start = byte_start;
      byte_end_exclusive = byte_end;
      start_record_index = start_record;
      end_record_index = end_record;
      source_bytes_sha256 = source_read.payload_sha256;
      lineage = source_read.ranges;
      exact_turn = none;
      transcript_span = some (record {
        source_object_id = binding.source_object_id;
        source_revision_key = source_revision_key;
        file_identity_key = file_identity_key;
        byte_start = byte_start;
        byte_end_exclusive = byte_end;
        start_record_index = start_record;
        end_record_index = end_record;
        source_bytes_sha256 = source_read.payload_sha256;
      });
      policy_disposition = none;
    }

unfoldable pub policy_outcome :
    ℕ
    → ℕ
    → ℕ
    → ℕ
    → DurableTranscriptRead
    → String
    → Option ScopeExclusionReason
    → TranscriptFoldOutcome
policy_outcome byte_start byte_end start_record end_record source_read code scope_reason = record {
  outcome_kind = policy_disposition_kind;
  byte_start = byte_start;
  byte_end_exclusive = byte_end;
  start_record_index = start_record;
  end_record_index = end_record;
  source_bytes_sha256 = source_read.payload_sha256;
  lineage = source_read.ranges;
  exact_turn = none;
  transcript_span = none;
  policy_disposition = some (record { disposition_code = code; scope_reason = scope_reason });
}
