-- ===== src/Capture/Fold/Records.antt =====
-- The loop over the framed records in `DurableTranscriptFoldLoop.run_once` of transcript_fold.py:
-- the adapter finalizes turns, each of which becomes an outcome.
use memoriesql.Prelude.{
  ℕ, ◌+◌, ◌-◌, String, Bool, true, false, Option, none, some, List, [], ◌∷◌, ◌++◌, length, ltb, eqb,
  Result, ok, if◌then◌else◌, ◌>>=◌ as and_then,
}
use memoriesql.Contracts.Runtime.{Runtime}
use memoriesql.Contracts.Exec.{Exec, pure, raise, lift, ◌>>=◌, ◌>>◌}
use memoriesql.Capture.Host.{Datetime, FileIdentity}
use memoriesql.Capture.Fold.Frame.{FramedSourceRecord}
use memoriesql.Capture.Fold.Source.{DurableTranscriptReadRequest, DurableTranscriptRead}
use memoriesql.Capture.Fold.Exact.{FoldSource, read_exact}
use memoriesql.Capture.Fold.Outcome.{
  Envelopes, TranscriptFoldOutcomeKind, transcript_span_kind, policy_disposition_kind,
  exact_turn_kind, ScopeExclusionReason, TranscriptFoldOutcome, policy_outcome, validate_outcome,
}
use memoriesql.Capture.Fold.Command.{fold_max_outcomes}
use memoriesql.Capture.Fold.Cursor.{max_state_bytes}
use memoriesql.Capture.Fold.Adapter.{
  VerifiedAssemblySpan, validate_assembly_span, Advance, stepped, unparsed, failed,
  QualifiedTranscriptFoldAdapter,
}

-- Why the records left over become one outcome: `fallback_code` and `fallback_kind`.
pub record Fallback : Type 0 where
  pub code : String
  pub kind : TranscriptFoldOutcomeKind

-- The local variables of the loop.
pub record Assembly : Type 0 where
  pub outcomes : List TranscriptFoldOutcome
  pub assembly_state : List ℕ
  pub outcome_start_offset : ℕ
  pub outcome_start_record : ℕ
  pub pending_records_start : ℕ
  pub consumed_record_count : ℕ
  pub fallback : Option Fallback
  pub outcome_limit_reached : Bool

-- f"fold.scope-{reason}"
unfoldable pub scope_code : ScopeExclusionReason → String
scope_code ScopeExclusionReason.off_date = "fold.scope-off_date"
scope_code ScopeExclusionReason.missing_source_time = "fold.scope-missing_source_time"
scope_code ScopeExclusionReason.cross_midnight = "fold.scope-cross_midnight"

-- A `break` that leaves the records from `index` on to a fallback.
unfoldable pub fall_back : Assembly → ℕ → String → TranscriptFoldOutcomeKind → Assembly
fall_back a index code kind = record a {
  fallback = some (record { code = code; kind = kind });
  pending_records_start = index;
}

-- The `break` at the outcome limit.
unfoldable pub reach_limit : Assembly → ℕ → Assembly
reach_limit a index = record a { pending_records_start = index; outcome_limit_reached = true }

-- The assembler took the record at `index`.
unfoldable pub consume : Assembly → ℕ → List ℕ → Assembly
consume a index state = record a { assembly_state = state; consumed_record_count = index + 1 }

-- A turn ended with the record at `index`.
unfoldable pub finish_turn : Assembly → ℕ → FramedSourceRecord → TranscriptFoldOutcome → Assembly
finish_turn a index r outcome = record a {
  outcomes = a.outcomes ++ (outcome ∷ []);
  outcome_start_offset = r.end_offset;
  outcome_start_record = r.record_index + 1;
  pending_records_start = index + 1;
}

abbrev pub or_time : Option Datetime → Datetime → Datetime
or_time none t = t
or_time (some first) t = first

unfoldable pub exact_outcome :
    Assembly → FramedSourceRecord → DurableTranscriptRead → String → String → TranscriptFoldOutcome
exact_outcome a r read canonical_json sha256 = record {
  outcome_kind = exact_turn_kind;
  byte_start = a.outcome_start_offset;
  byte_end_exclusive = r.end_offset;
  start_record_index = a.outcome_start_record;
  end_record_index = r.record_index + 1;
  source_bytes_sha256 = read.payload_sha256;
  lineage = read.ranges;
  exact_turn = some (record { envelope_canonical_json = canonical_json; envelope_sha256 = sha256 });
  transcript_span = none;
  policy_disposition = none;
}

-- The differences are those of natural numbers: the validator asks for the order that makes them
-- differences of integers.
unfoldable pub assembly_span :
    Assembly → FramedSourceRecord → FileIdentity → DurableTranscriptRead → VerifiedAssemblySpan
assembly_span a r file read = record {
  file_identity = file;
  start_offset = a.outcome_start_offset;
  end_offset = r.end_offset;
  start_record_index = a.outcome_start_record;
  end_record_index = r.record_index + 1;
  byte_count = r.end_offset - a.outcome_start_offset;
  record_count = r.record_index + 1 - a.outcome_start_record;
  range_count = length read.ranges;
  source_bytes_sha256 = read.payload_sha256;
}

module _ {T E : Type 0} (adapter : QualifiedTranscriptFoldAdapter T E) where
  -- The limits on a record, in order: the code of the first that it exceeds.
  unfoldable pub exceeded : Assembly → FramedSourceRecord → Option String
  exceeded a r =
      if r.oversized
      then some "fold.record-size-limit"
      else if ltb adapter.max_turn_records (r.record_index + 1 - a.outcome_start_record)
      then some "fold.turn-record-limit"
      else if ltb adapter.max_span_bytes (r.end_offset - a.outcome_start_offset)
      then some "fold.span-byte-limit"
      else none

  abbrev pub parse_kind : String → TranscriptFoldOutcomeKind
  parse_kind code =
      if adapter.is_topology_fallback code then transcript_span_kind else policy_disposition_kind

-- After a round the loop goes on with the rest, or it is left.
unfoldable pub go_on : {W : Type 0} → Bool × Assembly → Exec W Assembly → Exec W Assembly
go_on (true, a) rest = rest
go_on (false, a) rest = pure a

module _ (py : Runtime) {T E : Type 0} (envelopes : Envelopes E)
    (adapter : QualifiedTranscriptFoldAdapter T E) {W : Type 0}
    (port_read : DurableTranscriptReadRequest → Exec W DurableTranscriptRead) (self : FoldSource)
    (file : FileIdentity) (recorded_at : Datetime) where
  -- The outcome of a finalized turn: a policy disposition if it is out of scope.
  unfoldable pub turn_outcome :
      Assembly
      → FramedSourceRecord
      → DurableTranscriptRead
      → T
      → Option ScopeExclusionReason
      → Result TranscriptFoldOutcome
  unfolding exact_outcome scope_code policy_outcome
  turn_outcome a r exact_read finalized (some reason) = ok (
      policy_outcome a.outcome_start_offset r.end_offset a.outcome_start_record (r.record_index + 1)
        exact_read (scope_code reason) (some reason))
  turn_outcome a r exact_read finalized none =
      and_then
        (adapter.build_exact_envelope finalized (assembly_span a r file exact_read)
          (or_time exact_read.first_captured_at recorded_at))
        (λ envelope. ok (
          exact_outcome a r exact_read (envelopes.canonical_text envelope)
            (envelopes.canonical_hash envelope)))

  -- A step that finalizes a turn.
  unfoldable pub finalize_turn : Assembly → ℕ → FramedSourceRecord → T → Exec W Assembly
  unfolding assembly_span turn_outcome finish_turn
  finalize_turn a index r finalized = do
    exact_read ← read_exact py port_read self a.outcome_start_offset r.end_offset none
    lift (validate_assembly_span (assembly_span a r file exact_read))
    outcome ← lift (turn_outcome a r exact_read finalized (adapter.scope_exclusion finalized))
    lift (validate_outcome envelopes outcome)
    pure (finish_turn a index r outcome)

  unfoldable pub finalized_step :
      Assembly → ℕ → FramedSourceRecord → Option T → Exec W (Bool × Assembly)
  unfolding finalize_turn
  finalized_step a index r none = pure (true, a)
  finalized_step a index r (some finalized) = do
    a' ← finalize_turn a index r finalized
    pure (true, a')

  -- What follows a call of the assembler: the loop goes on, or it breaks (false).
  unfoldable pub take_step :
      Assembly → ℕ → FramedSourceRecord → Advance T → Exec W (Bool × Assembly)
  unfolding fall_back consume finalized_step
  take_step a index r (failed e) = raise e
  take_step a index r (unparsed code) =
      pure (false, fall_back a index code (parse_kind adapter code))
  take_step a index r (stepped state finalized) =
      if ltb max_state_bytes (length state)
      then pure
          (false, fall_back a index "fold.continuation-state-size-limit" policy_disposition_kind)
      else finalized_step (consume a index state) index r finalized

  unfoldable pub within_limits :
      Assembly → ℕ → FramedSourceRecord → Option String → Exec W (Bool × Assembly)
  unfolding fall_back take_step
  within_limits a index r (some code) = pure (false, fall_back a index code policy_disposition_kind)
  within_limits a index r none = take_step a index r (adapter.advance r a.assembly_state)

  -- One round of the loop.
  unfoldable pub visit_record : Assembly → ℕ → FramedSourceRecord → Exec W (Bool × Assembly)
  unfolding reach_limit exceeded within_limits
  visit_record a index r =
      if eqb (length a.outcomes) fold_max_outcomes
      then pure (false, reach_limit a index)
      else within_limits a index r (exceeded adapter a r)

  unfoldable pub assemble_records : Assembly → ℕ → List FramedSourceRecord → Exec W Assembly
  unfolding visit_record go_on
  assemble_records a index [] = pure a
  assemble_records a index (r ∷ records) = do
    visited ← visit_record a index r
    go_on visited (assemble_records visited.1 (index + 1) records)
