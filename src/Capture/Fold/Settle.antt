-- ===== src/Capture/Fold/Settle.antt =====
-- The end of `DurableTranscriptFoldLoop.run_once` of transcript_fold.py: the fallback outcome, the
-- commit of the outcomes, and the cursor that is committed last.
use memoriesql.Prelude.{
  ℕ, ◌+◌, String, Bool, true, false, not, ◌&&◌, ◌||◌, Option, none, some, List, [], ◌∷◌, ◌++◌,
  length, drop, is_empty, ltb, eqb, is_some, is_none, nat_eq, string_eq, ◌==◌, if◌then◌else◌,
}
use memoriesql.Contracts.Runtime.{Runtime}
use memoriesql.Capture.Host.{Datetime, FileIdentity}
use memoriesql.Capture.Fold.Frame.{FramedSourceRecord}
use memoriesql.Capture.Fold.Source.{DurableTranscriptRead}
use memoriesql.Capture.Fold.Outcome.{
  TranscriptFoldOutcomeKind, transcript_span_kind, policy_disposition_kind, exact_turn_kind,
  TranscriptFoldOutcome, span_outcome, policy_outcome,
}
use memoriesql.Capture.Fold.Cursor.{
  HostCaptureState, CommitTranscriptFoldReceipt, TranscriptFoldPendingRange,
  TranscriptFoldCursorState,
}
use memoriesql.Capture.Fold.State.{updated_state}
use memoriesql.Capture.Fold.Sealed.{TranscriptFoldRunStatus, FoldLoop}
use memoriesql.Capture.Fold.Records.{Fallback, Assembly}

-- `records[-1]` of a first record and those after it
unfoldable pub last_record : FramedSourceRecord → List FramedSourceRecord → FramedSourceRecord
last_record r [] = r
last_record r (next ∷ records) = last_record next records

-- b"".join(item.framed_bytes for item in records)
unfoldable pub framed : List FramedSourceRecord → List ℕ
framed [] = []
framed (r ∷ records) = r.framed_bytes ++ framed records

-- `fallback_code or "fold.unsupported-record"`
abbrev pub code_or : String → String → String
code_or code default = if code == "" then default else code

-- What is known of the read when the records have been framed: `first` and `rest` are the records.
pub record Framed : Type 0 where
  pub file : FileIdentity
  pub first : FramedSourceRecord
  pub rest : List FramedSourceRecord
  pub partial_tail : List ℕ
  pub durable_end_offset : ℕ
  pub observed_source_format_version : Option String
  -- `adapter.profile_version`, or None without an adapter
  pub adapter_profile_version : Option String
  pub recorded_at : Datetime

abbrev pub records_of : Framed → List FramedSourceRecord
records_of f = f.first ∷ f.rest

abbrev pub last_in : Framed → FramedSourceRecord
last_in f = last_record f.first f.rest

-- At the sealed end of the source, records that no turn took become a span.
unfoldable pub seal_boundary : Framed → Bool → Assembly → Assembly
unfolding last_record
seal_boundary f sealed_read a =
    if is_some f.adapter_profile_version
      && (is_none a.fallback
          && (not a.outcome_limit_reached
              && (ltb a.outcome_start_offset (last_in f).end_offset && sealed_read)))
    then record a {
      fallback =
          some (record { code = "fold.sealed-evidence-boundary"; kind = transcript_span_kind });
    }
    else a

-- The outcome of a fallback of a kind: a span, or else a policy disposition.
unfoldable pub fallback_outcome :
    FoldLoop
    → Framed
    → Assembly
    → DurableTranscriptRead
    → String
    → TranscriptFoldOutcomeKind
    → TranscriptFoldOutcome
unfolding span_outcome policy_outcome last_record
fallback_outcome self f a read code transcript_span_kind =
    span_outcome self.binding self.source_revision_key self.file_identity_key a.outcome_start_offset
      (last_in f).end_offset a.outcome_start_record ((last_in f).record_index + 1) read
fallback_outcome self f a read code policy_disposition_kind =
    policy_outcome a.outcome_start_offset (last_in f).end_offset a.outcome_start_record
      ((last_in f).record_index + 1) read (code_or code "fold.unsupported-record") none
fallback_outcome self f a read code exact_turn_kind =
    policy_outcome a.outcome_start_offset (last_in f).end_offset a.outcome_start_record
      ((last_in f).record_index + 1) read (code_or code "fold.unsupported-record") none

-- The fallback takes every record that is left.
unfoldable pub take_rest : Framed → Assembly → TranscriptFoldOutcome → Assembly
unfolding last_record
take_rest f a outcome = record a {
  outcomes = a.outcomes ++ (outcome ∷ []);
  outcome_start_offset = (last_in f).end_offset;
  outcome_start_record = (last_in f).record_index + 1;
  consumed_record_count = length (records_of f);
  pending_records_start = length (records_of f);
  assembly_state = [];
}

-- The records that stay pending.
unfoldable pub remaining : Framed → Assembly → List FramedSourceRecord
remaining f a = if a.outcome_limit_reached then [] else drop a.pending_records_start (records_of f)

-- `receipt is not None` and whether records are pending choose the status.
unfoldable pub run_status :
    TranscriptFoldCursorState → Option CommitTranscriptFoldReceipt → TranscriptFoldRunStatus
run_status s (some receipt) = TranscriptFoldRunStatus.folded
run_status s none =
    if is_empty s.pending_ranges
    then TranscriptFoldRunStatus.waiting_for_complete_record
    else TranscriptFoldRunStatus.waiting_for_exact_turn

abbrev pub tail_of : Framed → Assembly → List ℕ
tail_of f a = if a.outcome_limit_reached then [] else f.partial_tail

abbrev pub waiting_state : Bool → HostCaptureState
waiting_state true = HostCaptureState.waiting_for_complete_record
waiting_state false = HostCaptureState.healthy

abbrev pub diagnostic : Option Fallback → Option String
diagnostic none = none
diagnostic (some fallback) = some fallback.code

module _ (py : Runtime) where
  unfoldable pub pending_range :
      FramedSourceRecord → List FramedSourceRecord → TranscriptFoldPendingRange
  unfolding last_record framed
  pending_range first rest = record {
    byte_start = first.start_offset;
    byte_end_exclusive = (last_record first rest).end_offset;
    start_record_index = first.record_index;
    end_record_index = (last_record first rest).record_index + 1;
    source_bytes_sha256 = py.sha256 (framed (first ∷ rest));
  }

  -- Without outcomes the pending ranges of the cursor stay.
  unfoldable pub pending_of :
      List FramedSourceRecord
      → List TranscriptFoldOutcome
      → TranscriptFoldCursorState
      → List TranscriptFoldPendingRange
  unfolding pending_range
  pending_of (first ∷ rest) outcomes s = pending_range first rest ∷ []
  pending_of [] [] s = s.pending_ranges
  pending_of [] (_ ∷ _) s = []

  unfoldable pub pending_ranges :
      Framed → Assembly → TranscriptFoldCursorState → List TranscriptFoldPendingRange
  unfolding remaining pending_of
  pending_ranges f a s =
      if is_empty a.outcomes
        && (is_some f.adapter_profile_version
            && eqb a.consumed_record_count (length (records_of f)))
      then s.pending_ranges ++ (pending_range f.first f.rest ∷ [])
      else pending_of (remaining f a) a.outcomes s

  -- `final_state`, made of the cursor `s` at the start and `next`, the one acknowledged.
  unfoldable pub final_state :
      Framed
      → Assembly
      → TranscriptFoldCursorState
      → TranscriptFoldCursorState
      → Bool
      → TranscriptFoldCursorState
  unfolding pending_ranges updated_state
  final_state f a s next acknowledged =
      let pending = pending_ranges f a s in
      let tail = tail_of f a in
      updated_state py next f.file pending
        (if is_some f.adapter_profile_version then a.assembly_state else []) tail
        (waiting_state (not (is_empty pending) || not (is_empty tail))) f.durable_end_offset
        (diagnostic a.fallback) acknowledged
