-- ===== src/Capture/Fold/Span.antt =====
-- An exact read makes a valid outcome.
use memoriesql.Prelude.{
  ℕ, ◌≤◌, ◌<◌, ◌≡◌, refl, ap, ◌∙◌, String, true, false, List, [], ◌∷◌, length, is_empty, ok,
  check-ok, Holds-ok, ok->>, ◌&◌, arith, eq→eqb, lt→ltb, string_eq, nat_eq, string_refl,
}
use memoriesql.Contracts.Text.{has_length}
use memoriesql.Contracts.Runtime.{Runtime}
use memoriesql.Capture.Range.Command.{KernelCaptureBinding}
use memoriesql.Capture.Fold.Source.{
  DurableTranscriptRead, data_status, validate_durable_read, TranscriptFoldSourceRange,
  follow_ranges, read_fields,
}
use memoriesql.Capture.Fold.ExactRead.{
  valid-IsDataRead, data_read_checks-follows, follow_ranges-not_empty,
}
use memoriesql.Capture.Fold.Outcome.{
  Envelopes, validate_outcome, span_outcome, outcome_shape, outcome_cover, validate_span,
  span_binds, has_detail,
}

-- The error of a gap does not matter where there is none.
follow_ranges-gap :
    (gap gap' : String) (from to : ℕ) (slices : List TranscriptFoldSourceRange)
    → follow_ranges gap from slices ≡ ok to
    → follow_ranges gap' from slices ≡ ok to
unfolding follow_ranges
follow_ranges-gap gap gap' from to [] h = h
follow_ranges-gap gap gap' from to (s ∷ slices) h =
    ground (arith, h, follow_ranges-gap gap gap' s.byte_end_exclusive to slices)

not_empty : (slices : List TranscriptFoldSourceRange) → is_empty slices ≡ false → 1 ≤ length slices
not_empty [] h = cc
not_empty (s ∷ slices) h = omega arith

module _ (py : Runtime) {E : Type 0} (envelopes : Envelopes E) (read : DurableTranscriptRead)
    (byte_start byte_end start_record end_record : ℕ)
    (valid : validate_durable_read py read ≡ ok tt) (with_data : read.status ≡ data_status)
    (starts : read.byte_start ≡ byte_start) (stops : read.byte_end_exclusive ≡ byte_end)
    (order : byte_start < byte_end) where
  lineage-follows :
      follow_ranges "fold outcome lineage must be byte contiguous" byte_start read.ranges
      ≡ ok byte_end
  lineage-follows =
      follow_ranges-gap "durable fold lineage must be byte contiguous" _ byte_start byte_end
        read.ranges
        (ap (λ o. follow_ranges "durable fold lineage must be byte contiguous" o read.ranges)
            (omega (arith, starts))
          ∙ (data_read_checks-follows py read (valid-IsDataRead py read valid with_data).covered
              ∙ ap ok stops))

  some_ranges : 1 ≤ length read.ranges
  some_ranges =
      not_empty read.ranges
        (follow_ranges-not_empty _ byte_start byte_end read.ranges lineage-follows order)

  -- Complete records read exactly, at least one of them, make a valid transcript span.
  pub span_outcome-IsValid :
      (binding : KernelCaptureBinding) (source_revision_key file_identity_key : String)
      → has_length 1 512 source_revision_key ≡ true
      → has_length 1 256 file_identity_key ≡ true
      → start_record < end_record
      → validate_outcome envelopes (
          span_outcome binding source_revision_key file_identity_key byte_start byte_end
            start_record end_record read)
        ≡ ok tt
  unfolding validate_outcome span_outcome outcome_shape outcome_cover validate_span read_fields
      span_binds has_detail
  span_outcome-IsValid binding source_revision_key file_identity_key revision key records =
      let parts = valid-IsDataRead py read valid with_data in
      let (_, (_, (_, (_, (_, (_, (_, (hash, (many, _))))))))) = check-ok _ parts.fields in
      ok->> _ _ parts.slices
      ∙ (ok->> _ _ (
            Holds-ok _ (
              revision
              & key
              & (ground (arith, order))
              & (ground (arith, records))
              & hash
              & (lt→ltb _ _ order)
              & (lt→ltb _ _ records)
              & tt))
          ∙ (ok->> _ _ (
                Holds-ok _ (
                  (ground (arith, order))
                  & hash
                  & (ground (arith, some_ranges, many))
                  & (lt→ltb _ _ order)
                  & (ground (arith, records))
                  & refl
                  & refl
                  & (lt→ltb _ _ records)
                  & tt))
              ∙ rw lineage-follows (
                  Holds-ok _
                    ((eq→eqb _ _ refl) & (ground (arith, string_refl read.payload_sha256)) & tt))))
