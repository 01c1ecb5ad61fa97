-- ===== src/Capture/Fold/ExactRead.antt =====
-- `_read_exact` gives exactly the asked bytes, with a lineage that covers them.
use memoriesql.Prelude.{
  ℕ, ◌-◌, ◌≤◌, ◌<◌, ◌≡◌, refl, sym, ap, subst, ◌∙◌, inl, inr, String, false, ◌&&◌, List, [], ◌∷◌,
  length, take, leb, nat_eq, ◌==◌, ok, check, require, check-ok, Holds-ok, >>-eq-ok, >>=-eq-ok,
  ok->>, ◌&◌, arith, tests, Bool-cases, is_empty, length-take, take-length, eq→eqb, eq→beq, lt→ltb,
  Option, string_eq,
}
use memoriesql.Contracts.Hex.{IsBytes, from_hex-hex, is_hex_text-hex, from_hex-IsBytes}
use memoriesql.Contracts.Runtime.{Runtime}
use memoriesql.Capture.Range.Command.{check_each}
use memoriesql.Capture.Range.Chunks.{take-IsBytes}
use memoriesql.Capture.Fold.Source.{
  data_status, TranscriptFoldSourceRange, validate_slice, follow_ranges, DurableTranscriptRead,
  read_payload, read_fields, read_bounds, data_read_checks, validate_durable_read, status_checks,
  is_data_status, DurableTranscriptReadRequest, validate_read_request,
}
use memoriesql.Contracts.Exec.{Exec, ok->>=, lift-ok->>=, lift-ok}
use memoriesql.Capture.Fold.Exact.{
  FoldSource, read_request_of, read_exact, trimmed, exactly, slice_lineage,
}
use memoriesql.Capture.Fold.Sliced.{Slices, slice_lineage-Slices}

not_empty : (xs : List ℕ) → 0 < length xs → is_empty xs ≡ false
not_empty [] h = absurd (omega arith)
not_empty (x ∷ xs) h = refl

-- A lineage that gets further has ranges.
pub follow_ranges-not_empty :
    (gap : String) (from to : ℕ) (ranges : List TranscriptFoldSourceRange)
    → follow_ranges gap from ranges ≡ ok to
    → from < to
    → is_empty ranges ≡ false
unfolding follow_ranges
follow_ranges-not_empty gap from to [] h order = absurd (ground (arith, h, order))
follow_ranges-not_empty gap from to (r ∷ ranges) h order = refl

module _ (py : Runtime) where
  -- The parts of a validated read with data.
  pub record IsDataRead (r : DurableTranscriptRead) : Type 0 where
    pub slices : check_each validate_slice r.ranges ≡ ok tt
    pub fields : read_fields r ≡ ok tt
    pub bounds : read_bounds py r ≡ ok tt
    pub covered : data_read_checks r ≡ ok tt

  pub valid-IsDataRead :
      (r : DurableTranscriptRead)
      → validate_durable_read py r ≡ ok tt
      → r.status ≡ data_status
      → IsDataRead r
  unfolding validate_durable_read
  valid-IsDataRead r h with_data =
      let (slices, h1) = >>-eq-ok (check_each validate_slice r.ranges) _ h in
      let (fields, h2) = >>-eq-ok (read_fields r) _ h1 in
      let (bounds, h3) = >>-eq-ok (read_bounds py r) _ h2 in
      record {
        slices = slices;
        fields = fields;
        bounds = bounds;
        covered = subst (λ s. status_checks s r ≡ ok tt) with_data h3;
      }

  -- The lineage of a read with data covers its bytes.
  pub data_read_checks-follows :
      (r : DurableTranscriptRead)
      → data_read_checks r ≡ ok tt
      → follow_ranges "durable fold lineage must be byte contiguous" r.byte_start r.ranges
        ≡ ok r.byte_end_exclusive
  unfolding data_read_checks
  data_read_checks-follows r h =
      let (_, h1) = >>-eq-ok (check _) _ h in
      let (last, follow, h2) = >>=-eq-ok (follow_ranges _ r.byte_start r.ranges) _ h1 in
      let (stop, _) = check-ok _ h2 in follow ∙ ap ok (omega (tests, stop))

  module _ (read : DurableTranscriptRead) (byte_start byte_end : ℕ)
      (valid : validate_durable_read py read ≡ ok tt) (with_data : read.status ≡ data_status)
      (starts : read.byte_start ≡ byte_start) (order : byte_start < byte_end)
      (reach : byte_end ≤ read.byte_end_exclusive) where
    parts : IsDataRead read
    parts = valid-IsDataRead read valid with_data

    slices :
        Slices py
          (read_payload read)
          read.byte_start
          "durable fold lineage must be byte contiguous"
          byte_start
          byte_end
          read.byte_start
          read.byte_end_exclusive
          (length read.ranges)
          (slice_lineage py read.ranges (read_payload read) read.byte_start byte_start byte_end)
    slices =
        slice_lineage-Slices py (read_payload read) read.byte_start _ byte_start byte_end
          read.byte_start read.byte_end_exclusive read.ranges (omega arith) parts.slices
          (data_read_checks-follows read parts.covered)

    prefix-IsBytes : IsBytes (take (byte_end - byte_start) (read_payload read))
    unfolding read_payload read_fields
    prefix-IsBytes =
        let (_, (_, (_, (_, (_, (_, (hex_text, _))))))) = check-ok _ parts.fields in
        take-IsBytes _ _ (from_hex-IsBytes read.payload_hex hex_text)

    -- The bytes asked for are the first ones of the read.
    trimmed-payload :
        read_payload (trimmed py read byte_start byte_end)
        ≡ take (byte_end - byte_start) (read_payload read)
    unfolding read_payload trimmed
    trimmed-payload = from_hex-hex _ prefix-IsBytes

    taken : length (take (byte_end - byte_start) (read_payload read)) ≡ byte_end - byte_start
    unfolding read_bounds
    taken =
        let (forward, (_, (measured, _))) = check-ok _ parts.bounds in
        ground (
          arith,
          starts,
          order,
          reach,
          measured,
          length-take (byte_end - byte_start) (read_payload read),
        )

    trimmed-follows :
        follow_ranges "durable fold lineage must be byte contiguous" byte_start
          (slice_lineage py read.ranges (read_payload read) read.byte_start byte_start byte_end)
        ≡ ok byte_end
    trimmed-follows =
        ap
          (λ o.
            follow_ranges "durable fold lineage must be byte contiguous" o (
              slice_lineage py read.ranges (read_payload read) read.byte_start byte_start byte_end))
          (omega (arith, starts, order, reach))
        ∙ (slices.follows ∙ ap ok (omega (arith, starts, order, reach)))

    trimmed-fields : read_fields (trimmed py read byte_start byte_end) ≡ ok tt
    unfolding read_fields trimmed
    trimmed-fields =
        let (revision, (file, (key, (connector, (version, (format, (_, (_, (many, _))))))))) =
          check-ok _ parts.fields in
        Holds-ok _ (
          revision
          & file
          & key
          & connector
          & version
          & format
          & (is_hex_text-hex _ prefix-IsBytes)
          & (py.sha256_form _)
          & (ground (arith, many, slices.few))
          & tt)

    trimmed-bounds : read_bounds py (trimmed py read byte_start byte_end) ≡ ok tt
    unfolding read_bounds trimmed
    trimmed-bounds =
        let (_, (within, _)) = check-ok _ parts.bounds in
        Holds-ok _ (
          (ground (arith, order))
          & (ground (arith, within, reach))
          & (eq→eqb _ _ (ap length trimmed-payload ∙ taken))
          & (eq→beq {A = String} _ _ (ap py.sha256 trimmed-payload))
          & tt)

    trimmed-covered : data_read_checks (trimmed py read byte_start byte_end) ≡ ok tt
    unfolding data_read_checks trimmed
    trimmed-covered =
        let (present, _) = >>-eq-ok (check _) _ parts.covered in
        let (complete, (aware, _)) = check-ok _ present in
        ok->> _ _ (
          Holds-ok _ (
            (rw
              (not_empty (read_payload (trimmed py read byte_start byte_end))
                (omega (arith, ap length trimmed-payload, taken, order)))
              (rw (follow_ranges-not_empty _ byte_start byte_end _ trimmed-follows order)
                (ground (arith, complete))))
            & aware
            & tt))
        ∙ rw trimmed-follows (Holds-ok _ ((eq→eqb byte_end byte_end refl) & tt))

    trimmed-IsValid : validate_durable_read py (trimmed py read byte_start byte_end) ≡ ok tt
    unfolding validate_durable_read trimmed
    trimmed-IsValid =
        ok->> _ _ slices.valid
        ∙ (ok->> _ _ trimmed-fields ∙ (ok->> _ _ trimmed-bounds ∙ trimmed-covered))

  -- A read of exactly the bytes from `byte_start` to `byte_end` of what `read` returned.
  pub record Exactly (read : DurableTranscriptRead) (byte_start byte_end : ℕ)
      (r : DurableTranscriptRead) : Type 0 where
    pub valid : validate_durable_read py r ≡ ok tt
    pub has_data : r.status ≡ data_status
    pub start : r.byte_start ≡ byte_start
    pub stop : r.byte_end_exclusive ≡ byte_end
    pub bytes : read_payload r ≡ take (byte_end - byte_start) (read_payload read)

  read-length :
      (read : DurableTranscriptRead)
      → validate_durable_read py read ≡ ok tt
      → read.status ≡ data_status
      → length (read_payload read) ≡ read.byte_end_exclusive - read.byte_start
  unfolding read_bounds
  read-length read valid with_data =
      let (_, (_, (measured, _))) = check-ok _ (valid-IsDataRead read valid with_data).bounds in
      omega (tests, measured)

  exactly-Exactly :
      (read : DurableTranscriptRead) (byte_start byte_end : ℕ)
      → validate_durable_read py read ≡ ok tt
      → read.status ≡ data_status
      → read.byte_start ≡ byte_start
      → byte_start < byte_end
      → byte_end ≤ read.byte_end_exclusive
      → (r : DurableTranscriptRead) × (exactly py read byte_start byte_end ≡ ok r)
        × Exactly read byte_start byte_end r
  unfolding exactly
  exactly-Exactly read byte_start byte_end valid with_data starts order reach =
      elim (Bool-cases (read.byte_end_exclusive == byte_end)) [
        | inl same ↦ rw same (
          read,
          refl,
          record {
            valid = valid;
            has_data = with_data;
            start = starts;
            stop = omega (tests, same);
            bytes =
                sym
                  (take-length _ _ (omega (tests, same, starts, read-length read valid with_data)));
          },
        )
        | inr further ↦ rw further (
          trimmed py read byte_start byte_end,
          ok->> _ _ (trimmed-IsValid read byte_start byte_end valid with_data starts order reach),
          record {
            valid = trimmed-IsValid read byte_start byte_end valid with_data starts order reach;
            has_data = unfold trimmed in refl;
            start = unfold trimmed in refl;
            stop = unfold trimmed in refl;
            bytes = trimmed-payload read byte_start byte_end valid with_data starts order reach;
          },
        )
      ]

  module _ {W : Type 0} (port_read : DurableTranscriptReadRequest → Exec W DurableTranscriptRead)
      (self : FoldSource) where
    -- If the port answers the request with a valid read of data that starts where asked and reaches as
    -- far as asked, `_read_exact` returns a valid read of exactly the asked bytes, and calls no other
    -- port.
    pub read_exact-Exactly :
        (byte_start byte_end : ℕ) (max_bytes : Option ℕ) (w w' : W) (read : DurableTranscriptRead)
        → byte_start < byte_end
        → validate_read_request (read_request_of self byte_start byte_end max_bytes) ≡ ok tt
        → port_read (read_request_of self byte_start byte_end max_bytes) w ≡ (ok read, w')
        → validate_durable_read py read ≡ ok tt
        → read.status ≡ data_status
        → read.byte_start ≡ byte_start
        → byte_end ≤ read.byte_end_exclusive
        → (r : DurableTranscriptRead) × (read_exact py port_read self byte_start byte_end max_bytes
              w
            ≡ (ok r, w'))
          × Exactly read byte_start byte_end r
    unfolding read_exact
    read_exact-Exactly byte_start byte_end max_bytes w w' read order admissible answer valid
          with_data starts reach =
        let (r, cut, exact) =
          exactly-Exactly read byte_start byte_end valid with_data starts order reach in
        let covers : check (
              require
                (is_data_status read.status
                  && (read.byte_start == byte_start && leb byte_end read.byte_end_exclusive))
                "durable source ranges do not cover the fold result"
              ∷ [])
            ≡ ok tt =
          Holds-ok _ (rw (ap is_data_status with_data) (ground (arith, starts, reach)) & tt) in
        (
          r,
          lift-ok->>= _ _ (Holds-ok _ ((lt→ltb byte_start byte_end order) & tt))
              ∙ (lift-ok->>= _ _ admissible
                  ∙ (ok->>= _ _ answer ∙ (lift-ok->>= _ _ covers ∙ lift-ok _ cut))),
          exact,
        )
