-- ===== src/Capture/Range/Built.antt =====
-- The builder of source_range.py never trips over its own validators.
use memoriesql.Prelude.{
  ℕ, zero, suc, ◌+◌, ◌*◌, ◌≤◌, ◌<◌, ◌≡◌, refl, ap, ◌∙◌, String, true, ◌&&◌, List, [], ◌∷◌, length,
  take, drop, length-take, ok, check, require, arith, nat_eq, string_eq, leb, le→leb, eq→eqb,
  eq→beq, string_refl, ◌&◌, Holds-ok, ok->>, ◌↔◌, >>-eq-ok, >>=-eq-ok, check-ok, tests,
}
use memoriesql.Contracts.Text.{has_length, is_key, optional, has_length-prefixed}
use memoriesql.Contracts.Hex.{IsBytes, from_hex-hex, is_hex_text-hex, length-hex}
use memoriesql.Contracts.Runtime.{Runtime, Json, canonical_sha256-form}
use memoriesql.Capture.Host.{is_file_identity, stable_key}
use memoriesql.Capture.Range.Command.{
  CapturedSourceRangeChunk, CaptureSourceRangeCommand, payload, byte_sum, follow_chunks,
  validate_chunk, check_each, chunk_max_bytes, checkpoint_sha256, transaction_max_bytes,
  transaction_max_chunks, validate_checkpoint, validate_command, command_fields, range_bounds,
  range_cover, canonical_bytes, command_max_bytes,
}
use memoriesql.Capture.Range.Build.{
  RangeArguments, chunk_of, split_chunks, checkpoint_of, assemble,
  build_capture_source_range_command,
}
use memoriesql.Capture.Range.Sound.{build-eq-ok}
use memoriesql.Capture.Range.Chunks.{
  follow_chunks-split_chunks, byte_sum-split_chunks, length-split_chunks, payloads-split_chunks,
  take-IsBytes, drop-IsBytes, left_fits,
}

module _ (py : Runtime) where
  chunk_of-IsValid :
      (ordinal start : ℕ) (bytes : List ℕ)
      → IsBytes bytes
      → 1 ≤ length bytes
      → length bytes ≤ chunk_max_bytes
      → ordinal < transaction_max_chunks
      → validate_chunk py (chunk_of py ordinal start bytes) ≡ ok tt
  unfolding validate_chunk chunk_of payload
  chunk_of-IsValid ordinal start bytes v low high o = Holds-ok _ (
      (ground arith)
      & (ground arith)
      & (ground arith)
      & (py.sha256_form bytes)
      & (ground (arith, length-hex bytes))
      & (is_hex_text-hex bytes v)
      & (ground arith)
      & (ground arith)
      & (eq→eqb _ _ (ap length (from_hex-hex bytes v)))
      & (eq→beq _ _ (ap py.sha256 (from_hex-hex bytes v)))
      & tt)

  module _ (size : ℕ) (pos : 0 < size) (fits : size ≤ chunk_max_bytes) where
    -- Every chunk of a payload of at most `transaction_max_chunks` chunks is valid.
    split_chunks-AllValid :
        (rounds ordinal start : ℕ) (bytes : List ℕ)
        → IsBytes bytes
        → length bytes ≤ rounds
        → ordinal + length (split_chunks py rounds size ordinal start bytes)
          ≤ transaction_max_chunks
        → check_each (validate_chunk py) (split_chunks py rounds size ordinal start bytes) ≡ ok tt
    unfolding check_each split_chunks
    split_chunks-AllValid zero ordinal start bytes v h n = refl
    split_chunks-AllValid (suc rounds) ordinal start [] v h n = refl
    split_chunks-AllValid (suc rounds) ordinal start (b ∷ bytes) v h n =
        rw
          (chunk_of-IsValid ordinal start (take size (b ∷ bytes)) (take-IsBytes size (b ∷ bytes) v)
            (omega (arith, length-take size (b ∷ bytes)))
            (omega (arith, length-take size (b ∷ bytes))) (omega arith))
          (split_chunks-AllValid rounds (ordinal + 1) (start + size) (drop size (b ∷ bytes))
            (drop-IsBytes size (b ∷ bytes) v) (left_fits py size pos rounds b bytes (omega arith))
            (omega arith))

-- What the caller has to get right: keys, lengths and the file identity, as the contract fields
-- state them.
pub record IsValidArguments (a : RangeArguments) : Type 0 where
  pub schema_version : leb 1 a.binding.expected_source_object_schema_version ≡ true
  pub capability_key : is_key a.capability_id ≡ true
  pub connector_key : is_key a.connector_id ≡ true
  pub connector_version : optional (has_length 1 128) a.observed_connector_version ≡ true
  pub revision_key : has_length 1 512 a.source_revision_key ≡ true
  pub file : is_file_identity a.file_identity ≡ true
  pub file_key : has_length 1 256 (stable_key a.file_identity) ≡ true
  pub format_version : optional (has_length 1 128) a.observed_source_format_version ≡ true
  pub checkpoint_key : is_key a.checkpoint_key ≡ true
  pub policy_key : is_key a.policies.capture_policy_id ≡ true
  pub retention : has_length 1 256 a.policies.retention_policy_ref ≡ true

at_most :
    (n size m : ℕ)
    → 1 ≤ size
    → m ≤ transaction_max_chunks * size
    → n * size < m + size
    → n ≤ transaction_max_chunks
at_most n size m pos few h = grind arith

not_empty : (chunks : List CapturedSourceRangeChunk) → 1 ≤ byte_sum chunks → 1 ≤ length chunks
unfolding byte_sum
not_empty [] h = h
not_empty (c ∷ chunks) h = omega arith

module _ (py : Runtime) (model_dump : CaptureSourceRangeCommand → Json) (a : RangeArguments)
    (size : ℕ) (bytes : List ℕ) (valid : IsValidArguments a) (pos : 1 ≤ length bytes)
    (high : length bytes ≤ transaction_max_bytes) where
  checkpoint_of-IsValid : validate_checkpoint (checkpoint_of py a bytes) ≡ ok tt
  unfolding validate_checkpoint checkpoint_of checkpoint_sha256
  checkpoint_of-IsValid = Holds-ok _ (
      valid.checkpoint_key
      & (ground arith)
      & (ground arith)
      & valid.file_key
      & (py.sha256_form _)
      & (ground arith)
      & (ground arith)
      & tt)

  range_bounds-assemble : range_bounds py (assemble py a size bytes) ≡ ok tt
  unfolding range_bounds assemble
  range_bounds-assemble = Holds-ok _ (
      (string_refl _)
      & (ground arith)
      & (ground arith)
      & (ground arith)
      & (ground arith)
      & (string_refl _)
      & (string_refl _)
      & tt)

  command_fields-assemble :
      1 ≤ length (split_chunks py (length bytes) size 0 a.byte_start bytes)
      → length (split_chunks py (length bytes) size 0 a.byte_start bytes) ≤ transaction_max_chunks
      → command_fields py (assemble py a size bytes) ≡ ok tt
  unfolding command_fields assemble
  command_fields-assemble low many = Holds-ok _ (
      (has_length-prefixed _ _ (omega arith) (canonical_sha256-form py _))
      & valid.schema_version
      & valid.capability_key
      & valid.connector_key
      & valid.connector_version
      & valid.revision_key
      & valid.file
      & valid.file_key
      & valid.format_version
      & (ground arith)
      & (ground arith)
      & (py.sha256_form bytes)
      & (ground arith)
      & valid.policy_key
      & valid.retention
      & tt)

  module _ (step : 1 ≤ size) (fits : size ≤ chunk_max_bytes)
      (few : length bytes ≤ transaction_max_chunks * size) (v : IsBytes bytes)
      (small : length (canonical_bytes py model_dump (assemble py a size bytes))
        ≤ command_max_bytes) where
    few_chunks :
        length (split_chunks py (length bytes) size 0 a.byte_start bytes) ≤ transaction_max_chunks
    few_chunks =
        at_most _ size (length bytes) step few
          (length-split_chunks py size step (length bytes) 0 a.byte_start bytes (omega arith))

    all_valid :
        check_each (validate_chunk py) (split_chunks py (length bytes) size 0 a.byte_start bytes)
        ≡ ok tt
    all_valid =
        split_chunks-AllValid py size step fits (length bytes) 0 a.byte_start bytes v (omega arith)
          (omega (arith, few_chunks))

    admissible :
        check (
          require
            (leb 1 (length bytes) && leb (length bytes) transaction_max_bytes)
            "source-range payload exceeds its transaction bound"
          ∷ require
              (leb 1 size && leb size chunk_max_bytes)
              "source-range chunk size exceeds its configured bound"
          ∷ [])
        ≡ ok tt
    admissible = Holds-ok _ ((ground arith) & (ground arith) & tt)

    follow_chunks-assemble :
        follow_chunks 0 a.byte_start (assemble py a size bytes).chunks
        ≡ ok (a.byte_start + length bytes)
    unfolding assemble
    follow_chunks-assemble =
        follow_chunks-split_chunks py size step (length bytes) 0 a.byte_start a.byte_start bytes
          (omega arith) (λ _. refl)

    range_cover-assemble :
        range_cover py model_dump (assemble py a size bytes) (a.byte_start + length bytes) ≡ ok tt
    unfolding range_cover assemble
    range_cover-assemble = Holds-ok _ (
        (ground arith)
        & (eq→eqb _ _
            (byte_sum-split_chunks py size step (length bytes) 0 a.byte_start bytes (omega arith)))
        & (eq→beq {A = String} _ _ (
            ap py.sha256 (
              payloads-split_chunks py size step (length bytes) 0 a.byte_start bytes (omega arith)
                v)))
        & (le→leb _ _ small)
        & tt)

    validate_command-assemble : validate_command py model_dump (assemble py a size bytes) ≡ ok tt
    unfolding validate_command assemble checkpoint_of
    validate_command-assemble =
        ok->> _ _ all_valid
        ∙ (ok->> _ _ checkpoint_of-IsValid
            ∙ (ok->> _ _ (
                  command_fields-assemble
                    (not_empty _ (
                      omega (
                        arith,
                        byte_sum-split_chunks py size step (length bytes) 0 a.byte_start bytes,
                      )))
                    few_chunks)
                ∙ (ok->> _ _ range_bounds-assemble
                    ∙ (rw follow_chunks-assemble range_cover-assemble))))

    assemble-built :
        build_capture_source_range_command py model_dump a size bytes
        ≡ ok (assemble py a size bytes)
    unfolding build_capture_source_range_command
    assemble-built =
        ok->> _ _ admissible
        ∙ (ok->> _ _ all_valid
            ∙ (ok->> _ _ checkpoint_of-IsValid ∙ ok->> _ _ validate_command-assemble))

  -- The last check of the validator is on the canonical bytes.
  validate_command-small :
      (c : CaptureSourceRangeCommand)
      → validate_command py model_dump c ≡ ok tt
      → length (canonical_bytes py model_dump c) ≤ command_max_bytes
  unfolding validate_command range_cover
  validate_command-small c h =
      let (_, h1) = >>-eq-ok (check_each (validate_chunk py) c.chunks) _ h in
      let (_, h2) = >>-eq-ok (validate_checkpoint c.checkpoint) _ h1 in
      let (_, h3) = >>-eq-ok (command_fields py c) _ h2 in
      let (_, h4) = >>-eq-ok (range_bounds py c) _ h3 in
      let (_, _, cover) = >>=-eq-ok (follow_chunks 0 c.byte_start c.chunks) _ h4 in
      let (_, (_, (_, (small, _)))) = check-ok _ cover in omega (tests, small)

  -- Where the arguments meet the constraints on their fields, and the read is a list of bytes that
  -- is not empty, within the bound of a transaction, and cut into at most 256 chunks of an
  -- admissible size, the builder returns the assembled command exactly if the canonical bytes of
  -- that command are within their bound: no other check refuses it.
  pub build_capture_source_range_command-total :
      1 ≤ size
      → size ≤ chunk_max_bytes
      → length bytes ≤ transaction_max_chunks * size
      → IsBytes bytes
      → (build_capture_source_range_command py model_dump a size bytes
          ≡ ok (assemble py a size bytes))
        ↔ (length (canonical_bytes py model_dump (assemble py a size bytes)) ≤ command_max_bytes)
  build_capture_source_range_command-total step fits few v = (
    λ built. validate_command-small _ (build-eq-ok py model_dump a size bytes built).1,
    λ small. assemble-built step fits few v small,
  )
