-- ===== src/Capture/Range/Sound.antt =====
-- What a command that passes its validator is known to hold.
use memoriesql.Prelude.{
  ℕ, ◌+◌, ◌<◌, ◌≡◌, subst, List, [], ◌∷◌, length, length-append, ok, >>-eq-ok, >>=-eq-ok, check-ok,
  check, checked-eq-ok, arith, beq→eq, string_eq, tests, String,
}
use memoriesql.Contracts.Runtime.{Runtime, Json}
use memoriesql.Capture.Range.Command.{
  CapturedSourceRangeChunk, CaptureSourceRangeCommand, payload, payloads, follow_chunks,
  validate_chunk, check_each, validate_command, range_bounds, command_fields, range_cover,
  checkpoint_sha256, validate_checkpoint,
}
use memoriesql.Capture.Range.Build.{
  RangeArguments, split_chunks, checkpoint_of, assemble, build_capture_source_range_command,
}

module _ (py : Runtime) where
  -- A valid chunk spans as many offsets as it has bytes.
  chunk_span :
      (c : CapturedSourceRangeChunk)
      → validate_chunk py c ≡ ok tt
      → c.byte_start + length (payload c) ≡ c.byte_end_exclusive
  unfolding validate_chunk
  chunk_span c h =
      let (_, (_, (_, (_, (_, (_, (range, (span, (bytes, _))))))))) = check-ok _ h in
      omega (tests, range, span, bytes)

  follow_chunks-span :
      (ordinal start : ℕ) (chunks : List CapturedSourceRangeChunk) (last : ℕ)
      → check_each (validate_chunk py) chunks ≡ ok tt
      → follow_chunks ordinal start chunks ≡ ok last
      → start + length (payloads chunks) ≡ last
  unfolding check_each follow_chunks payloads
  follow_chunks-span ordinal start [] last v h = ground arith
  follow_chunks-span ordinal start (c ∷ chunks) last v h = ground (
    arith,
    >>-eq-ok (validate_chunk py c) (check_each (validate_chunk py) chunks) v,
    chunk_span c,
    length-append (payload c) (payloads chunks),
    follow_chunks-span (ordinal + 1) c.byte_end_exclusive chunks last,
  )

-- Chunks in a row, from an ordinal and an offset on: each has the next ordinal, starts where the one
-- before ended, and has as many bytes as it spans; the last ends at `last`.
abbrev pub Contiguous : ℕ → ℕ → ℕ → List CapturedSourceRangeChunk → Type 0
Contiguous last ordinal start [] = start ≡ last
Contiguous last ordinal start (c ∷ chunks) =
    (c.chunk_ordinal ≡ ordinal)
    × (c.byte_start ≡ start)
    × (c.byte_start + length (payload c) ≡ c.byte_end_exclusive)
    × Contiguous last (ordinal + 1) c.byte_end_exclusive chunks

follow_chunks-step :
    (ordinal start : ℕ) (c : CapturedSourceRangeChunk) (chunks : List CapturedSourceRangeChunk)
    (last : ℕ)
    → follow_chunks ordinal start (c ∷ chunks) ≡ ok last
    → (c.chunk_ordinal ≡ ordinal)
      × (c.byte_start ≡ start)
      × (follow_chunks (ordinal + 1) c.byte_end_exclusive chunks ≡ ok last)
unfolding follow_chunks
follow_chunks-step ordinal start c chunks last h =
    (ground (arith, h), ground (arith, h), ground (arith, h))

follow_chunks-Contiguous :
    (py : Runtime) (ordinal start : ℕ) (chunks : List CapturedSourceRangeChunk) (last : ℕ)
    → check_each (validate_chunk py) chunks ≡ ok tt
    → follow_chunks ordinal start chunks ≡ ok last
    → Contiguous last ordinal start chunks
unfolding check_each follow_chunks
follow_chunks-Contiguous py ordinal start [] last v h = ground (arith, h)
follow_chunks-Contiguous py ordinal start (c ∷ chunks) last v h =
    let (valid, more) = >>-eq-ok (validate_chunk py c) (check_each (validate_chunk py) chunks) v in
    let (numbered, starts, rest) = follow_chunks-step ordinal start c chunks last h in
    (
      numbered,
      starts,
      chunk_span py c valid,
      follow_chunks-Contiguous py (ordinal + 1) c.byte_end_exclusive chunks last more rest,
    )

-- What a valid command binds: the exact bytes of its range, by their number and their hash, in
-- chunks that follow one another, and a checkpoint that moves from the start of the range to its end in one step.
pub record Binds (py : Runtime) (c : CaptureSourceRangeCommand) : Type 0 where
  pub nonempty : c.byte_start < c.byte_end_exclusive
  pub covered : c.byte_start + length (payloads c.chunks) ≡ c.byte_end_exclusive
  pub contiguous : Contiguous c.byte_end_exclusive 0 c.byte_start c.chunks
  pub counted : length (payloads c.chunks) ≡ c.payload_byte_count
  pub hashed : py.sha256 (payloads c.chunks) ≡ c.payload_sha256
  pub from : c.checkpoint.expected_byte_offset ≡ c.byte_start
  pub to : c.checkpoint.next_byte_offset ≡ c.byte_end_exclusive
  pub sequence : c.checkpoint.next_sequence ≡ c.checkpoint.expected_sequence + 1
  pub hash :
      c.checkpoint.checkpoint_hash
      ≡ checkpoint_sha256 py c.checkpoint.checkpoint_key c.checkpoint.expected_sequence
          c.checkpoint.next_sequence c.byte_start c.byte_end_exclusive c.file_identity_key
          c.payload_sha256

module _ (py : Runtime) (model_dump : CaptureSourceRangeCommand → Json) where
  -- A command that passes its validator binds exactly the bytes of its chunks: the chunks are
  -- numbered from 0, each starts where the one before ended and has as many bytes as it spans, from
  -- the start of the range to its end; the bytes are as many as declared, their hash is the declared
  -- one, and the checkpoint advances once, over the range, under the hash of its text.
  pub validate_command-Binds :
      (c : CaptureSourceRangeCommand) → validate_command py model_dump c ≡ ok tt → Binds py c
  unfolding validate_command range_bounds range_cover validate_checkpoint
  validate_command-Binds c h =
      let (each, h1) = >>-eq-ok (check_each (validate_chunk py) c.chunks) _ h in
      let (point, h2) = >>-eq-ok (validate_checkpoint c.checkpoint) _ h1 in
      let (fields, h3) = >>-eq-ok (command_fields py c) _ h2 in
      let (bounds, h4) = >>-eq-ok (range_bounds py c) _ h3 in
      let (last, follow, cover) =
        >>=-eq-ok (follow_chunks 0 c.byte_start c.chunks) (range_cover py model_dump c) h4 in
      let (_, (range, (span, (from, (to, (_, (hash, _))))))) = check-ok _ bounds in
      let (end_at, (_, (hashed, _))) = check-ok _ cover in
      let (_, (_, (_, (_, (_, (once, _)))))) = check-ok _ point in
      let covers = follow_chunks-span py 0 c.byte_start c.chunks last each follow in
      record {
        nonempty = omega (tests, range);
        covered = omega (tests, covers, end_at);
        contiguous =
            subst (λ last. Contiguous last 0 c.byte_start c.chunks) (omega (tests, end_at))
              (follow_chunks-Contiguous py 0 c.byte_start c.chunks last each follow);
        counted = omega (tests, covers, end_at, span, range);
        hashed = beq→eq {A = String} _ _ hashed;
        from = omega (tests, from);
        to = omega (tests, to);
        sequence = omega (tests, once);
        hash = beq→eq {A = String} _ _ hash;
      }

  -- What the builder returns is the assembled command, and it passed its validator.
  pub build-eq-ok :
      (a : RangeArguments) (size : ℕ) (bytes : List ℕ) {c : CaptureSourceRangeCommand}
      → build_capture_source_range_command py model_dump a size bytes ≡ ok c
      → (assemble py a size bytes ≡ c) × (validate_command py model_dump c ≡ ok tt)
  unfolding build_capture_source_range_command
  build-eq-ok a size bytes {c} h =
      let (_, h1) = >>-eq-ok (check _) _ h in
      let (_, h2) =
        >>-eq-ok
          (check_each (validate_chunk py)
            (split_chunks py (length bytes) size 0 a.byte_start bytes))
          _ h1 in
      let (_, h3) = >>-eq-ok (validate_checkpoint (checkpoint_of py a bytes)) _ h2 in
      let (valid, h4) =
        checked-eq-ok (validate_command py model_dump (assemble py a size bytes)) _ h3 in
      (h4, rw (← h4) valid)
