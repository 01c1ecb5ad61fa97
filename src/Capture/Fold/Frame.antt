-- ===== src/Capture/Fold/Frame.antt =====
-- `_frame_complete_records` of transcript_fold.py: retained bytes are framed into lines.
use memoriesql.Prelude.{
  ℕ, zero, suc, ◌+◌, Bool, false, String, Option, none, some, List, [], ◌∷◌, length, eqb, ltb,
  if◌then◌else◌,
}

-- FramedSourceRecord of source_adapter.py
pub record FramedSourceRecord : Type 0 where
  pub start_offset : ℕ
  pub end_offset : ℕ
  pub framed_bytes : List ℕ
  pub content_bytes : List ℕ
  pub oversized : Bool
  pub record_index : ℕ
  pub framed_sha256 : Option String

abbrev pub newline : ℕ
newline = 10

abbrev pub carriage_return : ℕ
carriage_return = 13

abbrev pub longer : ℕ → Option (List ℕ × List ℕ) → Option (List ℕ × List ℕ)
longer b none = none
longer b (some (line, rest)) = some (b ∷ line, rest)

-- The bytes up to the first delimiter, it included, and those after it.
unfoldable pub cut_line : List ℕ → Option (List ℕ × List ℕ)
cut_line [] = none
cut_line (b ∷ bytes) =
    let rest = longer b (cut_line bytes) in
    if eqb b newline then some (newline ∷ [], bytes) else rest

-- content[:-1]
unfoldable pub without_last : List ℕ → List ℕ
without_last [] = []
without_last (b ∷ []) = []
without_last (b ∷ c ∷ bytes) = b ∷ without_last (c ∷ bytes)

-- content.endswith(…), for one byte
unfoldable pub ends_with : ℕ → List ℕ → Bool
ends_with c [] = false
ends_with c (b ∷ []) = eqb b c
ends_with c (b ∷ d ∷ bytes) = ends_with c (d ∷ bytes)

unfoldable pub content_of : List ℕ → List ℕ
unfolding without_last ends_with
content_of framed =
    let content = without_last framed in
    if ends_with carriage_return content then without_last content else content

unfoldable pub record_of : ℕ → ℕ → ℕ → List ℕ → FramedSourceRecord
unfolding content_of
record_of max_record_bytes offset index framed = record {
  start_offset = offset;
  end_offset = offset + length framed;
  framed_bytes = framed;
  content_bytes = content_of framed;
  oversized = ltb max_record_bytes (length framed);
  record_index = index;
  framed_sha256 = none;
}

-- One round of the loop after the search: no delimiter ends it.
abbrev pub framed_line :
    ℕ
    → ℕ
    → ℕ
    → (ℕ → ℕ → List ℕ → List FramedSourceRecord × List ℕ)
    → List ℕ
    → Option (List ℕ × List ℕ)
    → List FramedSourceRecord × List ℕ
framed_line max_record_bytes offset index next payload none = ([], payload)
framed_line max_record_bytes offset index next payload (some (framed, rest)) =
    let (records, tail) = next (offset + length framed) (index + 1) rest in
    (record_of max_record_bytes offset index framed ∷ records, tail)

unfoldable pub frame_from : ℕ → ℕ → ℕ → ℕ → List ℕ → List FramedSourceRecord × List ℕ
unfolding cut_line record_of
frame_from zero max_record_bytes offset index payload = ([], payload)
frame_from (suc rounds) max_record_bytes offset index payload =
    framed_line max_record_bytes offset index (frame_from rounds max_record_bytes) payload
      (cut_line payload)

-- Every round takes at least the delimiter, so as many rounds as there are bytes are enough.
unfoldable pub frame_complete_records : List ℕ → ℕ → ℕ → ℕ → List FramedSourceRecord × List ℕ
unfolding frame_from
frame_complete_records payload base_offset base_record_index max_record_bytes =
    frame_from (length payload) max_record_bytes base_offset base_record_index payload
