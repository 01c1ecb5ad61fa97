-- ===== src/Capture/Fold/Framed.antt =====
-- What framing promises: the records are the lines of the bytes, and nothing is lost.
use memoriesql.Prelude.{
  ℕ, zero, suc, ◌+◌, ◌≤◌, ◌<◌, ◌≡◌, refl, ap, subst, ◌⊎◌, inl, inr, true, false, Option, none, some,
  List, [], ◌∷◌, ◌++◌, length, length-append, All, eqb, ltb, arith, tests, Bool-cases,
}
use memoriesql.Capture.Fold.Frame.{
  FramedSourceRecord, newline, carriage_return, longer, cut_line, without_last, ends_with,
  content_of, record_of, framed_line, frame_from, frame_complete_records,
}

-- No byte ends a line.
abbrev pub NoDelimiter : List ℕ → Type 0
NoDelimiter = All (λ b. eqb b newline ≡ false)

-- A line holds its content and a line ending, with or without a carriage return.
abbrev pub EndsLine : List ℕ → List ℕ → Type 0
EndsLine content framed =
    ((content ++ (newline ∷ []) ≡ framed) × (ends_with carriage_return content ≡ false))
    ⊎ (content ++ (carriage_return ∷ newline ∷ []) ≡ framed)

-- A record is the line of the payload at its offset, and `rest` follows it.
pub record IsRecord (max_record_bytes offset index : ℕ) (r : FramedSourceRecord)
    (payload rest : List ℕ) : Type 0 where
  pub start : r.start_offset ≡ offset
  pub stop : r.end_offset ≡ offset + length r.framed_bytes
  pub numbered : r.record_index ≡ index
  pub cut : r.framed_bytes ++ rest ≡ payload
  pub ended : EndsLine r.content_bytes r.framed_bytes
  pub single : (line : List ℕ) × (line ++ (newline ∷ []) ≡ r.framed_bytes) × NoDelimiter line
  pub measured : r.oversized ≡ ltb max_record_bytes (length r.framed_bytes)

-- The records are the lines of the payload, one after the other, and the tail has no line in it.
abbrev pub Framing : ℕ → ℕ → ℕ → List FramedSourceRecord → List ℕ → List ℕ → Type 0
Framing max_record_bytes offset index [] tail payload = (tail ≡ payload) × NoDelimiter payload
Framing max_record_bytes offset index (r ∷ records) tail payload =
    (rest : List ℕ) × IsRecord max_record_bytes offset index r payload rest
    × Framing max_record_bytes r.end_offset (index + 1) records tail rest

-- What the search found.
abbrev Cut : List ℕ → Option (List ℕ × List ℕ) → Type 0
Cut payload none = NoDelimiter payload
Cut payload (some (framed, rest)) =
    (framed ++ rest ≡ payload)
    × ((line : List ℕ) × (line ++ (newline ∷ []) ≡ framed) × NoDelimiter line)

Cut-longer :
    (b : ℕ) (bytes : List ℕ) (found : Option (List ℕ × List ℕ))
    → eqb b newline ≡ false
    → Cut bytes found
    → Cut (b ∷ bytes) (longer b found)
Cut-longer b bytes none other h = (other, h)
Cut-longer b bytes (some (framed, rest)) other (joined, (line, ended, none_in)) =
    (ap (λ l. b ∷ l) joined, (b ∷ line, ap (λ l. b ∷ l) ended, (other, none_in)))

cut_line-Cut : (payload : List ℕ) → Cut payload (cut_line payload)
unfolding cut_line
cut_line-Cut [] = tt
cut_line-Cut (b ∷ bytes) = elim (Bool-cases (eqb b newline)) [
  | inl h ↦ rw h (ap (λ c. c ∷ bytes) (omega (tests, h)), ([], refl, tt))
  | inr h ↦ rw h (Cut-longer b bytes (cut_line bytes) h (cut_line-Cut bytes))
]

without_last-append : (line : List ℕ) (b : ℕ) → without_last (line ++ (b ∷ [])) ≡ line
unfolding without_last
without_last-append [] b = refl
without_last-append (c ∷ []) b = refl
without_last-append (c ∷ d ∷ line) b = ap (λ l. c ∷ l) (without_last-append (d ∷ line) b)

without_last-ends_with :
    (b : ℕ) (line rest : List ℕ)
    → ends_with b line ≡ true
    → without_last line ++ (b ∷ rest) ≡ line ++ rest
unfolding without_last ends_with
without_last-ends_with b [] rest h = cc
without_last-ends_with b (c ∷ []) rest h = ap (λ d. d ∷ rest) (omega (tests, h))
without_last-ends_with b (c ∷ d ∷ line) rest h =
    ap (λ l. c ∷ l) (without_last-ends_with b (d ∷ line) rest h)

content_of-EndsLine :
    (line : List ℕ) → EndsLine (content_of (line ++ (newline ∷ []))) (line ++ (newline ∷ []))
unfolding content_of
content_of-EndsLine line =
    rw (without_last-append line newline) (elim (Bool-cases (ends_with carriage_return line)) [
      | inl h ↦ rw h (inr (without_last-ends_with carriage_return line (newline ∷ []) h))
      | inr h ↦ rw h (inl (refl, h))
    ])

record_of-IsRecord :
    (max_record_bytes offset index : ℕ) (framed rest payload : List ℕ)
    → Cut payload (some (framed, rest))
    → IsRecord max_record_bytes offset index
        (record_of max_record_bytes offset index framed)
        payload
        rest
unfolding record_of
record_of-IsRecord max_record_bytes offset index framed rest payload
      (joined, (line, ended, none_in)) =
    record {
      start = refl;
      stop = refl;
      numbered = refl;
      cut = joined;
      ended = subst (λ l. EndsLine (content_of l) l) ended (content_of-EndsLine line);
      single = (line, ended, none_in);
      measured = refl;
    }

-- A line takes at least its delimiter.
Cut-shorter :
    (payload framed rest : List ℕ)
    → Cut payload (some (framed, rest))
    → length rest < length payload
Cut-shorter payload framed rest (joined, (line, ended, none_in)) = omega (
  arith,
  ap length joined,
  ap length ended,
  length-append framed rest,
  length-append line (newline ∷ []),
)

-- One round keeps the framing, if the rounds after it do.
framed_line-Framing :
    (max_record_bytes offset index : ℕ) (next : ℕ → ℕ → List ℕ → List FramedSourceRecord × List ℕ)
    (payload : List ℕ) (found : Option (List ℕ × List ℕ))
    → Cut payload found
    → ((o i : ℕ) (rest : List ℕ)
        → length rest < length payload
        → Framing max_record_bytes o i (next o i rest).0 (next o i rest).1 rest)
    → Framing max_record_bytes offset index
        (framed_line max_record_bytes offset index next payload found).0
        (framed_line max_record_bytes offset index next payload found).1
        payload
unfolding record_of
framed_line-Framing max_record_bytes offset index next payload none c ih = (refl, c)
framed_line-Framing max_record_bytes offset index next payload (some (framed, rest)) c ih = (
  rest,
  record_of-IsRecord max_record_bytes offset index framed rest payload c,
  ih (offset + length framed) (index + 1) rest (Cut-shorter payload framed rest c),
)

frame_from-Framing :
    (rounds max_record_bytes offset index : ℕ) (payload : List ℕ)
    → length payload ≤ rounds
    → Framing max_record_bytes offset index
        (frame_from rounds max_record_bytes offset index payload).0
        (frame_from rounds max_record_bytes offset index payload).1
        payload
unfolding frame_from
frame_from-Framing zero max_record_bytes offset index [] h = (refl, tt)
frame_from-Framing zero max_record_bytes offset index (b ∷ payload) h = absurd (omega arith)
frame_from-Framing (suc rounds) max_record_bytes offset index payload h =
    framed_line-Framing max_record_bytes offset index (frame_from rounds max_record_bytes) payload
      (cut_line payload) (cut_line-Cut payload)
      (λ o i rest shorter. frame_from-Framing rounds max_record_bytes o i rest (omega arith))

-- The records of a payload are its lines in order, each at its own offset and index, with its line
-- ending taken away; the tail is what follows the last line, and holds no line.
pub frame_complete_records-Framing :
    (payload : List ℕ) (base_offset base_record_index max_record_bytes : ℕ)
    → Framing max_record_bytes base_offset base_record_index
        (frame_complete_records payload base_offset base_record_index max_record_bytes).0
        (frame_complete_records payload base_offset base_record_index max_record_bytes).1
        payload
unfolding frame_complete_records
frame_complete_records-Framing payload base_offset base_record_index max_record_bytes =
    frame_from-Framing (length payload) max_record_bytes base_offset base_record_index payload
      (omega arith)
