-- ===== src/Capture/Fold/Sliced.antt =====
-- A slice of a contiguous lineage is a contiguous lineage of the slice.
use memoriesql.Prelude.{
  ℕ, ◌≤◌, ◌<◌, min, max, ◌≡◌, refl, sym, ap, ◌∙◌, inl, inr, String, ◌&&◌, List, [], ◌∷◌, ◌++◌,
  length, length-append, leb, nat_eq, ◌==◌, ok, check-ok, Holds-ok, >>-eq-ok, ◌&◌, arith, tests,
  Bool-cases, eq→eqb,
}
use memoriesql.Contracts.Runtime.{Runtime}
use memoriesql.Capture.Range.Command.{check_each}
use memoriesql.Capture.Fold.Source.{TranscriptFoldSourceRange, validate_slice, follow_ranges}
use memoriesql.Capture.Fold.Exact.{cut_range, kept_range, slice_lineage}

-- An offset moved to the nearest one between two bounds.
abbrev pub clamp : ℕ → ℕ → ℕ → ℕ
clamp low high n = max low (min high n)

pub validate_slice-order :
    (r : TranscriptFoldSourceRange) → validate_slice r ≡ ok tt → r.byte_start < r.byte_end_exclusive
unfolding validate_slice
validate_slice-order r h =
    let (_, (_, (_, (_, (_, (inside, _)))))) = check-ok _ h in ground (arith, inside)

module _ (py : Runtime) (payload : List ℕ) (base : ℕ) where
  cut_range-IsValid :
      (r : TranscriptFoldSourceRange) (start stop : ℕ)
      → validate_slice r ≡ ok tt
      → r.byte_start ≤ start
      → start < stop
      → stop ≤ r.byte_end_exclusive
      → validate_slice (cut_range py payload base r start stop) ≡ ok tt
  unfolding validate_slice cut_range
  cut_range-IsValid r start stop h low order high =
      let (some_end, (receipt_hash, (_, (_, (bounds, (inside, _)))))) = check-ok _ h in
      Holds-ok _ (
        some_end
        & receipt_hash
        & (ground (arith, order))
        & (py.sha256_form _)
        & bounds
        & (ground (arith, inside))
        & tt)

  -- What a range leaves is valid, at most one range, and goes from one clamped end to the other.
  record Keeps (gap : String) (low high : ℕ) (r : TranscriptFoldSourceRange)
      (kept : List TranscriptFoldSourceRange) : Type 0 where
    valid : check_each validate_slice kept ≡ ok tt
    few : length kept ≤ 1
    follows :
        (ranges : List TranscriptFoldSourceRange)
        → follow_ranges gap (clamp low high r.byte_start) (kept ++ ranges)
          ≡ follow_ranges gap (clamp low high r.byte_end_exclusive) ranges

  one-Keeps :
      (gap : String) (low high : ℕ) (r s : TranscriptFoldSourceRange)
      → validate_slice s ≡ ok tt
      → s.byte_start ≡ clamp low high r.byte_start
      → s.byte_end_exclusive ≡ clamp low high r.byte_end_exclusive
      → Keeps gap low high r (s ∷ [])
  unfolding follow_ranges check_each
  one-Keeps gap low high r s h start stop = record {
    valid = rw h refl;
    few = omega arith;
    follows = λ ranges. rw (eq→eqb _ _ start) (ap (λ e. follow_ranges gap e ranges) stop);
  }

  none-Keeps :
      (gap : String) (low high : ℕ) (r : TranscriptFoldSourceRange)
      → clamp low high r.byte_start ≡ clamp low high r.byte_end_exclusive
      → Keeps gap low high r []
  unfolding check_each
  none-Keeps gap low high r same = record {
    valid = refl;
    few = omega arith;
    follows = λ ranges. ap (λ o. follow_ranges gap o ranges) same;
  }

  kept_range-Keeps :
      (gap : String) (low high : ℕ) (r : TranscriptFoldSourceRange)
      → low ≤ high
      → validate_slice r ≡ ok tt
      → Keeps gap low high r
          (kept_range py payload base r (max low r.byte_start) (min high r.byte_end_exclusive))
  unfolding kept_range cut_range
  kept_range-Keeps gap low high r order h =
      elim (Bool-cases (leb (min high r.byte_end_exclusive) (max low r.byte_start))) [
        | inl empty ↦
            rw empty
              (none-Keeps gap low high r (omega (tests, order, validate_slice-order r h, empty)))
        | inr more ↦
            rw more
              (elim (Bool-cases (
                max low r.byte_start == r.byte_start
                && min high r.byte_end_exclusive == r.byte_end_exclusive)) [
                  | inl whole ↦ rw whole (
                      one-Keeps gap low high r r h (ground (arith, order, validate_slice-order r h))
                        (ground (arith, order, validate_slice-order r h)))
                  | inr part ↦ rw part (
                      one-Keeps gap low high r
                        (cut_range py payload base r (max low r.byte_start)
                          (min high r.byte_end_exclusive))
                        (cut_range-IsValid r _ _ h (omega arith) (ground (arith, more))
                          (omega arith))
                        (ground (arith, order, validate_slice-order r h))
                        (ground (arith, order, validate_slice-order r h)))
                ])
      ]

  -- The slice of a contiguous lineage that reaches from `from` to `to`.
  pub record Slices (gap : String) (low high from to : ℕ) (n : ℕ)
      (slices : List TranscriptFoldSourceRange) : Type 0 where
    pub valid : check_each validate_slice slices ≡ ok tt
    pub few : length slices ≤ n
    pub follows : follow_ranges gap (clamp low high from) slices ≡ ok (clamp low high to)

  check_each-append :
      (xs ys : List TranscriptFoldSourceRange)
      → check_each validate_slice xs ≡ ok tt
      → check_each validate_slice ys ≡ ok tt
      → check_each validate_slice (xs ++ ys) ≡ ok tt
  unfolding check_each
  check_each-append [] ys h k = k
  check_each-append (x ∷ xs) ys h k =
      let (first, rest) = >>-eq-ok (validate_slice x) _ h in
      rw first (check_each-append xs ys rest k)

  follow_ranges-cons :
      (gap : String) (from to : ℕ) (r : TranscriptFoldSourceRange)
      (ranges : List TranscriptFoldSourceRange)
      → follow_ranges gap from (r ∷ ranges) ≡ ok to
      → (r.byte_start ≡ from) × (follow_ranges gap r.byte_end_exclusive ranges ≡ ok to)
  unfolding follow_ranges
  follow_ranges-cons gap from to r ranges h = ground (arith, h)

  follow_ranges-nil :
      (gap : String) (low high from to : ℕ)
      → follow_ranges gap from [] ≡ ok to
      → follow_ranges gap (clamp low high from) [] ≡ ok (clamp low high to)
  unfolding follow_ranges
  follow_ranges-nil gap low high from to h = ground (arith, h)

  pub slice_lineage-Slices :
      (gap : String) (low high from to : ℕ) (ranges : List TranscriptFoldSourceRange)
      → low ≤ high
      → check_each validate_slice ranges ≡ ok tt
      → follow_ranges gap from ranges ≡ ok to
      → Slices gap low high from to (length ranges) (slice_lineage py ranges payload base low high)
  unfolding slice_lineage check_each
  slice_lineage-Slices gap low high from to [] order valid follow = record {
    valid = refl;
    few = omega arith;
    follows = follow_ranges-nil gap low high from to follow;
  }
  slice_lineage-Slices gap low high from to (r ∷ ranges) order valid follow =
      let (first, rest) = >>-eq-ok (validate_slice r) _ valid in
      let (start, further) = follow_ranges-cons gap from to r ranges follow in
      let kept = kept_range-Keeps gap low high r order first in
      let ih =
        slice_lineage-Slices gap low high r.byte_end_exclusive to ranges order rest further in
      record {
        valid = check_each-append _ _ kept.valid ih.valid;
        few = omega (
          arith,
          kept.few,
          ih.few,
          length-append
              (kept_range py payload base r (max low r.byte_start) (min high r.byte_end_exclusive))
              (slice_lineage py ranges payload base low high),
        );
        follows =
            ap
              (λ o.
                follow_ranges gap (clamp low high o)
                  (slice_lineage py (r ∷ ranges) payload base low high))
              (sym start)
            ∙ (kept.follows _ ∙ ih.follows);
      }
