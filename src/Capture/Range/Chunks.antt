-- ===== src/Capture/Range/Chunks.antt =====
-- Cutting a payload into chunks loses nothing and leaves no gap.
use memoriesql.Prelude.{
  ℕ, zero, suc, ◌+◌, ◌-◌, ◌*◌, ◌≤◌, ◌<◌, ◌≡◌, refl, ap, List, [], ◌∷◌, length, take, drop,
  take-append-drop, length-take, length-drop, ok, arith, nat_eq,
}
use memoriesql.Contracts.Hex.{IsBytes, from_hex-hex}
use memoriesql.Contracts.Runtime.{Runtime}
use memoriesql.Capture.Range.Command.{payload, payloads, byte_sum, follow_chunks}
use memoriesql.Capture.Range.Build.{split_chunks}

pub take-IsBytes : (n : ℕ) (bytes : List ℕ) → IsBytes bytes → IsBytes (take n bytes)
take-IsBytes zero bytes h = tt
take-IsBytes (suc n) [] h = tt
take-IsBytes (suc n) (b ∷ bytes) h = (h.0, take-IsBytes n bytes h.1)

pub drop-IsBytes : (n : ℕ) (bytes : List ℕ) → IsBytes bytes → IsBytes (drop n bytes)
drop-IsBytes zero bytes h = h
drop-IsBytes (suc n) [] h = tt
drop-IsBytes (suc n) (b ∷ bytes) h = drop-IsBytes n bytes h.1

module _ (py : Runtime) (size : ℕ) (pos : 0 < size) where
  -- What is left after one chunk fits in the rounds that are left.
  pub left_fits :
      (rounds b : ℕ) (bytes : List ℕ)
      → length bytes ≤ rounds
      → length (drop size (b ∷ bytes)) ≤ rounds
  left_fits rounds b bytes h = omega (arith, length-drop size (b ∷ bytes))

  -- The chunks end where the payload ends, with contiguous ordinals and offsets.
  pub follow_chunks-split_chunks :
      (rounds ordinal expected start : ℕ) (bytes : List ℕ)
      → length bytes ≤ rounds
      → (0 < length bytes → expected ≡ start)
      → follow_chunks ordinal expected (split_chunks py rounds size ordinal start bytes)
        ≡ ok (expected + length bytes)
  unfolding follow_chunks split_chunks
  follow_chunks-split_chunks zero ordinal expected start [] h e = ap ok (omega arith)
  follow_chunks-split_chunks zero ordinal expected start (b ∷ bytes) h e = absurd (omega arith)
  follow_chunks-split_chunks (suc rounds) ordinal expected start [] h e = ap ok (omega arith)
  follow_chunks-split_chunks (suc rounds) ordinal expected start (b ∷ bytes) h e = ground (
    arith,
    e (omega arith),
    length-take size (b ∷ bytes),
    length-drop size (b ∷ bytes),
    follow_chunks-split_chunks rounds (ordinal + 1) (start + length (take size (b ∷ bytes)))
        (start + size) (drop size (b ∷ bytes)) (left_fits rounds b bytes (omega arith))
        (λ (p : 0 < length (drop size (b ∷ bytes))).
          omega (arith, length-take size (b ∷ bytes), length-drop size (b ∷ bytes))),
  )

  pub byte_sum-split_chunks :
      (rounds ordinal start : ℕ) (bytes : List ℕ)
      → length bytes ≤ rounds
      → byte_sum (split_chunks py rounds size ordinal start bytes) ≡ length bytes
  unfolding byte_sum split_chunks
  byte_sum-split_chunks zero ordinal start [] h = refl
  byte_sum-split_chunks zero ordinal start (b ∷ bytes) h = absurd (omega arith)
  byte_sum-split_chunks (suc rounds) ordinal start [] h = refl
  byte_sum-split_chunks (suc rounds) ordinal start (b ∷ bytes) h = omega (
    arith,
    length-take size (b ∷ bytes),
    length-drop size (b ∷ bytes),
    byte_sum-split_chunks rounds (ordinal + 1) (start + size) (drop size (b ∷ bytes)),
    left_fits rounds b bytes (omega arith),
  )

  one_more : (n m k : ℕ) → k ≡ suc m - size → n * size < k + size → suc n * size < suc m + size
  one_more zero m k e h = omega arith
  one_more (suc n) m k e h = omega arith

  -- Every chunk but the last is full, so `size` times the number of chunks is less than a chunk
  -- more than the payload.
  pub length-split_chunks :
      (rounds ordinal start : ℕ) (bytes : List ℕ)
      → length bytes ≤ rounds
      → length (split_chunks py rounds size ordinal start bytes) * size < length bytes + size
  unfolding split_chunks
  length-split_chunks zero ordinal start [] h = omega arith
  length-split_chunks zero ordinal start (b ∷ bytes) h = absurd (omega arith)
  length-split_chunks (suc rounds) ordinal start [] h = omega arith
  length-split_chunks (suc rounds) ordinal start (b ∷ bytes) h =
      one_more
        (length (split_chunks py rounds size (ordinal + 1) (start + size) (drop size (b ∷ bytes))))
        (length bytes) (length (drop size (b ∷ bytes))) (length-drop size (b ∷ bytes))
        (length-split_chunks rounds (ordinal + 1) (start + size) (drop size (b ∷ bytes))
          (left_fits rounds b bytes (omega arith)))

  pub payloads-split_chunks :
      (rounds ordinal start : ℕ) (bytes : List ℕ)
      → length bytes ≤ rounds
      → IsBytes bytes
      → payloads (split_chunks py rounds size ordinal start bytes) ≡ bytes
  unfolding payloads payload split_chunks
  payloads-split_chunks zero ordinal start [] h v = refl
  payloads-split_chunks zero ordinal start (b ∷ bytes) h v = absurd (omega arith)
  payloads-split_chunks (suc rounds) ordinal start [] h v = refl
  payloads-split_chunks (suc rounds) ordinal start (b ∷ bytes) h v =
      rw (from_hex-hex (take size (b ∷ bytes)) (take-IsBytes size (b ∷ bytes) v)) (
        rw
          (payloads-split_chunks rounds (ordinal + 1) (start + size) (drop size (b ∷ bytes))
            (left_fits rounds b bytes (omega arith)) (drop-IsBytes size (b ∷ bytes) v))
          (take-append-drop size (b ∷ bytes)))
