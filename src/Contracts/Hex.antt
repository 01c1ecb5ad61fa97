-- ===== src/Contracts/Hex.antt =====
-- `bytes.hex()` and `bytes.fromhex(…)`, as the contract models use them for payloads: a text is the
-- list of its character codes.
use memoriesql.Prelude.{
  ℕ, ◌+◌, ◌-◌, ◌*◌, ◌/◌, ◌%◌, ◌<◌, ◌≡◌, refl, Bool, true, false, ◌&&◌, List, [], ◌∷◌, All, length,
  arith, ltb, leb, if◌then◌else◌,
}
use memoriesql.Contracts.Text.{is_hex_digit}

hex_digit : ℕ → ℕ
hex_digit d = if ltb d 10 then b'0' + d else b'a' + (d - 10)

-- payload.hex()
unfoldable pub hex : List ℕ → List ℕ
unfolding hex_digit
hex [] = []
hex (b ∷ bytes) = hex_digit (b / 16) ∷ hex_digit (b % 16) ∷ hex bytes

hex_value : ℕ → ℕ
hex_value c = if leb b'a' c then c - b'a' + 10 else c - b'0'

-- bytes.fromhex(text), for a text that `is_hex_text` accepts.
unfoldable pub from_hex : List ℕ → List ℕ
unfolding hex_value
from_hex [] = []
from_hex (_ ∷ []) = []
from_hex (c ∷ d ∷ text) = (hex_value c * 16 + hex_value d) ∷ from_hex text

-- The pattern `^(?:[a-f0-9]{2})*$`.
unfoldable pub is_hex_text : List ℕ → Bool
is_hex_text [] = true
is_hex_text (_ ∷ []) = false
is_hex_text (c ∷ d ∷ text) = is_hex_digit c && is_hex_digit d && is_hex_text text

abbrev pub IsByte : ℕ → Type 0
IsByte b = b < 256

abbrev pub IsBytes : List ℕ → Type 0
IsBytes = All IsByte

hex_value-hex_digit : (d : ℕ) → d < 16 → hex_value (hex_digit d) ≡ d
unfolding hex_value hex_digit
hex_value-hex_digit d h = ground arith

is_hex_digit-hex_digit : (d : ℕ) → d < 16 → is_hex_digit (hex_digit d) ≡ true
unfolding hex_digit
is_hex_digit-hex_digit d h = ground arith

-- Decoding what was encoded gives the bytes back.
pub from_hex-hex : (bytes : List ℕ) → IsBytes bytes → from_hex (hex bytes) ≡ bytes
unfolding from_hex hex
from_hex-hex [] h = refl
from_hex-hex (b ∷ bytes) h =
    rw (hex_value-hex_digit (b / 16) (omega arith))
      (rw (hex_value-hex_digit (b % 16) (omega arith)) (rw (from_hex-hex bytes h.1) (ground arith)))

pub is_hex_text-hex : (bytes : List ℕ) → IsBytes bytes → is_hex_text (hex bytes) ≡ true
unfolding is_hex_text hex
is_hex_text-hex [] h = refl
is_hex_text-hex (b ∷ bytes) h =
    rw (is_hex_digit-hex_digit (b / 16) (omega arith))
      (rw (is_hex_digit-hex_digit (b % 16) (omega arith)) (is_hex_text-hex bytes h.1))

pub length-hex : (bytes : List ℕ) → length (hex bytes) ≡ 2 * length bytes
unfolding hex
length-hex [] = refl
length-hex (b ∷ bytes) = omega (arith, length-hex bytes)

hex_value-bound : (c : ℕ) → is_hex_digit c ≡ true → hex_value c < 16
unfolding hex_value
hex_value-bound c h = ground arith

both : (a b : Bool) → (a && b) ≡ true → (a ≡ true) × (b ≡ true)
both true true h = (refl, refl)
both true false h = cc
both false b h = cc

pub from_hex-IsBytes : (text : List ℕ) → is_hex_text text ≡ true → IsBytes (from_hex text)
unfolding from_hex is_hex_text
from_hex-IsBytes [] h = tt
from_hex-IsBytes (_ ∷ []) h = tt
from_hex-IsBytes (c ∷ d ∷ text) h =
    let (cd, rest) = both (is_hex_digit c && is_hex_digit d) (is_hex_text text) h in
    let (first, second) = both (is_hex_digit c) (is_hex_digit d) cd in
    (omega (arith, hex_value-bound c first, hex_value-bound d second), from_hex-IsBytes text rest)
