-- ===== src/Contracts/Text.antt =====
-- The text patterns that contract fields are held to (IDENTIFIER_PATTERN of
-- src/memoriesql/domain/module_manifest.py and SHA256_PATTERN of
-- src/memoriesql/application/semantic_task_contracts.py), and the pieces of Python's f-strings.
use Prim.Native.Char.{code}
use Prim.Native.String.{◌++◌, count, slice}
use text.Mathlib.TextLemmas.{length-append as count-append}
use memoriesql.Prelude.{
  ◌≤◌, ◌≡◌, arith, ℕ, zero, suc, ◌+◌, ◌/◌, ◌%◌, String, Bool, true, false, ◌&&◌, ◌||◌, Option, none,
  some, List, [], ◌∷◌, leb, ltb, eqb, if◌then◌else◌,
}

abbrev pub is_lower : ℕ → Bool
is_lower c = leb b'a' c && leb c b'z'

abbrev pub is_digit : ℕ → Bool
is_digit c = leb b'0' c && leb c b'9'

abbrev pub is_hex_digit : ℕ → Bool
is_hex_digit c = (leb b'a' c && leb c b'f') || is_digit c

abbrev pub is_separator : ℕ → Bool
is_separator c = eqb c b'.' || eqb c b'_' || eqb c b'-'

-- Where the matcher of `^[a-z][a-z0-9]*(?:[._-][a-z0-9]+)*$` stands.
pub data Place : Type 0 where
  at_start in_word after_separator : Place

identifier_from : Place → String → Bool
identifier_from at_start String.[] = false
identifier_from at_start (String.◌∷◌ c s) = is_lower (code c) && identifier_from in_word s
identifier_from in_word String.[] = true
identifier_from in_word (String.◌∷◌ c s) =
    (is_separator (code c) || is_lower (code c) || is_digit (code c))
    && identifier_from (if is_separator (code c) then after_separator else in_word) s
identifier_from after_separator String.[] = false
identifier_from after_separator (String.◌∷◌ c s) =
    (is_lower (code c) || is_digit (code c)) && identifier_from in_word s

-- IDENTIFIER_PATTERN.fullmatch(value) is not None
unfoldable pub is_identifier : String → Bool
unfolding identifier_from
is_identifier value = identifier_from at_start value

all_hex : String → Bool
all_hex String.[] = true
all_hex (String.◌∷◌ c s) = is_hex_digit (code c) && all_hex s

-- SHA256_PATTERN, `^[a-f0-9]{64}$`
unfoldable pub is_sha256 : String → Bool
unfolding all_hex
is_sha256 value = eqb (count value) 64 && all_hex value

-- Field(min_length=low, max_length=high)
unfoldable pub has_length : ℕ → ℕ → String → Bool
has_length low high value = leb low (count value) && leb (count value) high

-- An optional field meets its constraint also when it is None.
abbrev pub optional {ℓ} : {A : Type ℓ} → (A → Bool) → Option A → Bool
optional test none = true
optional test (some a) = test a

-- Field(pattern=IDENTIFIER_PATTERN.pattern, max_length=128)
unfoldable pub is_key : String → Bool
unfolding is_identifier has_length
is_key value = is_identifier value && has_length 0 128 value

digit : ℕ → String
digit d = slice "0123456789" d (d + 1)

decimal_from : ℕ → ℕ → String
decimal_from zero n = ""
decimal_from (suc fuel) n =
    let front = decimal_from fuel (n / 10) in if ltb n 10 then digit n else front ++ digit (n % 10)

-- str(n)
unfoldable pub decimal : ℕ → String
unfolding decimal_from digit
decimal n = decimal_from (suc n) n

-- f"{a}:{b}:…"
unfoldable pub colons : List String → String
colons [] = ""
colons (s ∷ []) = s
colons (s ∷ rest) = s ++ (":" ++ colons rest)

pub count_of_sha256 : (s : String) → is_sha256 s ≡ true → count s ≡ 64
unfolding is_sha256
count_of_sha256 s h = ground arith

-- A key made of a short prefix and a digest is short enough for its field.
pub has_length-prefixed :
    (prefix s : String)
    → count prefix ≤ 448
    → is_sha256 s ≡ true
    → has_length 1 512 (prefix ++ s) ≡ true
unfolding has_length
has_length-prefixed prefix s low h = ground (arith, count-append prefix s, count_of_sha256 s h)
