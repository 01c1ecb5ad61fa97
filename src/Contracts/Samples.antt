-- ===== src/Contracts/Samples.antt =====
-- A runtime for tests: a digest that tells odd lengths from even ones, and an encoding of bytes as
-- a text in unary.
use Prim.Native.Char.{code}
use memoriesql.Prelude.{
  ℕ, zero, suc, ◌+◌, ◌≡◌, refl, ap, ◌∙◌, arith, Bool, true, false, not, some, String, List, [], ◌∷◌,
  eqb, if◌then◌else◌,
}
use memoriesql.Contracts.Text.{is_sha256}
use memoriesql.Contracts.Runtime.{Runtime}

pub is_even : List ℕ → Bool
is_even [] = true
is_even (_ ∷ bytes) = not (is_even bytes)

pub digest_of : Bool → String
digest_of true = "0000000000000000000000000000000000000000000000000000000000000000"
digest_of false = "ffffffffffffffffffffffffffffffffffffffffffffffffffffffffffffffff"

pub is_sha256-digest_of : (b : Bool) → is_sha256 (digest_of b) ≡ true
unfolding is_sha256 digest_of
is_sha256-digest_of true = refl
is_sha256-digest_of false = refl

marks : ℕ → String → String
marks zero rest = String.◌∷◌ "." rest
marks (suc n) rest = String.◌∷◌ "x" (marks n rest)

pub unary : List ℕ → String
unfolding marks
unary [] = ""
unary (b ∷ bytes) = marks b (unary bytes)

-- The bytes of a text, of which `n` marks are read.
pub from_unary : ℕ → String → List ℕ
from_unary n String.[] = []
from_unary n (String.◌∷◌ c s) =
    let more = from_unary (n + 1) s in
    let next = n ∷ from_unary 0 s in if eqb (code c) b'x' then more else next

from_unary-marks :
    (n b : ℕ) (rest : String) → from_unary n (marks b rest) ≡ (n + b) ∷ from_unary 0 rest
unfolding from_unary marks
from_unary-marks n zero rest = ap (λ m. m ∷ from_unary 0 rest) (omega arith)
from_unary-marks n (suc b) rest =
    from_unary-marks (n + 1) b rest ∙ ap (λ m. m ∷ from_unary 0 rest) (omega arith)

pub from_unary-unary : (bytes : List ℕ) → from_unary 0 (unary bytes) ≡ bytes
unfolding from_unary unary
from_unary-unary [] = refl
from_unary-unary (b ∷ bytes) =
    from_unary-marks 0 b (unary bytes)
    ∙ (ap (λ m. m ∷ from_unary 0 (unary bytes)) (omega arith)
        ∙ ap (λ l. b ∷ l) (from_unary-unary bytes))

text_codes : String → List ℕ
text_codes String.[] = []
text_codes (String.◌∷◌ c s) = code c ∷ text_codes s

unfoldable pub sample_runtime : Runtime
unfolding is_even digest_of unary from_unary text_codes
sample_runtime = record {
  sha256 = λ bytes. digest_of (is_even bytes);
  encode = text_codes;
  canonical_json_bytes = λ value. b'{' ∷ b'}' ∷ [];
  uuid_text = λ u. "00000000-0000-0000-0000-000000000000";
  b64encode = unary;
  b64decode = λ text. some (from_unary 0 text);
  sha256_form = λ bytes. is_sha256-digest_of (is_even bytes);
  b64decode-b64encode = λ bytes. ap some (from_unary-unary bytes);
}
