-- ===== src/Modules/Versions.antt =====
-- Versions of modules and their ranges, from src/memoriesql/domain/module_manifest.py.
use memoriesql.Prelude.{
  ℕ, String, Bool, true, false, ◌&&◌, ◌||◌, List, [], ◌∷◌, ltb, leb, string_eq, nat_eq, ◌==◌,
  Result, ok, err, value_error, ◌>>=◌, if◌then◌else◌,
}

pub record SemanticVersion : Type 0 where
  pub major : ℕ
  pub minor : ℕ
  pub patch : ℕ

-- The order of a dataclass is that of the tuples of its fields.
unfoldable pub version_ltb : SemanticVersion → SemanticVersion → Bool
version_ltb v w =
    ltb v.major w.major
    || (v.major == w.major && (ltb v.minor w.minor || (v.minor == w.minor && ltb v.patch w.patch)))

unfoldable pub version_leb : SemanticVersion → SemanticVersion → Bool
version_leb v w =
    ltb v.major w.major
    || (v.major == w.major && (ltb v.minor w.minor || (v.minor == w.minor && leb v.patch w.patch)))

unfoldable pub same_version : SemanticVersion → SemanticVersion → Bool
same_version v w = v.major == w.major && (v.minor == w.minor && v.patch == w.patch)

pub record VersionConstraint : Type 0 where
  pub operator : String
  pub version : SemanticVersion

unfoldable pub constraint_allows : VersionConstraint → SemanticVersion → Result Bool
unfolding version_ltb version_leb same_version
constraint_allows c candidate =
    if c.operator == ">="
    then ok (version_leb c.version candidate)
    else if c.operator == "<="
    then ok (version_leb candidate c.version)
    else if c.operator == ">"
    then ok (version_ltb c.version candidate)
    else if c.operator == "<"
    then ok (version_ltb candidate c.version)
    else if c.operator == "=="
    then ok (same_version candidate c.version)
    else err (value_error "unsupported version operator")

-- all(…): a constraint that does not allow the candidate ends the loop
unfoldable pub range_allows : List VersionConstraint → SemanticVersion → Result Bool
unfolding constraint_allows
range_allows [] candidate = ok true
range_allows (c ∷ constraints) candidate =
    let rest = range_allows constraints candidate in
    do allowed ← constraint_allows c candidate; (if allowed then rest else ok false)
