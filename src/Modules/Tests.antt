-- ===== src/Modules/Tests.antt =====
-- Three modules in a row and one apart, of which the first is disabled; a range of versions.
use memoriesql.Prelude.{◌≡◌, String, ◌==◌, string_eq, some, List, [], ◌∷◌, if◌then◌else◌}
use memoriesql.Prelude.{ℕ, ◌↔◌, true, ok}
use memoriesql.Modules.Versions.{SemanticVersion, VersionConstraint, range_allows}
use memoriesql.Modules.Allowed.{MeetsAll, range_allows-MeetsAll}
use memoriesql.Modules.Compose.{States, initial_states, compose_states}
use memoriesql.Modules.Settled.{Settled, compose_states-Settled}

abbrev requires : String → List String
requires module_id =
    if module_id == "beads"
    then "capture" ∷ []
    else if module_id == "claims"
    then "beads" ∷ []
    else []

abbrev selected : List String
selected = "beads" ∷ "capture" ∷ "claims" ∷ "views" ∷ []

compose_states-Settled_example :
    (final : States) × (compose_states requires selected ("capture" ∷ []) [] ≡ some final)
    × Settled requires selected (initial_states selected ("capture" ∷ []) []) final
compose_states-Settled_example = compose_states-Settled requires selected ("capture" ∷ []) []

abbrev version : ℕ → ℕ → ℕ → SemanticVersion
version major minor patch = record { major = major; minor = minor; patch = patch }

abbrev supported : List VersionConstraint
supported =
    record { operator = ">="; version = version 1 2 0 }
    ∷ record { operator = "<"; version = version 2 0 0 }
    ∷ []

range_allows-MeetsAll_example :
    (range_allows supported (version 1 5 3) ≡ ok true) ↔ MeetsAll (version 1 5 3) supported
range_allows-MeetsAll_example = range_allows-MeetsAll supported (version 1 5 3)
