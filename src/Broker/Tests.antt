-- ===== src/Broker/Tests.antt =====
-- A registry with a run that expired long ago and one that did not.
use memoriesql.Prelude.{
  ℕ, zero, suc, ap, leb, ◌≡◌, refl, String, Option, none, some, [], ◌∷◌, length, string_eq, ◌==◌,
  ok, if◌then◌else◌,
}
use memoriesql.Capture.Host.{Uuid}
use memoriesql.Broker.Registry.{
  Entry, Runs, Platform, StartedRun, started_entry, lookup, load_runs, prune, record_run, run_owner,
  mark_closed, sort_by, store_runs, assign_run, insert_sorted, close_entry,
}
use memoriesql.Broker.Lookup.{survives}
use memoriesql.Broker.Recorded.{
  IsRegistry, found, record_run-found, run_owner-record_run, closed_if, mark_closed-found,
}

-- Identifiers and times in unary.
marks : Uuid → String
marks zero = ""
marks (suc n) = String.◌∷◌ "x" (marks n)

count_marks : String → ℕ
count_marks String.[] = 0
count_marks (String.◌∷◌ c s) = suc (count_marks s)

count_marks-marks : (u : Uuid) → count_marks (marks u) ≡ u
unfolding marks count_marks
count_marks-marks zero = refl
count_marks-marks (suc n) = ap suc (count_marks-marks n)

platform : Platform
unfolding marks count_marks
platform = record {
  uuid_text = marks;
  parse_uuid = λ text. ok (count_marks text);
  time_of = λ text. ok (count_marks text);
  text_le = λ a b. leb (count_marks a) (count_marks b);
  dumped_size = λ runs. length runs;
  parse_uuid-uuid_text = λ u. ap ok (count_marks-marks u);
}

-- It expired at the time zero.
abbrev old_entry : Entry
old_entry = record {
  credential_sha256 = "old";
  workspace_id = "x";
  started_at = "";
  expires_at = "";
  closed_at = none;
}

abbrev file : Option Runs
file = some (("xxx", old_entry) ∷ [])

abbrev run : StartedRun
run = record { run_ref = 2; started_at = "x"; expires_at = "xx" }

abbrev written : Option Runs
written = some (("xx", started_entry run "digest" "x") ∷ [])

record_run-found_example :
    IsRegistry written
    × ((k : String)
        → (kept : Option Entry) × (survives platform 100000 (found k file) ≡ ok kept)
          × (found k written ≡ (if "xx" == k then some (started_entry run "digest" "x") else kept)))
unfolding record_run load_runs prune assign_run store_runs sort_by insert_sorted started_entry
    platform marks count_marks lookup
record_run-found_example =
    record_run-found platform 100000 run "digest" 1 file written (refl, tt) refl

run_owner-record_run_example : run_owner platform 2 written ≡ ok (some ("digest", 1))
unfolding record_run load_runs prune assign_run store_runs sort_by insert_sorted started_entry
    platform marks count_marks lookup
run_owner-record_run_example =
    run_owner-record_run platform 100000 run "digest" 1 file written
      (("xx", started_entry run "digest" "x") ∷ []) (refl, tt) refl refl

abbrev closed : Option Runs
closed = some (("xx", close_entry platform "y" (started_entry run "digest" "x")) ∷ [])

mark_closed-found_example :
    IsRegistry closed
    × ((k : String) → found k closed ≡ closed_if platform ("xx" == k) "y" (found k written))
unfolding mark_closed load_runs assign_run store_runs sort_by insert_sorted started_entry platform
    marks count_marks lookup
mark_closed-found_example = mark_closed-found platform 2 "y" written closed (refl, tt) refl
