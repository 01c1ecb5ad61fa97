-- ===== src/Broker/Recorded.antt =====
-- The registry of registry.py is a dictionary from runs to their entries.
use memoriesql.Prelude.{
  ℕ, ◌≡◌, refl, sym, ap, subst, ◌∙◌, String, Bool, true, false, Option, none, some, [], value_error,
  string_eq, ◌==◌, eq→beq, beq→eq, ok, err, >>=-eq-ok, if◌then◌else◌,
}
use memoriesql.Capture.Host.{Uuid}
use memoriesql.Broker.Registry.{
  Entry, Runs, Platform, StartedRun, started_entry, lookup, assign_run, load_runs, store_runs,
  prune, record_run, owner_of, run_owner, close_entry, closed_runs, mark_closed,
}
use memoriesql.Broker.Lookup.{
  Unique, lookup-assign_run, lookup-sort_by, Unique-sort_by, Unique-assign_run, survives,
  prune-survives,
}

-- No key stands twice in the file, if there is one.
abbrev pub IsRegistry : Option Runs → Type 0
IsRegistry none = Unit
IsRegistry (some runs) = Unique runs

-- The entry of a run in a file.
abbrev pub found : String → Option Runs → Option Entry
found ref none = none
found ref (some runs) = lookup ref runs

module _ (py : Platform) where
  load_runs-found :
      (file : Option Runs) (runs : Runs)
      → IsRegistry file
      → load_runs py file ≡ ok runs
      → Unique runs × ((k : String) → lookup k runs ≡ found k file)
  unfolding load_runs lookup
  load_runs-found none runs valid h =
      let same : [] ≡ runs = cc h in
      subst (λ r. Unique r × ((k : String) → lookup k r ≡ none)) same (tt, λ k. refl)
  load_runs-found (some stored) runs valid h = go _ h
    where
      go :
          (c : Bool)
          → (if c then err (value_error "run registry exceeds its bound") else ok stored) ≡ ok runs
          → Unique runs × ((k : String) → lookup k runs ≡ lookup k stored)
      go true e = absurd (cc e)
      go false e =
          let same : stored ≡ runs = cc e in
          subst (λ r. Unique r × ((k : String) → lookup k r ≡ lookup k stored)) same
            (valid, λ k. refl)

  store_runs-found :
      (runs : Runs)
      → Unique runs
      → IsRegistry (store_runs py runs)
        × ((k : String) → found k (store_runs py runs) ≡ lookup k runs)
  unfolding store_runs
  store_runs-found runs unique =
      (Unique-sort_by py (λ x. x.0) runs unique, lookup-sort_by py (λ x. x.0) runs unique)

  -- Recording a run gives it its entry, leaves the entries of the other runs that expired less than
  -- a day ago, drops those of the others, and keeps one entry for each run.
  pub record_run-found :
      (moment : ℕ) (run : StartedRun) (credential : String) (workspace : Uuid)
      (file file' : Option Runs)
      → IsRegistry file
      → record_run py moment run credential workspace file ≡ ok file'
      → IsRegistry file'
        × ((k : String)
            → (kept : Option Entry) × (survives py moment (found k file) ≡ ok kept)
              × (found k file' ≡ (
                  if py.uuid_text run.run_ref == k
                  then some (started_entry run credential (py.uuid_text workspace))
                  else kept)))
  unfolding record_run
  record_run-found moment run credential workspace file file' valid h =
      let (runs, loaded, h1) = >>=-eq-ok (load_runs py file) _ h in
      let (kept, pruned, h2) = >>=-eq-ok (prune py moment runs) _ h1 in
      let (unique, same) = load_runs-found file runs valid loaded in
      let (unique', survive) = prune-survives py moment runs kept unique pruned in
      let entry = started_entry run credential (py.uuid_text workspace) in
      let ref = py.uuid_text run.run_ref in
      let (valid', stored) =
        store_runs-found (assign_run ref entry kept) (Unique-assign_run ref entry kept unique') in
      let written : store_runs py (assign_run ref entry kept) ≡ file' = cc h2 in
      subst
        (λ f.
          IsRegistry f
          × ((k : String)
              → (left : Option Entry) × (survives py moment (found k file) ≡ ok left)
                × (found k f ≡ (if ref == k then some entry else left))))
        written
        (
          valid',
          λ k. (
            lookup k kept,
            ap (survives py moment) (sym (same k)) ∙ survive k,
            stored k ∙ lookup-assign_run k ref entry kept,
          ),
        )

  run_owner-found :
      (ref : Uuid) (file : Option Runs) (runs : Runs)
      → IsRegistry file
      → load_runs py file ≡ ok runs
      → run_owner py ref file ≡ owner_of py (found (py.uuid_text ref) file)
  unfolding run_owner
  run_owner-found ref file runs valid loaded =
      rw loaded (ap (owner_of py) ((load_runs-found file runs valid loaded).1 (py.uuid_text ref)))

  -- After a run was recorded, its owner is the credential and the workspace that it was recorded
  -- with, if the file can be loaded.
  pub run_owner-record_run :
      (moment : ℕ) (run : StartedRun) (credential : String) (workspace : Uuid)
      (file file' : Option Runs) (runs : Runs)
      → IsRegistry file
      → record_run py moment run credential workspace file ≡ ok file'
      → load_runs py file' ≡ ok runs
      → run_owner py run.run_ref file' ≡ ok (some (credential, workspace))
  unfolding started_entry
  run_owner-record_run moment run credential workspace file file' runs valid h loaded =
      let (valid', entries) = record_run-found moment run credential workspace file file' valid h in
      let (kept, _, own) = entries (py.uuid_text run.run_ref) in
      let ref = py.uuid_text run.run_ref in
      run_owner-found run.run_ref file' runs valid' loaded
      ∙ ap (owner_of py) (
          own
          ∙ ap
              (λ c.
                if c then some (started_entry run credential (py.uuid_text workspace)) else kept)
              (eq→beq {A = String} ref ref refl))
      ∙ rw (py.parse_uuid-uuid_text workspace) refl

  abbrev pub closed_if : Bool → String → Option Entry → Option Entry
  closed_if c closed_at none = none
  closed_if true closed_at (some entry) = some (close_entry py closed_at entry)
  closed_if false closed_at (some entry) = some entry

  closed_if-absent :
      (k ref closed_at : String) (o : Option Entry)
      → (ref ≡ k → o ≡ none)
      → o ≡ closed_if (ref == k) closed_at o
  closed_if-absent k ref closed_at none h = refl
  closed_if-absent k ref closed_at (some entry) h = go _ refl
    where
      go : (c : Bool) → (ref == k) ≡ c → some entry ≡ closed_if c closed_at (some entry)
      go true e = absurd (cc (h (beq→eq {A = String} ref k e)))
      go false e = refl

  closed_if-there :
      (k ref closed_at : String) (entry : Entry) (o : Option Entry)
      → (ref ≡ k → o ≡ some entry)
      → (if ref == k then some (close_entry py closed_at entry) else o)
        ≡ closed_if (ref == k) closed_at o
  closed_if-there k ref closed_at entry o h = go _ refl
    where
      untouched : (o : Option Entry) → o ≡ closed_if false closed_at o
      untouched none = refl
      untouched (some other) = refl

      go :
          (c : Bool)
          → (ref == k) ≡ c
          → (if c then some (close_entry py closed_at entry) else o) ≡ closed_if c closed_at o
      go true e = sym (ap (closed_if true closed_at) (h (beq→eq {A = String} ref k e)))
      go false e = untouched o

  -- Closing a run marks its entry, if there is one, and leaves every other entry as it was.
  pub mark_closed-found :
      (ref : Uuid) (closed_at : String) (file file' : Option Runs)
      → IsRegistry file
      → mark_closed py ref closed_at file ≡ ok file'
      → IsRegistry file'
        × ((k : String)
            → found k file' ≡ closed_if (py.uuid_text ref == k) closed_at (found k file))
  unfolding mark_closed
  mark_closed-found ref closed_at file file' valid h =
      let (runs, loaded, h1) = >>=-eq-ok (load_runs py file) _ h in
      let (unique, same) = load_runs-found file runs valid loaded in
      let written : closed_runs py (py.uuid_text ref) closed_at (lookup (py.uuid_text ref) runs)
            runs file
          ≡ file' =
        cc h1 in
      subst
        (λ f.
          IsRegistry f
          × ((k : String) → found k f ≡ closed_if (py.uuid_text ref == k) closed_at (found k file)))
        written (go runs unique same (lookup (py.uuid_text ref) runs) refl)
    where
      go :
          (runs : Runs)
          → Unique runs
          → ((k : String) → lookup k runs ≡ found k file)
          → (o : Option Entry) → lookup (py.uuid_text ref) runs ≡ o
          → IsRegistry (closed_runs py (py.uuid_text ref) closed_at o runs file)
            × ((k : String)
                → found k (closed_runs py (py.uuid_text ref) closed_at o runs file)
                  ≡ closed_if (py.uuid_text ref == k) closed_at (found k file))
      go runs unique same none absent = (
        valid,
        λ k.
            closed_if-absent k (py.uuid_text ref) closed_at (found k file)
              (λ e. sym (same k) ∙ ap (λ x. lookup x runs) (sym e) ∙ absent),
      )
      go runs unique same (some entry) there =
          let (valid', stored) =
            store_runs-found (assign_run (py.uuid_text ref) (close_entry py closed_at entry) runs)
              (Unique-assign_run (py.uuid_text ref) (close_entry py closed_at entry) runs unique) in
          (
            valid',
            λ k.
                stored k
                ∙ lookup-assign_run k (py.uuid_text ref) (close_entry py closed_at entry) runs
                ∙ ap
                    (λ o.
                      if py.uuid_text ref == k then some (close_entry py closed_at entry) else o)
                    (same k)
                ∙ closed_if-there k (py.uuid_text ref) closed_at entry (found k file)
                    (λ e. sym (same k) ∙ ap (λ x. lookup x runs) (sym e) ∙ there),
          )
