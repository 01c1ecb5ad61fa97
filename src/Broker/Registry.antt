-- ===== src/Broker/Registry.antt =====
-- registry.py of the results broker: the record of the runs that the host started. The state is
-- what `runs.json` holds; a lock makes every operation one step. `Platform` is what is called of
-- Python's library.
use memoriesql.Prelude.{
  ℕ, ◌+◌, ◌≡◌, String, Bool, true, false, Option, none, some, List, [], ◌∷◌, ltb, string_eq, ◌==◌,
  is_none, value_error, Result, ok, err, ◌>>=◌, if◌then◌else◌,
}
use memoriesql.Capture.Host.{Uuid}

abbrev pub max_registry_bytes : ℕ
max_registry_bytes = 4194304

-- One entry of the registry: a JSON object with these keys, `closed_at` only once it is closed.
pub record Entry : Type 0 where
  pub credential_sha256 : String
  pub workspace_id : String
  pub started_at : String
  pub expires_at : String
  pub closed_at : Option String

abbrev pub Runs : Type 0
Runs = List (String × Entry)

pub record Platform : Type 0 where
  -- str(uuid), and UUID(text), which raises for a text that is none
  pub uuid_text : Uuid → String
  pub parse_uuid : String → Result Uuid
  -- `_time`: datetime.fromisoformat of a text with an offset, in seconds
  pub time_of : String → Result ℕ
  -- a <= b on texts
  pub text_le : String → String → Bool
  -- len(json.dumps(runs, sort_keys=True).encode("utf-8"))
  pub dumped_size : Runs → ℕ
  pub parse_uuid-uuid_text : (u : Uuid) → parse_uuid (uuid_text u) ≡ ok u

-- _RETAIN_AFTER_EXPIRY, in seconds
abbrev pub retain_after_expiry : ℕ
retain_after_expiry = 86400

-- runs.get(ref)
unfoldable pub lookup : String → Runs → Option Entry
lookup ref [] = none
lookup ref ((key, entry) ∷ runs) =
    let rest = lookup ref runs in if key == ref then some entry else rest

-- runs[ref] = entry
unfoldable pub assign_run : String → Entry → Runs → Runs
assign_run ref entry [] = (ref, entry) ∷ []
assign_run ref entry ((key, other) ∷ runs) =
    let rest = assign_run ref entry runs in
    if key == ref then (key, entry) ∷ runs else (key, other) ∷ rest

-- The run as the kernel reports it, with the fields that are used.
pub record StartedRun : Type 0 where
  pub run_ref : Uuid
  pub started_at : String
  pub expires_at : String

unfoldable pub started_entry : StartedRun → String → String → Entry
started_entry run credential_sha256 workspace = record {
  credential_sha256 = credential_sha256;
  workspace_id = workspace;
  started_at = run.started_at;
  expires_at = run.expires_at;
  closed_at = none;
}

abbrev pub kept_entry : Bool → String × Entry → Runs → Runs
kept_entry true x runs = x ∷ runs
kept_entry false x runs = runs

module _ (py : Platform) where
  open py use {uuid_text, parse_uuid, time_of, text_le, dumped_size}

  -- sorted(…) by a text of each element, stable
  unfoldable pub insert_sorted : (String × Entry → String) → String × Entry → Runs → Runs
  insert_sorted key x [] = x ∷ []
  insert_sorted key x (y ∷ runs) =
      let rest = insert_sorted key x runs in
      if text_le (key x) (key y) then x ∷ y ∷ runs else y ∷ rest

  unfoldable pub sort_by : (String × Entry → String) → Runs → Runs
  unfolding insert_sorted
  sort_by key [] = []
  sort_by key (x ∷ runs) = insert_sorted key x (sort_by key runs)

  -- `_load`, from what the file holds, if there is one
  unfoldable pub load_runs : Option Runs → Result Runs
  load_runs none = ok []
  load_runs (some runs) =
      if ltb max_registry_bytes (dumped_size runs)
      then err (value_error "run registry exceeds its bound")
      else ok runs

  -- `_store`: the keys are sorted in the file.
  unfoldable pub store_runs : Runs → Option Runs
  unfolding sort_by
  store_runs runs = some (sort_by (λ x. x.0) runs)

  -- The entries of which a day after expiry is later than `moment`.
  unfoldable pub prune : ℕ → Runs → Result Runs
  prune moment [] = ok []
  prune moment (x ∷ runs) = do
    expires ← time_of x.1.expires_at
    rest ← prune moment runs
    ok (kept_entry (ltb moment (expires + retain_after_expiry)) x rest)

  unfoldable pub record_run : ℕ → StartedRun → String → Uuid → Option Runs → Result (Option Runs)
  unfolding load_runs prune assign_run store_runs started_entry
  record_run moment run credential_sha256 workspace_id file = do
    runs ← load_runs file
    kept ← prune moment runs
    ok (
        store_runs (
          assign_run (uuid_text run.run_ref)
            (started_entry run credential_sha256 (uuid_text workspace_id)) kept))

  abbrev pub owner_of : Option Entry → Result (Option (String × Uuid))
  owner_of none = ok none
  owner_of (some entry) = do
    workspace ← parse_uuid entry.workspace_id
    ok (some (entry.credential_sha256, workspace))

  unfoldable pub run_owner : Uuid → Option Runs → Result (Option (String × Uuid))
  unfolding load_runs lookup
  run_owner run_ref file = do runs ← load_runs file; owner_of (lookup (uuid_text run_ref) runs)

  unfoldable pub close_entry : String → Entry → Entry
  close_entry closed_at entry = record entry { closed_at = some closed_at }

  abbrev pub closed_runs : String → String → Option Entry → Runs → Option Runs → Option Runs
  closed_runs ref closed_at none runs file = file
  closed_runs ref closed_at (some entry) runs file =
      store_runs (assign_run ref (close_entry closed_at entry) runs)

  unfoldable pub mark_closed : Uuid → String → Option Runs → Result (Option Runs)
  unfolding load_runs lookup assign_run store_runs close_entry
  mark_closed run_ref closed_at file = do
    runs ← load_runs file
    ok (closed_runs (uuid_text run_ref) closed_at (lookup (uuid_text run_ref) runs) runs file)

  -- An item of the operator's listing.
  pub record ListedRun : Type 0 where
    pub run_ref : String
    pub workspace_id : String
    pub started_at : String
    pub expires_at : String
    pub closed_at : Option String
    pub active : Bool

  unfoldable pub list_run : ℕ → String × Entry → Result ListedRun
  list_run moment (ref, entry) = do
    active ← if is_none entry.closed_at then still_open else ok false
    ok (record {
      run_ref = ref;
      workspace_id = entry.workspace_id;
      started_at = entry.started_at;
      expires_at = entry.expires_at;
      closed_at = entry.closed_at;
      active = active;
    })
    where
      still_open : Result Bool
      still_open = do expires ← time_of entry.expires_at; ok (ltb moment expires)

  unfoldable pub list_runs : ℕ → Runs → Result (List ListedRun)
  unfolding list_run
  list_runs moment [] = ok []
  list_runs moment (x ∷ runs) = do
    item ← list_run moment x
    rest ← list_runs moment runs
    ok (item ∷ rest)

  unfoldable pub recorded_runs : ℕ → Option Runs → Result (List ListedRun)
  unfolding load_runs sort_by list_runs
  recorded_runs moment file = do
    runs ← load_runs file
    list_runs moment (sort_by (λ x. x.1.started_at) runs)

  unfoldable pub in_workspace : String → Runs → Runs
  in_workspace workspace [] = []
  in_workspace workspace (x ∷ runs) =
      kept_entry (x.1.workspace_id == workspace) x (in_workspace workspace runs)

  -- entries[-1], if there is one
  unfoldable pub last_credential : Option String → Runs → Option String
  last_credential last [] = last
  last_credential last (x ∷ runs) = last_credential (some x.1.credential_sha256) runs

  unfoldable pub latest_principal : Uuid → Option Runs → Result (Option String)
  unfolding load_runs in_workspace sort_by last_credential
  latest_principal workspace_id file = do
    runs ← load_runs file
    ok (
        last_credential none
          (sort_by (λ x. x.1.started_at) (in_workspace (uuid_text workspace_id) runs)))
