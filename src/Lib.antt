-- ===== src/Lib.antt =====
-- memoriesQL keeps the bytes of conversation transcripts and derives records from them. This
-- library models the part that takes the bytes in, `src/memoriesql/application/capture`, the
-- composition of modules in `src/memoriesql/application/module_registry.py`, the contracts of
-- model accounting in `src/memoriesql/application/model_accounting.py` and of managed turns in
-- `src/memoriesql/application/managed_dispatch.py`, the host's record of runs in
-- `src/memoriesql/infrastructure/results_broker/registry.py`, and the retry of transactions in
-- `src/memoriesql/infrastructure/postgres/transient_retry.py`.
--
-- How the parts interact. A host helper answers bounded reads of one file (host_protocol.py). The
-- raw capture loop (source_range.py) asks it for the bytes at its cursor, cuts them into hashed
-- chunks, submits them as one command, and moves its cursor when a durable receipt answers that
-- command. The transcript fold (transcript_fold.py) reads the retained ranges back, frames them
-- into complete records, makes outcomes of them whose lineage names the retained bytes, and
-- commits those as one command against its own cursor.
--
-- Prelude: shared names, Boolean tests, lists over the native numbers, and validators. A contract
-- model's constraints and its `model_validator` are one list of rules in the order of the code,
-- `check`; `require condition message` is `if not condition: raise ValueError(message)`, `field`
-- a constraint on a field. Where the contract framework would report several errors at once, the
-- model keeps the first. `Result` holds what a call returns or raises.
--
-- Contracts: the text patterns of domain/module_manifest.py and
-- application/semantic_task_contracts.py (Text), hexadecimal payloads (Hex), and as parameters
-- what the code takes from its platform (Runtime: SHA-256, text encoding, canonical JSON, UUID
-- text, base64). Of those parameters it is assumed that a hex digest is 64 hexadecimal digits and
-- that base64 decoding undoes encoding; nothing is assumed about collisions. `Exec` is the monad
-- of calls on ports that keep a state: the state comes back beside an error too.
--
-- Capture.Host: FileIdentity, HostReadRequest, HostReadResponse. Capture.Range: Command and
-- Cursor are the contract models of source_range.py, Build is build_capture_source_range_command,
-- Loop is RawSourceCaptureLoop (`create`, `run_once`, `run_until_pause`); the ports (host reader,
-- kernel, cursor store, uuid4) are a record of parameters. Capture.Fold: Source, Outcome, Command
-- and Cursor are the contract models of transcript_fold.py, Frame is _frame_complete_records,
-- Exact is _slice_lineage and _read_exact, Commit is validate_fold and
-- build_transcript_fold_command, State is the cursor's validator, _updated_state, _validate_read
-- and _validate_receipt, Sealed is _commit_sealed_pending_span with _health, Adapter is
-- QualifiedTranscriptFoldAdapter with _qualified_adapter, Records is the loop of run_once over
-- the records, Settle and Resolve are what follows that loop (fallback, command, final cursor),
-- Migrate is _migrate_legacy_cursor, and Run is the constructor and run_once itself. Reads has
-- the sequences of calls of the read port alone. An adapter's callables are functions of their
-- arguments; the ports may keep a state.
--
-- Modules: the states that BuiltInModuleRegistry.compose (application/module_registry.py) gives
-- the modules of a composition. Compose has the initial states and the loop; the identifiers that
-- a module requires are a function, and the sorted selection a list. Versions has the versions
-- and ranges of `src/memoriesql/domain/module_manifest.py`, built rather than parsed, with the
-- theorem in Allowed.
--
-- Broker: Registry is the record of runs that the trusted host started; the file is what it
-- holds, each operation under the lock is one step, and times, UUID texts, the order of texts and
-- the size of the JSON document are parameters, of which it is assumed that a UUID is parsed from
-- its own text. Lookup has what a lookup finds after an assignment, a sort and a pruning,
-- Recorded the theorems. Postgres: Retry is run_owned with the classification of errors; the
-- transaction and the pause are parameters, Contention says which errors are those of lock
-- contention, and Retried relates the loop to the runs that it makes.
--
-- Accounting: the contract models of `src/memoriesql/application/model_accounting.py`. Target has
-- targets, usage, prices and qualifications, Intent the intent that is recorded before a request,
-- Event what is recorded after it, Forecast the forecasts of bulk usage, and Cash and Forecasted
-- the theorems on them. Observation has the observations of managed turns of
-- `src/memoriesql/application/managed_dispatch.py` and the event that carries one, with the
-- theorems in Accounted and Once; Dispatch has the routes, qualifications and intents of managed
-- turns, with the theorem in Dispatched; `str` on a UUID is a parameter. Where the order of the
-- branches of a validator only chooses between its errors, a rule for each stands in the list.
--
-- Numbers, texts, fuel. Integers constrained to be at least 0 are natural numbers, and a
-- difference that could be negative in the code is guarded by the order that the code relies on.
-- A `payload_hex` is the list of its character codes, other texts are strings, a UUID is its
-- number. split_chunks has as many rounds as the payload has bytes, and frame_complete_records
-- likewise, since each round takes at least one byte. The loop of a composition has one round
-- more than there are modules, since each round but the last degrades one. The migration of a
-- legacy cursor has as many rounds as there are acknowledged bytes, since each round acknowledges
-- one byte or more. Other loops are structural.
--
-- Not modelled: `model_dump` of a command (a parameter), the parse of a conversation envelope (a
-- parameter of the outcome's validator), what an adapter's assembler and envelope builder compute
-- (parameters), the database adapters behind the ports, the module registry beside the states of
-- a composition, and the other components of the program, such as agent SQL and the rest of the
-- results broker.
pub mod Prelude
pub mod Contracts
pub mod Capture
pub mod Modules
pub mod Accounting
pub mod Postgres
pub mod Broker
