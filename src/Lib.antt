-- ===== src/Lib.antt =====
-- The durable composition owner of ZWorkbench, src/zworkbench/composition.py: one SQLite database
-- that holds runs, approvals, effects, evidence and ledgers, and the class `CompositionOwner`, the
-- only writer of it; and the parts of the Worker's boundary that decide without doing: the wire
-- contract, the registry of resident services, the heartbeat, the credential scan, the reading of a
-- child's output and the table of providers. Adapters, the bridge, the command line and the seams,
-- which call them, are not modelled.
--
-- The files and the code:
--   Common          the tables as lists (find, update, select, count), unique keys, texts, integers
--   Json            JSON values, `_canonical_json`, and Python's truth test and `dict.get`
--   Credentials     `_reject_raw_credentials`, `_reject_secret_shaped_values`, `_SECRET_VALUE`
--   Exec            methods that read and change the owner and may raise; Exec/Does has triples
--   Owner/State     the rows of `_initialize_schema`, the fields of the owner, the environment
--   Owner/Core      `_transaction`, validation, `_set_run_status`, `_append_event`,
--                   `_record_result_tx`
--   Owner/Runs      `create_run` to `get_run`
--   Owner/Approvals `request_approval`, `approve`, `deny_approval`
--   Owner/Claim     `claim_effect`: Request (arguments, refusals), Existing (retry of a known
--                   effect), Bounds (declared exposure), Token (approval), Fresh (insertion)
--   Owner/Effects   `complete_effect`, `mark_effect_uncertain`, `reconcile_effect`
--   Owner/Exposures `declare_exposure`, `get_declared_exposure`
--   Owner/Identity, Owner/Judgment
--                   `detect_identity_violations`, `safe_stop_on_identity_violation`,
--                   `reconcile_identity`
--   Owner/Evidence  `record_result`, `record_event`, `record_replay_metadata`
--   Owner/Retries   the retry budgets of the Provider, DSH and Worker layers, whose methods have
--                   the same code over their own tables
--   Owner/Ledgers   the restart budget, provider attempts and the provider access gate
--   Owner/Exits, Owner/Fallbacks
--                   the ledgers of Provider exits and fallbacks, `record_provider_exit_ledger` to
--                   `provider_fallback_ledger_for_run`
--   Owner/Listings  the readings of the ledgers and budgets, and of the events
--   Owner/Auth      caller authentication, `close`, and the opening of an existing database
--   Owner/Api       every one of these methods as a call, and histories of calls
--   Owner/Change, Owner/Aside
--                   the contract: what one statement may do to the database, and under which guard,
--                   to the core tables and to those beside them; Owner/Rules and the files named
--                   Follow show that the methods keep to it
--   Owner/Invariants, Owner/Locked, Owner/Atomic
--                   what follows for histories, for an owner without its caller, and for errors
--   Worker          the messages between the DSH runtime and a Worker, src/zworkbench/worker_contract.py:
--                   Base (`_text`, `_mapping`, `_reject_secrets`), Identity, Provider, Component,
--                   Capability and Envelope (the classes, `from_dict` and `to_dict`), Completion
--                   (`validate_worker_completion`), Facade (`CapabilityFacade`); Ensures says what is
--                   known of a value that a check lets through
--   Resident        the registry of resident services, src/zworkbench/resident_service_registry.py,
--                   which the owner holds and the adapters call
--   Heartbeat       `heartbeat_lost` and `HeartbeatMonitor`, src/zworkbench/worker_heartbeat.py
--   Scan            src/zworkbench/credential_scan.py, which the bridge calls; Scan/Owner compares it
--                   with the owner's scan
--   Supervisor      `LineStreamSupervisor.read` of src/zworkbench/subprocess_supervisor.py, which the
--                   adapters call; Cut cuts a buffer into lines, Kept and Lines say what they are
--   Providers       the table of providers, their transports and their backends,
--                   src/zworkbench/provider_vocabulary.py
--   Tests           histories that are run
--
-- A method is a function from the owner to a result or an exception, and the owner after it. What
-- was written stays when it raises; only `_transaction` undoes it. The clock, `uuid`, `secrets`,
-- `hashlib`, `repr` and `pathlib` are the parameter `Env`, of which nothing is assumed: a drawn
-- identity may be taken, and then the constraint of the table raises, as in SQLite. Timestamps are
-- numbers of milliseconds. The messages of exceptions are left out. Only `deliver`, the loop over
-- the lines of a buffer, has fuel: as much as the buffer has bytes, and each round takes one or more.
--
-- The wire contract is read from JSON values, as `json.loads` yields them; `json.loads` itself is a
-- parameter. A monitor's thread is run on the list of its polls, and the registry's methods are single
-- steps, since each holds its lock. The reading of a child's output is run on the list of its turns:
-- what the clock, the selector, the pipes and the callbacks give. Readings of a monotonic clock are
-- whole numbers of ticks.
--
-- Not modelled: backup, restore, export, snapshot and the integrity check (files and SQLite), the
-- state digest, arguments of a wrong Python type (but for the values that the stored JSON can
-- hold), a home directory in a path, other processes that write the same database, `json.dumps`,
-- a lifetime of a token beyond the range of a date, the thread of a heartbeat and callbacks that
-- raise, the signals that end a process, and the rest of the repository: the command line, the
-- adapters, the worker bridge, the seams, the evaluation runners and the desktop application.
pub mod Common
pub mod Json
pub mod Credentials
pub mod Exec
pub mod Owner
pub mod Worker
pub mod Resident
pub mod Heartbeat
pub mod Scan
pub mod Supervisor
pub mod Providers
pub mod Tests
