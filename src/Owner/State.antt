-- ===== src/Owner/State.antt =====
-- The rows of the owner's database (src/zworkbench/composition.py, `_initialize_schema`), the
-- in-memory fields of `CompositionOwner`, and what it takes from outside.
-- A timestamp is its number of milliseconds: the owner writes all of them in one ISO format, whose
-- texts are ordered as those numbers are.
use zworkbench.Common.{ℕ, String, Bool, false, Option, none, List, []}
use zworkbench.Common.Int.{ℤ}
use zworkbench.Json.{Value, Fields, Items}

pub data RunStatus : Type 0 where
  created running waiting_approval recovering completed failed safe_stopped : RunStatus

pub data ApprovalStatus : Type 0 where
  pending approved denied consumed : ApprovalStatus

pub data EffectStatus : Type 0 where
  claimed completed uncertain retryable unknown : EffectStatus

pub data AttemptStatus : Type 0 where
  claimed succeeded uncertain reconciled_applied reconciled_not_applied reconciled_unknown :
      AttemptStatus

pub data Bound : Type 0 where
  undeclared enforced : Bound

pub record Run : Type 0 where
  pub run_id : String
  pub task_type : String
  pub input : Value
  pub metadata : Fields
  pub status : RunStatus
  pub created_at : ℕ
  pub updated_at : ℕ

pub record Approval : Type 0 where
  pub approval_id : String
  pub run_id : String
  pub operation_id : String
  pub action : String
  pub resource : String
  pub idempotency_key : String
  pub reason : String
  pub status : ApprovalStatus
  pub token_hash : Option String
  pub expires_at : Option ℕ
  pub created_at : ℕ
  pub decided_at : Option ℕ
  pub decision_reason : Option String
  pub consumed_at : Option ℕ

pub record Effect : Type 0 where
  pub effect_id : String
  pub run_id : String
  pub operation_id : String
  pub idempotency_key : String
  pub effect_class : String
  pub action : String
  pub resource : String
  pub status : EffectStatus
  pub attempt : ℕ
  pub max_attempts : ℕ
  pub physical_effect_count : ℕ
  pub approval_id : Option String
  pub external_receipt : Option Value
  pub last_error : Option Value
  pub created_at : ℕ
  pub updated_at : ℕ

pub record Exposure : Type 0 where
  pub run_id : String
  pub declared_side_effects : List String
  pub exposure : Fields
  pub declared_at : ℕ

pub record Attempt : Type 0 where
  pub effect_id : String
  pub attempt : ℕ
  pub status : AttemptStatus
  pub started_at : ℕ
  pub finished_at : Option ℕ
  pub result : Option Value
  pub error : Option Value

pub record ResultRow : Type 0 where
  pub result_id : String
  pub run_id : String
  pub kind : String
  pub value : Value
  pub source_id : Option String
  pub evidence_source : String
  pub created_at : ℕ

pub record Replay : Type 0 where
  pub replay_id : String
  pub run_id : String
  pub mode : String
  pub source_event_digest : String
  pub environment_digest : String
  pub provider_identity : Value
  pub metadata : Value
  pub created_at : ℕ

-- The position in the list is `seq`.
pub record Event : Type 0 where
  pub event_id : String
  pub run_id : String
  pub event_type : String
  pub payload : Value
  pub evidence_source : String
  pub created_at : ℕ

pub record ProviderExit : Type 0 where
  pub ledger_id : String
  pub run_id : String
  pub provider : String
  pub endpoint : String
  pub account_scope : String
  pub exit_mode : String
  pub exit_status : String
  pub provider_remote_zero_residue : String
  pub surface_observations : Fields
  pub statuses : Fields
  pub unknown_fields : Items
  pub local_state_fingerprint : String
  pub evidence_class : String
  pub recorded_at : ℕ

pub record ProviderFallback : Type 0 where
  pub ledger_id : String
  pub run_id : String
  pub from_provider : Option String
  pub to_provider : Option String
  pub reason : String
  pub degradation_mode : String
  pub attempt : ℕ
  pub failure_code : Option String
  pub http_status : Option ℤ
  pub local_state_fingerprint : String
  pub recorded_at : ℕ

pub record ProviderAttempt : Type 0 where
  pub ledger_id : String
  pub run_id : String
  pub provider_id : String
  pub request_id : String
  pub attempt_number : ℕ
  pub status : String
  pub failure_code : Option String
  pub recorded_at : ℕ

-- A row of `provider_retry_budget`, `dsh_retry_budget` or `worker_retry_budget`, whose key is
-- `subject`; in `run_restart_budget` the key is the run and the ceiling is `max_restarts`.
pub record Budget : Type 0 where
  pub subject : String
  pub max_retries : ℕ
  pub declared_by : String
  pub declared_at : ℕ

-- A row of one of the three `*_retry_budget_ledger` tables.
pub record Consumption : Type 0 where
  pub ledger_id : String
  pub run_id : String
  pub subject : String
  pub request_id : String
  pub attempt_number : ℕ
  pub failure_class : String
  pub target : Option String
  pub reason : String
  pub bound : Bound
  pub recorded_at : ℕ

pub record Restart : Type 0 where
  pub ledger_id : String
  pub run_id : String
  pub request_id : String
  pub attempt_number : ℕ
  pub trigger : String
  pub reason : String
  pub bound : Bound
  pub recorded_at : ℕ

pub record AccessGate : Type 0 where
  pub ledger_id : String
  pub run_id : String
  pub classification : String
  pub gate_enabled : Bool
  pub reason : String
  pub provider_id : Option String
  pub profile_name : Option String
  pub recorded_at : ℕ

-- A caller's status is always 'active'.
pub record Caller : Type 0 where
  pub caller_id : String
  pub caller_token_hash : String
  pub created_at : ℕ

pub record SessionRow : Type 0 where
  pub session_id : String
  pub caller_id : String
  pub token_hash : String
  pub created_at : ℕ
  pub expires_at : ℕ

-- The budget table of one layer, and its ledger.
pub record RetryTables : Type 0 where
  pub budgets : List Budget
  pub ledger : List Consumption

pub record Db : Type 0 where
  -- the key 'caller_auth_required' of `owner_meta`
  pub auth_flag : Bool
  pub callers : List Caller
  pub sessions : List SessionRow
  pub runs : List Run
  pub approvals : List Approval
  pub effects : List Effect
  pub exposures : List Exposure
  pub attempts : List Attempt
  pub results : List ResultRow
  pub replays : List Replay
  pub events : List Event
  pub provider_exits : List ProviderExit
  pub provider_fallbacks : List ProviderFallback
  pub provider_attempts : List ProviderAttempt
  pub provider_retry : RetryTables
  pub dsh_retry : RetryTables
  pub worker_retry : RetryTables
  pub restart_budgets : List Budget
  pub restarts : List Restart
  pub access_gates : List AccessGate

abbrev no_retries : RetryTables
no_retries = record { budgets = []; ledger = [] }

abbrev pub empty_db : Db
empty_db = record {
  auth_flag = false;
  callers = [];
  sessions = [];
  runs = [];
  approvals = [];
  effects = [];
  exposures = [];
  attempts = [];
  results = [];
  replays = [];
  events = [];
  provider_exits = [];
  provider_fallbacks = [];
  provider_attempts = [];
  provider_retry = no_retries;
  dsh_retry = no_retries;
  worker_retry = no_retries;
  restart_budgets = [];
  restarts = [];
  access_gates = [];
}

-- The clock, `uuid`, `secrets`, `hashlib`, and `pathlib` on the host's file system. The readings
-- of the clock and the random draws are numbered; `resolve` yields the components of the resolved
-- path, or `none` where it raises.
pub record Env : Type 0 where
  pub clock : ℕ → ℕ
  pub uuid4 : ℕ → String
  pub token_urlsafe : ℕ → String
  pub token_hex : ℕ → String
  pub sha256 : String → String
  pub repr : Value → String
  pub is_absolute : String → Bool
  pub resolve : String → Option (List String)

pub record CallerSession : Type 0 where
  pub caller_id : String
  pub session_id : String

-- `calls` numbers the next reading or draw. Each thread's connection sees the one database.
pub record Owner : Type 0 where
  pub env : Env
  pub calls : ℕ
  pub db : Db
  pub caller_auth_required : Bool
  pub caller_session : Option CallerSession
  pub closed : Bool

-- A fresh database, as `__init__` leaves it.
abbrev pub new_owner : Env → Owner
new_owner env = record {
  env = env;
  calls = 0;
  db = empty_db;
  caller_auth_required = false;
  caller_session = none;
  closed = false;
}
