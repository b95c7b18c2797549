-- ===== src/Owner/Ledgers.antt =====
-- The run-level restart budget, the ledger of Provider attempts and the Provider access gate
-- (src/zworkbench/composition.py).
pub mod Follow
pub mod Bounded
use zworkbench.Owner.Core.{core_code}
use zworkbench.Owner.Retries.{require_optional_text, retries_code}
use zworkbench.Common.{ℕ, String, Bool, not, ◌||◌, Option, [], ◌∷◌, ◌++◌, ◌==◌}
use zworkbench.Common.Int.{ℤ}
use zworkbench.Common.Tables.{find, exists, count}
use zworkbench.Common.Text.{is_blank}
use zworkbench.Json.{text, int, obj, end, field, optional_text}
use zworkbench.Exec.{
  Exec, value_error, sqlite_integrity, not_found, pure, query, write, draw, raise_if, or_raise,
  ◌>>=◌, ◌>>◌, now, new_id,
}
use zworkbench.Owner.State.{Db, ProviderAttempt, Budget, Restart, AccessGate, Bound}
use zworkbench.Owner.Core.{
  require_connection, transaction, require_text, require_positive, require_non_negative, run_row,
  append_event, reject_raw_credentials,
}
use zworkbench.Owner.Retries.{find_budget, upsert_budget, charge, bound_text}

unfoldable pub put_restart_budget : Budget → Db → Db
unfolding upsert_budget
put_restart_budget b d = record d { restart_budgets = upsert_budget b d.restart_budgets }

unfoldable pub declare_run_restart_budget : String → ℤ → String → Exec Budget
declare_run_restart_budget run_id max_restarts declared_by = do
  require_text run_id
  ceiling ← require_non_negative max_restarts
  require_text declared_by
  reject_raw_credentials
      (obj (field "run_id" (text run_id) (field "declared_by" (text declared_by) end)))
  timestamp ← now
  transaction (do
    run_row run_id
    write (
        put_restart_budget (record {
          subject = run_id;
          max_retries = ceiling;
          declared_by = declared_by;
          declared_at = timestamp;
        })))
  require_connection
  require_text run_id
  found ← query (λ d. find_budget run_id d.restart_budgets)
  or_raise found not_found

-- The arguments of `record_run_restart`.
pub record RestartRequest : Type 0 where
  pub run_id : String
  pub request_id : String
  pub attempt_number : ℤ
  pub trigger : String
  pub reason : String

abbrev pub restart_of : String → Restart → Bool
restart_of run_id r = r.run_id == run_id

unfoldable pub restarts_of : String → Db → ℕ
restarts_of run_id d = count (restart_of run_id) d.restarts

unfoldable pub add_restart : Restart → Db → Db
add_restart r d = record d { restarts = d.restarts ++ r ∷ [] }

abbrev pub new_restart : RestartRequest → String → ℕ → Bound → ℕ → Restart
new_restart q ledger_id attempt_number bound timestamp = record {
  ledger_id = ledger_id;
  run_id = q.run_id;
  request_id = q.request_id;
  attempt_number = attempt_number;
  trigger = q.trigger;
  reason = q.reason;
  bound = bound;
  recorded_at = timestamp;
}

unfoldable pub consume_restart : RestartRequest → ℕ → ℕ → String → Exec (Unit {0})
consume_restart q attempt_number timestamp ledger_id = do
  run_row q.run_id
  budget ← query (λ d. find_budget q.run_id d.restart_budgets)
  prior ← query (restarts_of q.run_id)
  bound ← charge budget prior
  conflict ← query (λ d. exists (λ r. r.ledger_id == ledger_id) d.restarts)
  raise_if conflict sqlite_integrity
  write (add_restart (new_restart q ledger_id attempt_number bound timestamp))
  append_event q.run_id "run.restart_budget.consumption.recorded" (
      field "ledger_id" (text ledger_id) (
        field "request_id" (text q.request_id) (
          field "attempt_number" (int attempt_number) (
            field "trigger" (text q.trigger)
              (field "reason" (text q.reason) (field "bound" (text (bound_text bound)) end))))))
  pure tt

unfoldable pub record_run_restart : RestartRequest → Exec Restart
record_run_restart q = do
  require_text q.run_id
  require_text q.request_id
  attempt_number ← require_positive q.attempt_number
  require_text q.trigger
  require_text q.reason
  reject_raw_credentials (
      obj (
        field "request_id" (text q.request_id)
          (field "trigger" (text q.trigger) (field "reason" (text q.reason) end))))
  timestamp ← now
  ledger_id ← new_id
  transaction (consume_restart q attempt_number timestamp ledger_id)
  require_connection
  found ← query (λ d. find (λ r. r.ledger_id == ledger_id) d.restarts)
  or_raise found not_found

-- The arguments of `record_provider_attempt`.
pub record AttemptReport : Type 0 where
  pub run_id : String
  pub provider_id : String
  pub request_id : String
  pub attempt_number : ℤ
  pub status : String
  pub failure_code : Option String

unfoldable pub add_provider_attempt : ProviderAttempt → Db → Db
add_provider_attempt a d = record d { provider_attempts = d.provider_attempts ++ a ∷ [] }

unfoldable pub record_provider_attempt : AttemptReport → Exec ProviderAttempt
record_provider_attempt q = do
  require_text q.run_id
  require_text q.provider_id
  require_text q.request_id
  attempt_number ← require_positive q.attempt_number
  raise_if (not (q.status == "failed" || q.status == "succeeded")) value_error
  require_optional_text q.failure_code
  reject_raw_credentials (
      obj (
        field "provider_id" (text q.provider_id) (
          field "request_id" (text q.request_id)
            (field "failure_code" (optional_text q.failure_code) end))))
  timestamp ← now
  ledger_id ← new_id
  transaction (do
    run_row q.run_id
    conflict ← query (λ d. exists (λ a. a.ledger_id == ledger_id) d.provider_attempts)
    raise_if conflict sqlite_integrity
    write (
        add_provider_attempt (record {
          ledger_id = ledger_id;
          run_id = q.run_id;
          provider_id = q.provider_id;
          request_id = q.request_id;
          attempt_number = attempt_number;
          status = q.status;
          failure_code = q.failure_code;
          recorded_at = timestamp;
        }))
    append_event q.run_id "provider.attempt.ledger.recorded" (
        field "ledger_id" (text ledger_id) (
          field "provider_id" (text q.provider_id) (
            field "request_id" (text q.request_id) (
              field "attempt_number" (int attempt_number) (
                field "status" (text q.status)
                  (field "failure_code" (optional_text q.failure_code) end)))))))
  require_connection
  found ← query (λ d. find (λ a. a.ledger_id == ledger_id) d.provider_attempts)
  or_raise found not_found

-- The arguments of `record_provider_access_gate`.
pub record GateReport : Type 0 where
  pub run_id : String
  pub classification : String
  pub gate_enabled : Bool
  pub reason : String
  pub provider_id : Option String
  pub profile_name : Option String

unfoldable pub add_access_gate : AccessGate → Db → Db
add_access_gate g d = record d { access_gates = d.access_gates ++ g ∷ [] }

-- The statement commits by itself: there is no transaction here.
unfoldable pub record_provider_access_gate : GateReport → Exec String
record_provider_access_gate q = do
  require_text q.run_id
  raise_if (not (q.classification == "real" || q.classification == "baseline")) value_error
  raise_if (is_blank q.reason) value_error
  require_connection
  run_row q.run_id
  ledger_id ← draw (λ env n. env.token_hex n)
  timestamp ← now
  conflict ← query (λ d. exists (λ g. g.ledger_id == ledger_id) d.access_gates)
  raise_if conflict sqlite_integrity
  write (
      add_access_gate (record {
        ledger_id = ledger_id;
        run_id = q.run_id;
        classification = q.classification;
        gate_enabled = q.gate_enabled;
        reason = q.reason;
        provider_id = q.provider_id;
        profile_name = q.profile_name;
        recorded_at = timestamp;
      }))
  pure ledger_id

-- Opens the code of this module, for a run of it.
unfoldable pub ledgers_code : Unit {0}
unfolding core_code retries_code put_restart_budget declare_run_restart_budget restarts_of
    add_restart consume_restart record_run_restart add_provider_attempt record_provider_attempt
    add_access_gate record_provider_access_gate
ledgers_code = tt
