-- ===== src/Owner/Retries.antt =====
-- The retry budgets of the Provider, DSH and Worker layers (src/zworkbench/composition.py).
-- The three layers have the same code over their own tables and names.
pub mod Follow
pub mod Bounded
use zworkbench.Owner.Core.{core_code}
use zworkbench.Common.{
  ℕ, String, Bool, ◌&&◌, ◌+◌, Option, none, some, List, [], ◌∷◌, ◌++◌, ◌==◌, ltb, if◌then◌else◌,
}
use zworkbench.Common.Int.{ℤ}
use zworkbench.Common.Tables.{find, update, exists, count}
use zworkbench.Json.{text, int, obj, end, field, optional_text}
use zworkbench.Exec.{
  Exec, sqlite_integrity, not_found, retry_budget_exhausted, pure, query, write, raise_if, or_raise,
  ◌>>=◌, ◌>>◌, now, new_id,
}
use zworkbench.Owner.State.{Db, Budget, Consumption, RetryTables, Bound, undeclared, enforced}
use zworkbench.Owner.Core.{
  require_connection, transaction, require_text, require_positive, require_non_negative, run_row,
  append_event, reject_raw_credentials,
}

pub data Layer : Type 0 where
  provider dsh worker : Layer

unfoldable pub retry_tables : Layer → Db → RetryTables
retry_tables provider d = d.provider_retry
retry_tables dsh d = d.dsh_retry
retry_tables worker d = d.worker_retry

unfoldable pub put_retry_tables : Layer → RetryTables → Db → Db
put_retry_tables provider t d = record d { provider_retry = t }
put_retry_tables dsh t d = record d { dsh_retry = t }
put_retry_tables worker t d = record d { worker_retry = t }

-- The name of the layer's key column.
unfoldable pub subject_name : Layer → String
subject_name provider = "provider_id"
subject_name dsh = "dsh_id"
subject_name worker = "worker_id"

unfoldable pub consumption_event : Layer → String
consumption_event provider = "provider.retry_budget.consumption.recorded"
consumption_event dsh = "dsh.retry_budget.consumption.recorded"
consumption_event worker = "worker.retry_budget.consumption.recorded"

abbrev pub has_subject : String → Budget → Bool
has_subject subject b = b.subject == subject

unfoldable pub find_budget : String → List Budget → Option Budget
find_budget subject budgets = find (has_subject subject) budgets

-- INSERT … ON CONFLICT DO UPDATE
unfoldable pub upsert_budget : Budget → List Budget → List Budget
upsert_budget b budgets =
    if exists (has_subject b.subject) budgets
    then update (has_subject b.subject) (λ _. b) budgets
    else budgets ++ b ∷ []

unfoldable pub put_budget : Layer → Budget → Db → Db
unfolding retry_tables put_retry_tables upsert_budget
put_budget layer b d =
    let t = retry_tables layer d in
    put_retry_tables layer (record t { budgets = upsert_budget b t.budgets }) d

-- `declare_*_retry_budget`
unfoldable pub declare_retry_budget : Layer → String → ℤ → String → Exec Budget
declare_retry_budget layer subject max_retries declared_by = do
  require_text subject
  ceiling ← require_non_negative max_retries
  require_text declared_by
  reject_raw_credentials
      (obj (field (subject_name layer) (text subject) (field "declared_by" (text declared_by) end)))
  timestamp ← now
  transaction (
      write (
        put_budget layer (record {
          subject = subject;
          max_retries = ceiling;
          declared_by = declared_by;
          declared_at = timestamp;
        })))
  require_connection
  require_text subject
  found ← query (λ d. find_budget subject (retry_tables layer d).budgets)
  or_raise found not_found

-- The arguments of `record_*_retry_budget_consumption`.
pub record RetryRequest : Type 0 where
  pub run_id : String
  pub subject : String
  pub request_id : String
  pub attempt_number : ℤ
  pub failure_class : String
  pub target : Option String
  pub reason : String

abbrev pub consumed_by : String → String → Consumption → Bool
consumed_by run_id subject c = c.run_id == run_id && c.subject == subject

-- SELECT COUNT(*) … WHERE run_id = ? AND the subject = ?
unfoldable pub consumed : Layer → String → String → Db → ℕ
unfolding retry_tables
consumed layer run_id subject d = count (consumed_by run_id subject) (retry_tables layer d).ledger

-- Raise if one more would exceed the ceiling.
unfoldable pub charge : Option Budget → ℕ → Exec Bound
charge none prior = pure undeclared
charge (some b) prior = do
  raise_if (ltb b.max_retries (prior + 1)) retry_budget_exhausted
  pure enforced

unfoldable pub add_consumption : Layer → Consumption → Db → Db
unfolding retry_tables put_retry_tables
add_consumption layer c d =
    let t = retry_tables layer d in
    put_retry_tables layer (record t { ledger = t.ledger ++ c ∷ [] }) d

unfoldable pub bound_text : Bound → String
bound_text undeclared = "undeclared"
bound_text enforced = "enforced"

abbrev pub require_optional_text : Option String → Exec (Unit {0})
require_optional_text none = pure tt
require_optional_text (some s) = require_text s

abbrev pub new_consumption : RetryRequest → String → ℕ → Bound → ℕ → Consumption
new_consumption q ledger_id attempt_number bound timestamp = record {
  ledger_id = ledger_id;
  run_id = q.run_id;
  subject = q.subject;
  request_id = q.request_id;
  attempt_number = attempt_number;
  failure_class = q.failure_class;
  target = q.target;
  reason = q.reason;
  bound = bound;
  recorded_at = timestamp;
}

-- The body of the transaction.
unfoldable pub consume_retry : Layer → RetryRequest → ℕ → ℕ → String → Exec (Unit {0})
consume_retry layer q attempt_number timestamp ledger_id = do
  run_row q.run_id
  budget ← query (λ d. find_budget q.subject (retry_tables layer d).budgets)
  prior ← query (consumed layer q.run_id q.subject)
  bound ← charge budget prior
  conflict ← query (λ d. exists (λ c. c.ledger_id == ledger_id) (retry_tables layer d).ledger)
  raise_if conflict sqlite_integrity
  write (add_consumption layer (new_consumption q ledger_id attempt_number bound timestamp))
  append_event q.run_id (consumption_event layer) (
      field "ledger_id" (text ledger_id) (
        field (subject_name layer) (text q.subject) (
          field "request_id" (text q.request_id) (
            field "attempt_number" (int attempt_number) (
              field "failure_class" (text q.failure_class) (
                field "target" (optional_text q.target) (
                  field "reason" (text q.reason)
                    (field "bound" (text (bound_text bound)) end))))))))
  pure tt

-- `record_*_retry_budget_consumption`
unfoldable pub record_retry_consumption : Layer → RetryRequest → Exec Consumption
record_retry_consumption layer q = do
  require_text q.run_id
  require_text q.subject
  require_text q.request_id
  attempt_number ← require_positive q.attempt_number
  require_text q.failure_class
  require_optional_text q.target
  require_text q.reason
  reject_raw_credentials (
      obj (
        field (subject_name layer) (text q.subject) (
          field "request_id" (text q.request_id) (
            field "failure_class" (text q.failure_class)
              (field "target" (optional_text q.target) (field "reason" (text q.reason) end))))))
  timestamp ← now
  ledger_id ← new_id
  transaction (consume_retry layer q attempt_number timestamp ledger_id)
  require_connection
  found ← query (λ d. find (λ c. c.ledger_id == ledger_id) (retry_tables layer d).ledger)
  or_raise found not_found

unfoldable pub declare_provider_retry_budget : String → ℤ → String → Exec Budget
declare_provider_retry_budget = declare_retry_budget provider

unfoldable pub declare_dsh_retry_budget : String → ℤ → String → Exec Budget
declare_dsh_retry_budget = declare_retry_budget dsh

unfoldable pub declare_worker_retry_budget : String → ℤ → String → Exec Budget
declare_worker_retry_budget = declare_retry_budget worker

unfoldable pub record_provider_retry_budget_consumption : RetryRequest → Exec Consumption
record_provider_retry_budget_consumption = record_retry_consumption provider

unfoldable pub record_dsh_retry_budget_consumption : RetryRequest → Exec Consumption
record_dsh_retry_budget_consumption = record_retry_consumption dsh

unfoldable pub record_worker_retry_budget_consumption : RetryRequest → Exec Consumption
record_worker_retry_budget_consumption = record_retry_consumption worker

-- Opens the code of this module, for a run of it.
unfoldable pub retries_code : Unit {0}
unfolding core_code retry_tables put_retry_tables subject_name consumption_event find_budget
    upsert_budget put_budget declare_retry_budget consumed charge add_consumption bound_text
    consume_retry record_retry_consumption declare_provider_retry_budget declare_dsh_retry_budget
    declare_worker_retry_budget record_provider_retry_budget_consumption
    record_dsh_retry_budget_consumption record_worker_retry_budget_consumption
retries_code = tt
