-- ===== src/Owner/Listings.antt =====
-- The readings of the ledgers and budgets, and of the events (src/zworkbench/composition.py). The three
use zworkbench.Scan.{before}
use zworkbench.Common.Text.{text_lt}
use zworkbench.Common.Tables.{sort_by, select, insert_sorted, find}
use zworkbench.Owner.Core.{run_row, require_text, require_connection, core_code}
use zworkbench.Owner.Retries.{find_budget, retry_tables, Layer, retries_code}
use zworkbench.Common.{
  nat_eq, ◌||◌, Option, ltb, none, ℕ, List, ◌==◌, some, ◌&&◌, true, Bool, String,
}
use zworkbench.Exec.{◌>>=◌, ◌>>◌, not_found, or_raise, query, Exec}
use zworkbench.Owner.State.{ProviderAttempt, Consumption, Event, AccessGate, Restart, Db, Budget}
-- retry layers have the same code over their own tables.
pub mod Counts

module _ {A : Type 0} (table : Db → List A) where
  -- SELECT * … WHERE, of one row, or NotFoundError
  unfoldable pub read_row : (A → Bool) → Exec A
  read_row p = do
    require_connection
    found ← query (λ d. find p (table d))
    or_raise found not_found

  -- SELECT * … WHERE run_id = ? ORDER BY
  unfoldable pub rows_of_run : (A → A → Bool) → (A → Bool) → String → Exec (List A)
  rows_of_run before p run_id = do
    require_connection
    run_row run_id
    query (λ d. sort_by before (select p (table d)))

-- ORDER BY a number, ledger_id
unfoldable pub in_order : ℕ → String → ℕ → String → Bool
unfolding text_lt
in_order m s n t = ltb m n || nat_eq m n && text_lt s t

-- `get_*_retry_budget`
unfoldable pub get_retry_budget : Layer → String → Exec Budget
get_retry_budget layer subject = do
  require_connection
  require_text subject
  found ← query (λ d. find_budget subject (retry_tables layer d).budgets)
  or_raise found not_found

-- `*_retry_budgets`
unfoldable pub retry_budgets : Layer → Exec (List Budget)
retry_budgets layer = do
  require_connection
  query (λ d. sort_by (λ b c. text_lt b.subject c.subject) (retry_tables layer d).budgets)

abbrev pub ledger_of : Layer → Db → List Consumption
ledger_of layer d = (retry_tables layer d).ledger

-- `get_*_retry_budget_ledger`
unfoldable pub get_retry_budget_ledger : Layer → String → Exec Consumption
get_retry_budget_ledger layer ledger_id = read_row (ledger_of layer) (λ c. c.ledger_id == ledger_id)

abbrev pub consumption_before : Consumption → Consumption → Bool
consumption_before b c = in_order b.attempt_number b.ledger_id c.attempt_number c.ledger_id

-- `*_retry_budget_ledger_for_run`
unfoldable pub retry_budget_ledger_for_run : Layer → String → Exec (List Consumption)
retry_budget_ledger_for_run layer run_id =
    rows_of_run (ledger_of layer) consumption_before (λ c. c.run_id == run_id) run_id

unfoldable pub get_run_restart_budget : String → Exec Budget
get_run_restart_budget run_id = do
  require_connection
  require_text run_id
  found ← query (λ d. find_budget run_id d.restart_budgets)
  or_raise found not_found

unfoldable pub get_run_restart_ledger : String → Exec Restart
get_run_restart_ledger ledger_id = read_row (λ d. d.restarts) (λ r. r.ledger_id == ledger_id)

unfoldable pub run_restart_ledger_for_run : String → Exec (List Restart)
run_restart_ledger_for_run run_id =
    rows_of_run (λ d. d.restarts)
      (λ q r. in_order q.attempt_number q.ledger_id r.attempt_number r.ledger_id)
      (λ r. r.run_id == run_id) run_id

unfoldable pub get_provider_attempt_ledger : String → Exec ProviderAttempt
get_provider_attempt_ledger ledger_id =
    read_row (λ d. d.provider_attempts) (λ a. a.ledger_id == ledger_id)

unfoldable pub provider_attempt_ledger_for_run : String → Exec (List ProviderAttempt)
provider_attempt_ledger_for_run run_id =
    rows_of_run (λ d. d.provider_attempts)
      (λ a b. in_order a.attempt_number a.ledger_id b.attempt_number b.ledger_id)
      (λ a. a.run_id == run_id) run_id

unfoldable pub get_provider_access_gate : String → Exec AccessGate
get_provider_access_gate ledger_id = read_row (λ d. d.access_gates) (λ g. g.ledger_id == ledger_id)

unfoldable pub provider_access_gate_ledger_for_run : String → Exec (List AccessGate)
provider_access_gate_ledger_for_run run_id =
    rows_of_run (λ d. d.access_gates)
      (λ g h. in_order g.recorded_at g.ledger_id h.recorded_at h.ledger_id)
      (λ g. g.run_id == run_id) run_id

abbrev pub is_event_of : Option String → Event → Bool
is_event_of none e = true
is_event_of (some run_id) e = e.run_id == run_id

-- `events`, in the order of `seq`
unfoldable pub events : Option String → Exec (List Event)
events run_id = do require_connection; query (λ d. select (is_event_of run_id) d.events)

-- Opens the code of this module, for a run of it.
unfoldable pub listings_code : Unit {0}
unfolding core_code retries_code read_row rows_of_run in_order get_retry_budget retry_budgets
    get_retry_budget_ledger retry_budget_ledger_for_run get_run_restart_budget
    get_run_restart_ledger run_restart_ledger_for_run get_provider_attempt_ledger
    provider_attempt_ledger_for_run get_provider_access_gate provider_access_gate_ledger_for_run
    events sort_by insert_sorted
listings_code = tt
