-- ===== src/Owner/Core.antt =====
-- The helpers of `CompositionOwner` (src/zworkbench/composition.py): transactions, validation, the
-- status of a run, the event ledger and the results.
pub mod Steps
pub mod Transactions
pub mod Status
use zworkbench.Common.{
  ℕ, String, Bool, true, false, not, ◌&&◌, ◌||◌, Option, none, some, [], ◌∷◌, ◌++◌, ◌==◌, is_some,
  if◌then◌else◌,
}
use zworkbench.Common.Tables.{find, update, exists}
use zworkbench.Common.Text.{is_blank}
use zworkbench.Common.Int.{ℤ, positive, non_negative}
use zworkbench.Json.{Value, text, obj, Fields, end, field, canonical_json, optional_text}
use zworkbench.Credentials.{raw_credential}
use zworkbench.Exec.{
  when◌then◌else◌, Exec, Result, ok, err, value_error, sqlite_integrity, composition_error,
  not_found, invalid_transition, caller_auth_error, pure, query, write, raise_if, or_raise, ◌>>=◌,
  ◌>>◌, now, new_id,
}
use zworkbench.Owner.State.{
  Owner, Db, Run, RunStatus, created, running, waiting_approval, recovering, completed, failed,
  safe_stopped, Effect, Event, ResultRow,
}

-- `_require_connection`
unfoldable pub require_connection : Exec (Unit {0})
require_connection s = (if s.closed then err composition_error else ok tt, s)

-- `_require_authenticated_caller`
unfoldable pub require_authenticated_caller : Exec (Unit {0})
require_authenticated_caller s = (
  if s.caller_auth_required && not (is_some s.caller_session) then err caller_auth_error else ok tt,
  s,
)

module _ {A : Type 0} where
  abbrev pub roll_back : Db → Result A → Owner → Result A × Owner
  roll_back d (ok a) s = (ok a, s)
  roll_back d (err e) s = (err e, record s { db = d })

  -- BEGIN IMMEDIATE, and then COMMIT or ROLLBACK
  unfoldable pub atomically : Exec A → Exec A
  atomically m s = let (r, s') = m s in roll_back s.db r s'

  -- `_transaction()`
  unfoldable pub transaction : Exec A → Exec A
  transaction body = do require_connection; require_authenticated_caller; atomically body

  -- `_transaction(exempt_auth=True)`
  unfoldable pub exempt_transaction : Exec A → Exec A
  exempt_transaction body = do require_connection; atomically body

-- `_require_text`
unfoldable pub require_text : String → Exec (Unit {0})
require_text value = raise_if (is_blank value) value_error

-- `if attempt_number < 1: raise ValueError`
unfoldable pub require_positive : ℤ → Exec ℕ
require_positive n = or_raise (positive n) value_error

-- `if max_retries < 0: raise ValueError`
unfoldable pub require_non_negative : ℤ → Exec ℕ
require_non_negative n = or_raise (non_negative n) value_error

-- `_reject_raw_credentials`
unfoldable pub reject_raw_credentials : Value → Exec (Unit {0})
reject_raw_credentials v = raise_if (raw_credential v) value_error

abbrev pub native : String
native = "native"

abbrev pub outer_composed : String
outer_composed = "outer-composed"

-- Membership in `EVIDENCE_SOURCES`.
unfoldable pub is_evidence_source : String → Bool
is_evidence_source v = v == "native" || v == "plugin-composed" || v == "outer-composed"

-- `_validate_evidence_source`
unfoldable pub validate_evidence_source : String → Exec (Unit {0})
validate_evidence_source v = raise_if (is_blank v || not (is_evidence_source v)) value_error

abbrev pub has_run_id : String → Run → Bool
has_run_id id r = r.run_id == id

abbrev pub has_effect_id : String → Effect → Bool
has_effect_id id e = e.effect_id == id

unfoldable pub find_run : String → Db → Option Run
find_run id d = find (has_run_id id) d.runs

unfoldable pub find_effect : String → Db → Option Effect
find_effect id d = find (has_effect_id id) d.effects

-- `_run_row`
unfoldable pub run_row : String → Exec Run
run_row id = do found ← query (find_run id); or_raise found not_found

-- `_effect_row`
unfoldable pub effect_row : String → Exec Effect
effect_row id = do found ← query (find_effect id); or_raise found not_found

-- The pairs of `allowed` in `_set_run_status`.
unfoldable pub allowed : RunStatus → RunStatus → Bool
allowed created running = true
allowed created waiting_approval = true
allowed created failed = true
allowed created safe_stopped = true
allowed running waiting_approval = true
allowed running recovering = true
allowed running completed = true
allowed running failed = true
allowed running safe_stopped = true
allowed waiting_approval running = true
allowed waiting_approval failed = true
allowed waiting_approval safe_stopped = true
allowed recovering running = true
allowed recovering failed = true
allowed recovering safe_stopped = true
allowed _ _ = false

-- The text of a status in its column.
unfoldable pub status_text : RunStatus → String
status_text created = "created"
status_text running = "running"
status_text waiting_approval = "waiting_approval"
status_text recovering = "recovering"
status_text completed = "completed"
status_text failed = "failed"
status_text safe_stopped = "safe_stopped"

unfoldable pub same_status : RunStatus → RunStatus → Bool
same_status created created = true
same_status running running = true
same_status waiting_approval waiting_approval = true
same_status recovering recovering = true
same_status completed completed = true
same_status failed failed = true
same_status safe_stopped safe_stopped = true
same_status _ _ = false

-- INSERT INTO events, where `event_id` is unique and `run_id` refers to a run
unfoldable pub add_event : Event → Db → Db
add_event e d = record d { events = d.events ++ e ∷ [] }

abbrev pub event_conflict : String → String → Db → Bool
event_conflict event_id run_id d =
    exists (λ e. e.event_id == event_id) d.events || not (exists (has_run_id run_id) d.runs)

abbrev pub chosen_id : Option String → Exec String
chosen_id none = new_id
chosen_id (some id) = pure id

-- `_append_event`, with the identity that a caller may have given
unfoldable pub append_event_as : Option String → String → String → Value → String → Exec String
append_event_as given run_id event_type payload evidence_source = do
  reject_raw_credentials payload
  validate_evidence_source evidence_source
  event_id ← chosen_id given
  created_at ← now
  conflict ← query (event_conflict event_id run_id)
  raise_if conflict sqlite_integrity
  write (
      add_event (record {
        event_id = event_id;
        run_id = run_id;
        event_type = event_type;
        payload = canonical_json payload;
        evidence_source = evidence_source;
        created_at = created_at;
      }))
  pure event_id

-- `_append_event(connection, run_id, event_type, payload)`
unfoldable pub append_event : String → String → Fields → Exec String
append_event run_id event_type payload = append_event_as none run_id event_type (obj payload) native

unfoldable pub put_status : String → RunStatus → ℕ → Db → Db
put_status id status timestamp d = record d {
  runs = update (has_run_id id) (λ r. record r { status = status; updated_at = timestamp }) d.runs;
}

-- `_set_run_status`
unfoldable pub set_run_status : Run → RunStatus → String → Fields → Exec (Unit {0})
set_run_status row status event_type payload =
    when same_status row.status status then pure tt else do
      raise_if (not (allowed row.status status)) invalid_transition
      timestamp ← now
      write (put_status row.run_id status timestamp)
      append_event row.run_id event_type (
          field "from" (text (status_text row.status))
            (field "to" (text (status_text status)) payload))
      pure tt

abbrev pub same_source : String → Option String → Bool
same_source id none = false
same_source id (some other) = other == id

abbrev pub recorded_before : String → String → Option String → Db → Option ResultRow
recorded_before run_id kind none d = none
recorded_before run_id kind (some id) d =
    find (λ r. r.run_id == run_id && (r.kind == kind && same_source id r.source_id)) d.results

unfoldable pub add_result : ResultRow → Db → Db
add_result r d = record d { results = d.results ++ r ∷ [] }

abbrev pub result_conflict : String → String → Db → Bool
result_conflict result_id run_id d =
    exists (λ r. r.result_id == result_id) d.results || not (exists (has_run_id run_id) d.runs)

unfoldable pub insert_result : String → String → Value → Option String → String → Exec ResultRow
insert_result run_id kind value source_id evidence_source = do
  result_id ← new_id
  timestamp ← now
  conflict ← query (result_conflict result_id run_id)
  raise_if conflict sqlite_integrity
  let row : ResultRow = record {
    result_id = result_id;
    run_id = run_id;
    kind = kind;
    value = canonical_json value;
    source_id = source_id;
    evidence_source = evidence_source;
    created_at = timestamp;
  }
  write (add_result row)
  append_event_as none run_id "result.recorded"
      (obj (
        field "result_id" (text result_id)
          (field "kind" (text kind) (field "source_id" (optional_text source_id) end))))
      evidence_source
  pure row

unfoldable pub unless_recorded : Option ResultRow → Exec ResultRow → Exec ResultRow
unless_recorded (some row) insert = pure row
unless_recorded none insert = insert

-- `_record_result_tx`: a source's result is recorded once.
unfoldable pub record_result_tx : String → String → Value → Option String → String → Exec ResultRow
record_result_tx run_id kind value source_id evidence_source = do
  reject_raw_credentials value
  validate_evidence_source evidence_source
  existing ← query (recorded_before run_id kind source_id)
  unless_recorded existing (insert_result run_id kind value source_id evidence_source)

-- Opens the code of this module, for a run of it.
unfoldable pub core_code : Unit {0}
unfolding ◌>>=◌ now new_id require_connection require_authenticated_caller atomically transaction
    exempt_transaction require_text require_positive require_non_negative reject_raw_credentials
    is_evidence_source validate_evidence_source find_run find_effect run_row effect_row allowed
    status_text same_status add_event append_event_as append_event put_status set_run_status
    add_result insert_result unless_recorded record_result_tx
core_code = tt
