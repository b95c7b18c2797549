-- ===== src/Owner/Runs.antt =====
-- The life of a run: `create_run` to `get_run` of src/zworkbench/composition.py.
pub mod Follow
pub mod Completed
use zworkbench.Owner.Core.{core_code}
use zworkbench.Owner.Identity.{identity_code}
use zworkbench.Common.{
  ℕ, String, Bool, true, false, not, ◌&&◌, ◌||◌, some, List, [], ◌∷◌, ◌++◌, ◌==◌, ltb, nat_eq,
  if◌then◌else◌,
}
use zworkbench.Common.Tables.{count, exists, select, sort_by}
use zworkbench.Common.Text.{text_lt}
use zworkbench.Json.{Value, text, Fields, end, field, canonical_json, canonical_fields}
use zworkbench.Exec.{
  when◌then◌else◌, Exec, composition_error, invalid_transition, pure, query, write, raise_if, ◌>>=◌,
  ◌>>◌, now,
}
use zworkbench.Owner.State.{
  Db, Run, created, running, recovering, completed, failed, safe_stopped, Effect, EffectStatus,
  Approval, ApprovalStatus, ResultRow,
}
use zworkbench.Owner.Core.{
  require_connection, transaction, require_text, has_run_id, run_row, same_status, status_text,
  append_event, put_status, set_run_status, record_result_tx, native,
}
use zworkbench.Owner.Identity.{Finding, detect_identity_violations}

-- What `get_run` returns: the row, its effects and its results.
pub record RunView : Type 0 where
  pub run : Run
  pub effects : List Effect
  pub results : List ResultRow

abbrev pub effect_before : Effect → Effect → Bool
effect_before a b =
    ltb a.created_at b.created_at
    || (nat_eq a.created_at b.created_at && text_lt a.effect_id b.effect_id)

abbrev pub result_before : ResultRow → ResultRow → Bool
result_before a b =
    ltb a.created_at b.created_at
    || (nat_eq a.created_at b.created_at && text_lt a.result_id b.result_id)

abbrev pub effects_of : String → Db → List Effect
effects_of id d = sort_by effect_before (select (λ e. e.run_id == id) d.effects)

abbrev pub results_of : String → Db → List ResultRow
results_of id d = sort_by result_before (select (λ r. r.run_id == id) d.results)

unfoldable pub get_run : String → Exec RunView
get_run run_id = do
  require_connection
  run ← run_row run_id
  effects ← query (effects_of run_id)
  results ← query (results_of run_id)
  pure (record { run = run; effects = effects; results = results })

unfoldable pub add_run : Run → Db → Db
add_run r d = record d { runs = d.runs ++ r ∷ [] }

unfoldable pub create_run : String → String → Value → Fields → Exec RunView
create_run run_id task_type input metadata = do
  require_text run_id
  require_text task_type
  timestamp ← now
  transaction (do
    taken ← query (λ d. exists (has_run_id run_id) d.runs)
    raise_if taken composition_error
    write (
        add_run (record {
          run_id = run_id;
          task_type = task_type;
          input = canonical_json input;
          metadata = canonical_fields metadata;
          status = created;
          created_at = timestamp;
          updated_at = timestamp;
        }))
    append_event run_id "run.created" (field "task_type" (text task_type) end))
  get_run run_id

unfoldable pub start_run : String → Exec RunView
start_run run_id = do
  transaction (do row ← run_row run_id; set_run_status row running "run.started" end)
  get_run run_id

-- Every status but `running` is in `rearmable`.
unfoldable pub rearm : Run → String → Exec RunView
rearm row reason = when same_status row.status running then get_run row.run_id else do
  timestamp ← now
  write (put_status row.run_id running timestamp)
  append_event row.run_id "run.restarted" (
      field "from" (text (status_text row.status))
        (field "to" (text "running") (field "reason" (text reason) end)))
  get_run row.run_id

unfoldable pub restart_run : String → String → Exec RunView
restart_run run_id reason = do
  require_text reason
  transaction (do row ← run_row run_id; rearm row reason)

unfoldable pub is_pending : Approval → Bool
is_pending a = elim a.status [ ApprovalStatus.pending ↦ true | _ ↦ false ]

abbrev pub pending_approvals : String → Db → ℕ
pending_approvals run_id d = count (λ a. a.run_id == run_id && is_pending a) d.approvals

-- status IN ('claimed', 'uncertain', 'retryable', 'unknown')
unfoldable pub is_unresolved : Effect → Bool
is_unresolved e = elim e.status [ EffectStatus.completed ↦ false | _ ↦ true ]

-- status IN ('claimed', 'uncertain', 'unknown')
unfoldable pub is_uncertain : Effect → Bool
is_uncertain e = elim e.status [
  | EffectStatus.completed ↦ false
  | EffectStatus.retryable ↦ false
  | _ ↦ true
]

unfoldable pub unresolved_effects : String → Db → ℕ
unfolding is_unresolved
unresolved_effects run_id d = count (λ e. e.run_id == run_id && is_unresolved e) d.effects

unfoldable pub uncertain_effects : String → Db → ℕ
unfolding is_uncertain
uncertain_effects run_id d = count (λ e. e.run_id == run_id && is_uncertain e) d.effects

abbrev pub is_empty : List Finding → Bool
is_empty [] = true
is_empty (f ∷ fs) = false

unfoldable pub complete_run : String → Value → Exec RunView
complete_run run_id semantic_result = do
  transaction (do
    row ← run_row run_id
    raise_if (not (same_status row.status running)) invalid_transition
    pending ← query (pending_approvals run_id)
    raise_if (not (nat_eq pending 0)) invalid_transition
    violations ← detect_identity_violations (some run_id)
    raise_if (not (is_empty violations)) invalid_transition
    unresolved ← query (unresolved_effects run_id)
    raise_if (not (nat_eq unresolved 0)) invalid_transition
    record_result_tx run_id "semantic" semantic_result (some "run") native
    set_run_status row completed "run.completed" end)
  get_run run_id

-- The value of `blocked_by_effect`.
unfoldable pub fail_or_stop : Run → Value → ℕ → Exec Bool
fail_or_stop row error unresolved =
    when nat_eq unresolved 0
    then (do
      record_result_tx row.run_id "error" error (some "run") native
      set_run_status row failed "run.failed" end
      pure false)
    else (do
      set_run_status row safe_stopped "run.safe_stopped"
          (field "reason" (text "uncertain_effect") end)
      pure true)

-- The exception is raised when the transaction has been committed.
unfoldable pub fail_run : String → Value → Exec RunView
fail_run run_id error = do
  blocked_by_effect ← transaction (do
    row ← run_row run_id
    unresolved ← query (uncertain_effects run_id)
    fail_or_stop row error unresolved)
  raise_if blocked_by_effect invalid_transition
  get_run run_id

-- `_set_run_status` does nothing where the run is already stopped.
unfoldable pub safe_stop_run : String → String → Exec RunView
safe_stop_run run_id reason = do
  require_text reason
  transaction (do
    row ← run_row run_id
    set_run_status row safe_stopped "run.safe_stopped" (field "reason" (text reason) end))
  get_run run_id

unfoldable pub enter_recovery : Run → String → Exec (Unit {0})
enter_recovery row reason =
    set_run_status row recovering "run.recovering" (field "reason" (text reason) end)

unfoldable pub begin_recovery : String → String → Exec RunView
begin_recovery run_id reason = do
  require_text reason
  transaction (do
    row ← run_row run_id
    unresolved ← query (uncertain_effects run_id)
    raise_if (not (nat_eq unresolved 0)) invalid_transition
    enter_recovery row reason)
  get_run run_id

-- Opens the code of this module, for a run of it.
unfoldable pub runs_code : Unit {0}
unfolding core_code identity_code get_run add_run create_run start_run rearm restart_run is_pending
    is_unresolved is_uncertain unresolved_effects uncertain_effects complete_run fail_or_stop
    fail_run safe_stop_run enter_recovery begin_recovery
runs_code = tt
