-- ===== src/Owner/Runs/Follow.antt =====
-- The run lifecycle keeps to the contract of Owner/Change.
use zworkbench.Common.{String, ◌≡◌, refl, sym, ◌∙◌, ℕ, true, false, Option, some}
use zworkbench.Json.{Value, Fields}
use zworkbench.Exec.Does.{
  Does, does_return, does_query, does_write, does_guard, does_now, does_bind, does_with, does_if,
  does_weaken, does_read, does_ask, does_or_raise,
}
use zworkbench.Owner.State.{Db, Run, running, completed, failed, safe_stopped, recovering}
use zworkbench.Owner.Core.{find_run}
use zworkbench.Owner.Core.Steps.{
  At, append_event-Obeys, record_result_tx-Does, run-framed, run_row-Does, run_row-Follows,
  set_run_status-Does, does_connection,
}
use zworkbench.Owner.Identity.{detect_identity_violations}
use zworkbench.Owner.Runs.{
  get_run, create_run, start_run, rearm, restart_run, complete_run, fail_or_stop, fail_run,
  safe_stop_run, enter_recovery, begin_recovery,
}
use zworkbench.Owner.Change.{Change, Changes, next}
use zworkbench.Owner.Rules.{
  Follows, Follows-bind, Follows-transaction, follows_rules, Follows-text, Follows-guard,
}

pub get_run-Follows : (id : String) → Follows (get_run id)
unfolding get_run
get_run-Follows id = search (follows_rules, run_row-Follows) depth 12

get_run-Does : {P : Db → Type 0} (id : String) → Does P (get_run id) (λ _. P)
unfolding get_run
get_run-Does id = does_bind does_connection λ _. does_bind (run_row-Does id) λ run.
    does_bind (does_read _) λ effects. does_bind (does_read _) λ results. does_return _ (λ d h. h.0)

pub detect-Does :
    {P : Db → Type 0} (scope : Option String) → Does P (detect_identity_violations scope) (λ _. P)
unfolding detect_identity_violations
detect-Does scope = does_bind does_connection λ _. does_bind (does_ask _) λ repr.
    does_bind (does_read _) λ found. does_weaken (λ d h. h) (does_or_raise found _) (λ a d h. h.0)

pub create_run-Follows :
    (id task_type : String) (input : Value) (metadata : Fields)
    → Follows (create_run id task_type input metadata)
unfolding create_run
create_run-Follows id task_type input metadata = Follows-bind (search follows_rules) λ _.
    Follows-bind (search follows_rules) λ _. Follows-bind (search follows_rules) λ t.
      Follows-bind
        (Follows-transaction λ d. does_bind (does_query _) λ taken. does_bind (does_guard _ _) λ _.
          does_bind
            (does_write {Q = Changes d} _
              λ d' h. next h.0.0 (Change.create _ (sym h.0.1 ∙ h.1) refl))
            λ _. append_event-Obeys id "run.created" _ d)
        λ _. get_run-Follows id

pub start_run-Follows : (id : String) → Follows (start_run id)
unfolding start_run
start_run-Follows id =
    Follows-bind
      (Follows-transaction
        λ d. does_bind (run_row-Does id) λ row. set_run_status-Does d row running "run.started" _)
      λ _. get_run-Follows id

rearm-Does :
    (d₀ : Db) (row : Run) (reason : String)
    → Does (At d₀ (λ d. find_run row.run_id d ≡ some row)) (rearm row reason) (λ _. Changes d₀)
unfolding rearm
rearm-Does d₀ row reason =
    does_if _ (λ _. does_weaken (λ d h. h.0) (get_run-Does row.run_id) (λ a d h. h))
      (λ stopped. does_bind does_now λ t.
        does_bind
          (does_write {Q = Changes d₀} _
            λ d h. next h.0 (Change.rearm row.run_id row t h.1 stopped))
          λ _.
            does_bind (append_event-Obeys row.run_id "run.restarted" _ d₀)
              λ _. get_run-Does row.run_id)

pub restart_run-Follows : (id reason : String) → Follows (restart_run id reason)
unfolding restart_run
restart_run-Follows id reason =
    Follows-bind (Follows-text reason)
      λ _. Follows-transaction λ d. does_bind (run_row-Does id) λ row. rearm-Does d row reason

pub complete_run-Follows : (id : String) (result : Value) → Follows (complete_run id result)
unfolding complete_run
complete_run-Follows id result =
    Follows-bind
      (Follows-transaction λ d. does_bind (run_row-Does id) λ row.
        does_with (does_guard _ _) λ _ live. does_bind (does_read _) λ pending.
          does_with (does_guard _ _) λ _ decided. does_bind (detect-Does _) λ violations.
            does_with (does_guard _ _) λ _ resolved. does_bind (does_read _) λ unresolved.
              does_with (does_guard _ _) λ _ settled.
                does_bind (record_result_tx-Does (run-framed row) d id "semantic" result _ _)
                  λ _. set_run_status-Does d row completed "run.completed" _)
      λ _. get_run-Follows id

fail_or_stop-Does :
    (d₀ : Db) (row : Run) (error : Value) (unresolved : ℕ)
    → Does
        (At d₀ (λ d. find_run row.run_id d ≡ some row))
        (fail_or_stop row error unresolved)
        (λ _. Changes d₀)
unfolding fail_or_stop
fail_or_stop-Does d₀ row error unresolved =
    does_if _
      (λ _. does_bind (record_result_tx-Does (run-framed row) d₀ row.run_id "error" error _ _) λ _.
        does_bind (set_run_status-Does d₀ row failed "run.failed" _)
          λ _. does_return false (λ d h. h))
      (λ _.
        does_bind (set_run_status-Does d₀ row safe_stopped "run.safe_stopped" _)
          λ _. does_return true (λ d h. h))

pub fail_run-Follows : (id : String) (error : Value) → Follows (fail_run id error)
unfolding fail_run
fail_run-Follows id error =
    Follows-bind
      (Follows-transaction λ d.
        does_bind (run_row-Does id)
          λ row. does_bind (does_read _) λ unresolved. fail_or_stop-Does d row error unresolved)
      λ blocked. Follows-bind (Follows-guard blocked _) λ _. get_run-Follows id

pub safe_stop_run-Follows : (id reason : String) → Follows (safe_stop_run id reason)
unfolding safe_stop_run
safe_stop_run-Follows id reason = Follows-bind (Follows-text reason) λ _.
    Follows-bind
      (Follows-transaction λ d.
        does_bind (run_row-Does id)
          λ row. set_run_status-Does d row safe_stopped "run.safe_stopped" _)
      λ _. get_run-Follows id

pub begin_recovery-Follows : (id reason : String) → Follows (begin_recovery id reason)
unfolding begin_recovery enter_recovery
begin_recovery-Follows id reason = Follows-bind (Follows-text reason) λ _.
    Follows-bind
      (Follows-transaction λ d. does_bind (run_row-Does id) λ row.
        does_bind (does_read _) λ unresolved.
          does_with (does_guard _ _)
            λ _ settled. set_run_status-Does d row recovering "run.recovering" _)
      λ _. get_run-Follows id
