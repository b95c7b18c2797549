-- ===== src/Owner/Runs/Completed.antt =====
-- When `complete_run` (src/zworkbench/composition.py) returns.
use mathlib.Core.Option.{some-injective}
use zworkbench.Owner.Runs.Follow.{detect-Does}
use zworkbench.Exec.{◌>>=◌, ok}
use zworkbench.Common.Tables.{find-holds}
use zworkbench.Owner.Core.{
  add_event, run_row, set_run_status, record_result_tx, native, put_status, find_run, add_result,
}
use zworkbench.Owner.Core.Steps.{run-framed, Framed, does_connection}
use zworkbench.Owner.Runs.{
  complete_run, get_run, RunView, pending_approvals, unresolved_effects, completed,
}
use zworkbench.Owner.Core.Transactions.{does_transaction, record_result_tx-Keeps}
use zworkbench.Common.{ℕ, String, ◌≡◌, sym, ◌∙◌, false, some, arith, ap, subst, eq_iff, not, nat_eq}
use zworkbench.Json.{Value, end}
use zworkbench.Exec.Does.{
  Does, does_bind, does_weaken, does_return, does_query, does_read, does_guard, does_or_raise,
  does_with,
}
use zworkbench.Exec.Outcome.{does_ok}
use zworkbench.Owner.State.{Db, Run, RunStatus, Owner}
use zworkbench.Owner.Core.Status.{HasStatus, StatusFramed, set_run_status-Sets}

zero_of : (n : ℕ) → not (nat_eq n 0) ≡ false → n ≡ 0
zero_of n h = ground arith

abbrev Settled : String → Db → Type 0
Settled id d = (unresolved_effects id d ≡ 0) × (pending_approvals id d ≡ 0)

Settled-framed : (id : String) → StatusFramed (Settled id)
unfolding unresolved_effects add_event add_result put_status
Settled-framed id = ((λ d e h. h, λ d r h. h), λ i st t d h. h)

-- The row is under the identity that was asked for.
row_id : (id : String) (row : Run) (d : Db) → find_run id d ≡ some row → row.run_id ≡ id
unfolding find_run
row_id id row d e = (eq_iff _ _).0 (find-holds _ d.runs row e)

-- `get_run` reads the status that the run has.
pub get_run-Shows :
    {F : Db → Type 0} (id : String) (status : RunStatus)
    → Does (HasStatus id status F) (get_run id) (λ view d. (view.run.status ≡ status) × F d)
unfolding get_run run_row
get_run-Shows {F} id status = does_bind does_connection λ _.
    does_bind
      (does_bind (does_query _) λ found.
        does_weaken (λ d h. h) (does_or_raise found _)
          λ run d h. let (((r, e, s), f), asked) = h.0 in (shown run r (sym h.1 ∙ asked ∙ e) s, f))
      λ run.
        does_bind (does_read _)
          λ effects. does_bind (does_read _) λ results. does_return _ (λ d h. h)
  where
    shown : (run r : Run) → some run ≡ some r → r.status ≡ status → run.status ≡ status
    shown run r e s = ap (λ x. x.status) (some-injective run r e) ∙ s

abbrev Found : String → Run → Db → Type 0
Found id row d = find_run id d ≡ some row

finish-Sets :
    (id : String) (row : Run) (result : Value)
    → row.run_id ≡ id
    → Does
        (λ d. Found row.run_id row d × Settled id d)
        (record_result_tx id "semantic" result (some "run") native >>= λ _.
          set_run_status row completed "run.completed" end)
        (λ _. HasStatus id completed (Settled id))
finish-Sets id row result same_id =
    does_bind
      (record_result_tx-Keeps (found-framed row id) id "semantic" result (some "run") native)
      λ _.
        does_weaken (λ d h. h)
          (set_run_status-Sets (Settled-framed id) row completed "run.completed" end)
          (λ a d h. subst (λ i. HasStatus i completed (Settled id) d) same_id h)
  where
    found-framed : (row : Run) (id : String) → Framed (λ d. Found row.run_id row d × Settled id d)
    found-framed row id = (
      λ d e h. ((run-framed row).0 d e h.0, (Settled-framed id).0.0 d e h.1),
      λ d r h. ((run-framed row).1 d r h.0, (Settled-framed id).0.1 d r h.1),
    )

complete_run-Settles :
    (id : String) (result : Value)
    → Does
        (λ _. Unit {0})
        (complete_run id result)
        (λ view d. (view.run.status ≡ completed) × Settled id d)
unfolding complete_run run_row
complete_run-Settles id result =
    does_bind
      (does_transaction (
        does_bind
          (does_bind (does_query _) λ found.
            does_weaken {Q = λ row d. find_run id d ≡ some row} (λ d h. h) (does_or_raise found _)
              (λ row d h. sym h.0.1 ∙ h.1))
          λ row.
            does_with
              (does_weaken {Q = λ _ d. (find_run id d ≡ some row) × (row.run_id ≡ id)} (λ d h. h)
                (does_guard _ _) (λ a d h. (h.0, row_id id row d h.0)))
              λ _ same_id. does_bind (does_query _) λ pending. does_bind (does_guard _ _) λ _.
                does_bind (detect-Does _) λ violations.
                  does_bind (does_weaken (λ d h. h) (does_guard _ _) (λ a d h. h.0)) λ _.
                    does_bind (does_query _) λ unresolved. does_bind (does_guard _ _) λ _.
                      does_weaken
                        (λ d h.
                          let none_unresolved : unresolved_effects id d ≡ 0 =
                            sym h.0.1 ∙ zero_of unresolved h.1 in
                          let none_pending : pending_approvals id d ≡ 0 =
                            sym h.0.0.0.1 ∙ zero_of pending h.0.0.1 in
                          (
                            subst (λ i. Found i row d) (sym same_id) h.0.0.0.0,
                            (none_unresolved, none_pending),
                          ))
                        (finish-Sets id row result same_id) (λ a d h. h)))
      λ _. get_run-Shows id completed

-- When `complete_run` returns, the run that it returns is completed, and in the database the run has
-- no effect that is claimed, uncertain, retryable or unknown, and no pending approval.
pub complete_run_settled :
    (id : String) (result : Value) (s s' : Owner) (view : RunView)
    → complete_run id result s ≡ (ok view, s')
    → (view.run.status ≡ completed)
      × (unresolved_effects id s'.db ≡ 0)
      × (pending_approvals id s'.db ≡ 0)
complete_run_settled id result s s' view returned =
    let (status, (effects, approvals)) =
      does_ok (complete_run-Settles id result) s s' view returned tt in
    (status, effects, approvals)
