-- ===== src/Owner/Core/Status.antt =====
-- The status that `_set_run_status` (src/zworkbench/composition.py) leaves in the run's row.
use zworkbench.Common.Unique.{find-update}
use zworkbench.Owner.Core.{
  add_event, same_status, has_run_id, find_run, set_run_status, add_result, put_status,
}
use zworkbench.Common.{ℕ, String, ◌≡◌, refl, true, some, arith}
use zworkbench.Json.{Fields}
use zworkbench.Owner.State.{Db, Run, RunStatus}
use zworkbench.Exec.Does.{
  Does, does_bind, does_weaken, does_return, does_write, does_guard, does_if, does_now,
}
use zworkbench.Owner.Core.Transactions.{append_event-Keeps}
use zworkbench.Owner.Core.Steps.{Framed}

same_status-equal : (a b : RunStatus) → same_status a b ≡ true → a ≡ b
unfolding same_status
same_status-equal a b h = ground arith

-- What the row of a run, the events and the results do not touch.
abbrev pub StatusFramed : (Db → Type 0) → Type 0
StatusFramed F =
    Framed F
    × ((id : String) (status : RunStatus) (t : ℕ) (d : Db) → F d → F (put_status id status t d))

-- The run has the status, and `F` holds.
abbrev pub HasStatus : String → RunStatus → (Db → Type 0) → Db → Type 0
HasStatus id status F d = ((r : Run) × (find_run id d ≡ some r) × (r.status ≡ status)) × F d

has-framed :
    (id : String) (status : RunStatus) (F : Db → Type 0) → Framed F → Framed (HasStatus id status F)
unfolding find_run add_event add_result
has-framed id status F framed = (λ d e h. (h.0, framed.0 d e h.1), λ d r h. (h.0, framed.1 d r h.1))

put-found :
    (row : Run) (status : RunStatus) (t : ℕ) (d : Db)
    → find_run row.run_id d ≡ some row
    → find_run row.run_id (put_status row.run_id status t d)
      ≡ some (record row { status = status; updated_at = t })
unfolding find_run put_status
put-found row status t d e = find-update (has_run_id row.run_id) _ d.runs row (λ x. refl) e

pub set_run_status-Sets :
    {F : Db → Type 0}
    → StatusFramed F
    → (row : Run) (status : RunStatus) (event_type : String) (payload : Fields)
    → Does
        (λ d. (find_run row.run_id d ≡ some row) × F d)
        (set_run_status row status event_type payload)
        (λ _. HasStatus row.run_id status F)
unfolding set_run_status
set_run_status-Sets {F} framed row status event_type payload =
    does_if _
      (λ same_already.
        does_return tt λ d h. ((row, h.0, same_status-equal row.status status same_already), h.1))
      (λ _. does_bind (does_weaken (λ d h. h) (does_guard _ _) (λ a d h. h.0)) λ _.
        does_bind does_now λ t.
          does_bind
            (does_write {Q = HasStatus row.run_id status F} _ λ d h. (
              (record row { status = status; updated_at = t }, put-found row status t d h.0, refl),
              framed.1 row.run_id status t d h.1,
            ))
            λ _.
              does_bind
                (append_event-Keeps (has-framed row.run_id status F framed.0) row.run_id event_type
                  _)
                λ _. does_return tt (λ d h. h))

pub set_run_status-Keeps :
    {F : Db → Type 0}
    → StatusFramed F
    → (row : Run) (status : RunStatus) (event_type : String) (payload : Fields)
    → Does F (set_run_status row status event_type payload) (λ _. F)
unfolding set_run_status
set_run_status-Keeps {F} framed row status event_type payload =
    does_if _ (λ _. does_return tt (λ d h. h))
      (λ _. does_bind (does_weaken (λ d h. h) (does_guard _ _) (λ a d h. h.0)) λ _.
        does_bind does_now λ t.
          does_bind (does_write {Q = F} _ (λ d h. framed.1 row.run_id status t d h)) λ _.
            does_bind (append_event-Keeps framed.0 row.run_id event_type _)
              λ _. does_return tt (λ d h. h))
