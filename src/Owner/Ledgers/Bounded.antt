-- ===== src/Owner/Ledgers/Bounded.antt =====
-- The ceiling of a run's restart budget holds (src/zworkbench/composition.py).
use mathlib.Core.Option.{some-injective, none-ne-some}
use zworkbench.Owner.Core.{add_result, add_event}
use zworkbench.Owner.Retries.Bounded.{charged}
use zworkbench.Owner.Ledgers.{
  RestartRequest, new_restart, add_restart, record_run_restart, consume_restart, restarts_of,
  restart_of,
}
use zworkbench.Owner.Retries.{find_budget, charge}
use zworkbench.Common.{
  ℕ, ◌≡◌, refl, String, Option, none, some, ◌≤◌, ◌+◌, ◌∙◌, ◌∷◌, [], ◌++◌, ◌==◌, eq_iff, arith, true,
}
use zworkbench.Common.Tables.{count, count-append}
use zworkbench.Exec.Does.{
  Does, does_bind, does_weaken, does_query, does_guard, does_write, does_return, does_read,
  does_or_raise,
}
use zworkbench.Exec.Outcome.{does_any, does_ok}
use zworkbench.Exec.{ok}
use zworkbench.Owner.State.{Owner, Db, Budget, Bound, Restart}
use zworkbench.Owner.Core.Steps.{does_connection, Framed}
use zworkbench.Owner.Core.Transactions.{does_transaction, append_event-Keeps}

module _ (q : RestartRequest) where
  -- What is recorded, and so many more, is within what is declared.
  abbrev Within : ℕ → Db → Type 0
  Within n d =
      (b : Budget)
      → find_budget q.run_id d.restart_budgets ≡ some b
      → count (restart_of q.run_id) d.restarts + n ≤ b.max_retries

  charge-Within :
      (budget : Option Budget) (prior : ℕ)
      → Does
          (λ d.
            (budget ≡ find_budget q.run_id d.restart_budgets)
            × (prior ≡ count (restart_of q.run_id) d.restarts))
          (charge budget prior)
          (λ _. Within 1)
  unfolding charge
  charge-Within none prior = does_return _ (λ d h b e. absurd (none-ne-some b (h.0 ∙ e)))
  charge-Within (some c) prior =
      does_bind (does_guard _ _)
        λ _. does_return _ λ d h b e. charged c b prior _ (some-injective c b (h.0.0 ∙ e)) h.0.1 h.1

  added :
      (id : String) (attempt : ℕ) (bound : Bound) (t : ℕ) (d : Db)
      → Within 1 d
      → Within 0 (add_restart (new_restart q id attempt bound t) d)
  unfolding add_restart
  added id attempt bound t d room b e =
      let left : count (restart_of q.run_id) d.restarts + 1 ≤ b.max_retries = room b e in
      let own : (q.run_id == q.run_id) ≡ true = (eq_iff _ _).1 refl in
      let more : count (restart_of q.run_id) (d.restarts ++ new_restart q id attempt bound t ∷ [])
          ≡ count (restart_of q.run_id) d.restarts + 1 =
        count-append (restart_of q.run_id) d.restarts _ ∙ ground arith in
      omega arith

  Within-framed : Framed (Within 0)
  unfolding add_event add_result
  Within-framed = (λ d e h. h, λ d r h. h)

  consume_restart-Within :
      (attempt t : ℕ) (id : String)
      → Does (λ _. Unit {0}) (consume_restart q attempt t id) (λ _. Within 0)
  unfolding consume_restart restarts_of
  consume_restart-Within attempt t id = does_bind (does_any _) λ row.
      does_bind (does_query _) λ budget. does_bind (does_query _) λ prior.
        does_bind (does_weaken (λ d h. (h.0.1, h.1)) (charge-Within budget prior) (λ a d h. h))
          λ bound. does_bind (does_read _) λ conflict.
            does_bind (does_weaken (λ d h. h) (does_guard _ _) (λ a d h. h.0)) λ _.
              does_bind (does_write {Q = Within 0} _ (added id attempt bound t)) λ _.
                does_bind
                  (append_event-Keeps Within-framed q.run_id
                    "run.restart_budget.consumption.recorded" _)
                  λ _. does_return tt (λ d h. h)

  record_run_restart-Within : Does (λ _. Unit {0}) (record_run_restart q) (λ _. Within 0)
  unfolding record_run_restart
  record_run_restart-Within = does_bind (does_any _) λ _. does_bind (does_any _) λ _.
      does_bind (does_any _) λ attempt. does_bind (does_any _) λ _. does_bind (does_any _) λ _.
        does_bind (does_any _) λ _. does_bind (does_any _) λ t. does_bind (does_any _) λ id.
          does_bind (does_transaction (consume_restart-Within attempt t id)) λ _.
            does_bind does_connection λ _.
              does_bind (does_read _)
                λ found. does_weaken (λ d h. h) (does_or_raise found _) (λ a d h. h.0)

-- When `record_run_restart` has returned, and the run has a declared restart budget, then the
-- restarts recorded for the run are within its ceiling.
pub restarts_bounded :
    (q : RestartRequest) (s s' : Owner) (r : Restart) (b : Budget)
    → record_run_restart q s ≡ (ok r, s')
    → find_budget q.run_id s'.db.restart_budgets ≡ some b
    → restarts_of q.run_id s'.db ≤ b.max_retries
unfolding restarts_of
restarts_bounded q s s' r b returned declared =
    let bound : count (restart_of q.run_id) s'.db.restarts + 0 ≤ b.max_retries =
      does_ok (record_run_restart-Within q) s s' r returned tt b declared in
    omega arith
