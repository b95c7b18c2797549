-- ===== src/Owner/Ledgers/Follow.antt =====
-- The other ledgers keep to the contract of Owner/Change.
use zworkbench.Common.Int.{ℤ}
use zworkbench.Common.{String, ℕ}
use zworkbench.Owner.Core.Steps.{append_event-Obeys, run_row-Follows, run_row-Known, not-false}
use zworkbench.Owner.Retries.Follow.{optional_text-Follows, charge-Does, Room-read}
use zworkbench.Owner.Rules.{
  Obeys, Follows-guard, Follows-positive, Follows-bind, Follows-draw, Follows, Follows-text,
  Follows-non_negative, Follows-query, Follows-new_id, Follows-or_raise, Follows-connection,
  Follows-now, Follows-transaction, Follows-credentials, Follows-with, yields_guard, Follows-fresh,
}
use zworkbench.Owner.Ledgers.{
  consume_restart, record_provider_attempt, record_provider_access_gate, declare_run_restart_budget,
  RestartRequest, record_run_restart, GateReport, AttemptReport,
}
use zworkbench.Exec.Does.{does_return, does_bind, does_write, does_with, does_query, does_fresh}
use zworkbench.Owner.Aside.{Aside}
use zworkbench.Owner.Change.{Change, Changes, next, one}

pub declare_run_restart_budget-Follows :
    (run_id : String) (max_restarts : ℤ) (declared_by : String)
    → Follows (declare_run_restart_budget run_id max_restarts declared_by)
unfolding declare_run_restart_budget
declare_run_restart_budget-Follows run_id max_restarts declared_by =
    Follows-bind (Follows-text _) λ _. Follows-bind (Follows-non_negative _) λ ceiling.
      Follows-bind (Follows-text _) λ _. Follows-bind (Follows-credentials _) λ _.
        Follows-bind Follows-now λ t.
          Follows-bind
            (Follows-transaction λ d. does_bind (run_row-Known run_id) λ row.
              does_write {Q = Changes d} _
                λ d' h. next h.0 (Change.other (Aside.declare_restarts _ (row, h.1))))
            λ _. Follows-bind Follows-connection λ _.
              Follows-bind (Follows-text _)
                λ _. Follows-bind (Follows-query _) λ found. Follows-or_raise found _

consume_restart-Obeys :
    (q : RestartRequest) (attempt t : ℕ) (id : String) → Obeys (consume_restart q attempt t id)
unfolding consume_restart
consume_restart-Obeys q attempt t id d = does_bind (run_row-Known q.run_id) λ row.
    does_bind (does_query _) λ budget. does_bind (does_query _) λ prior.
      does_with (charge-Does budget prior) λ bound room. does_fresh _ _ λ _.
        does_bind
          (does_write {Q = Changes d} _ λ d' h.
            let ((((c, found), same), equal), fresh) = h in
            next c (
              Change.other
                (Aside.consume_restart _ (row, found) (Room-read _ _ _ _ same equal room) fresh)))
          λ _.
            does_bind (append_event-Obeys q.run_id "run.restart_budget.consumption.recorded" _ d)
              λ _. does_return tt (λ d' h. h)

pub record_run_restart-Follows : (q : RestartRequest) → Follows (record_run_restart q)
unfolding record_run_restart
record_run_restart-Follows q = Follows-bind (Follows-text _) λ _. Follows-bind (Follows-text _) λ _.
    Follows-bind (Follows-positive _) λ attempt. Follows-bind (Follows-text _) λ _.
      Follows-bind (Follows-text _) λ _. Follows-bind (Follows-credentials _) λ _.
        Follows-bind Follows-now λ t. Follows-bind Follows-new_id λ id.
          Follows-bind (Follows-transaction (consume_restart-Obeys q attempt t id)) λ _.
            Follows-bind Follows-connection
              λ _. Follows-bind (Follows-query _) λ found. Follows-or_raise found _

pub record_provider_attempt-Follows : (q : AttemptReport) → Follows (record_provider_attempt q)
unfolding record_provider_attempt
record_provider_attempt-Follows q = Follows-bind (Follows-text _) λ _.
    Follows-bind (Follows-text _) λ _. Follows-bind (Follows-text _) λ _.
      Follows-bind (Follows-positive _) λ attempt.
        Follows-with (Follows-guard _ _) (yields_guard _ _) λ _ status.
          Follows-bind (optional_text-Follows _) λ _. Follows-bind (Follows-credentials _) λ _.
            Follows-bind Follows-now λ t. Follows-bind Follows-new_id λ id.
              Follows-bind
                (Follows-transaction λ d. does_bind (run_row-Known q.run_id) λ row.
                  does_fresh _ _ λ _.
                    does_bind
                      (does_write {Q = Changes d} _ λ d' h. next h.0.0 (
                        Change.other
                          (Aside.report_attempt _ (not-false _ status) (row, h.0.1) h.1)))
                      λ _. append_event-Obeys q.run_id "provider.attempt.ledger.recorded" _ d)
                λ _.
                  Follows-bind Follows-connection
                    λ _. Follows-bind (Follows-query _) λ found. Follows-or_raise found _

pub record_provider_access_gate-Follows : (q : GateReport) → Follows (record_provider_access_gate q)
unfolding record_provider_access_gate
record_provider_access_gate-Follows q = Follows-bind (Follows-text _) λ _.
    Follows-with (Follows-guard _ _) (yields_guard _ _) λ _ class.
      Follows-with (Follows-guard _ _) (yields_guard _ _) λ _ reason.
        Follows-bind Follows-connection λ _. Follows-bind (run_row-Follows _) λ row.
          Follows-bind (Follows-draw _) λ id. Follows-bind Follows-now λ t.
            Follows-fresh _ _ _ _
              (λ d fresh. one (Change.other (Aside.report_gate _ (not-false _ class) reason fresh)))
