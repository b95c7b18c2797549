-- ===== src/Owner/Judgment/Follow.antt =====
-- The enforcement of the identity graph keeps to the contract of Owner/Change.
use zworkbench.Owner.Runs.Follow.{get_run-Follows}
use zworkbench.Owner.Judgment.{
  reconcile_findings, stop_and_log, reconcile_identity, report_clean,
  safe_stop_on_identity_violation, judge,
}
use zworkbench.Owner.State.{safe_stopped}
use zworkbench.Owner.Identity.{Finding, detect_identity_violations}
use zworkbench.Exec.Does.{does_bind}
use zworkbench.Common.{List, String, [], ◌∷◌, Option}
use zworkbench.Json.{Fields}
use zworkbench.Owner.Core.Steps.{append_event-Obeys, set_run_status-Does, run_row-Does}
use zworkbench.Owner.Rules.{
  Follows-connection, Follows-query, Follows-bind, Follows-ask, Follows, Follows-pure,
  Follows-transaction, Follows-or_raise,
}

detect-Follows : (scope : Option String) → Follows (detect_identity_violations scope)
unfolding detect_identity_violations
detect-Follows scope = Follows-bind Follows-connection λ _.
    Follows-bind (Follows-ask _)
      λ repr. Follows-bind (Follows-query _) λ found. Follows-or_raise found _

report_clean-Follows : (run_id : String) → Follows (report_clean run_id)
unfolding report_clean
report_clean-Follows run_id = Follows-bind (get_run-Follows run_id) λ view. Follows-pure _

stop_and_log-Follows :
    (run_id event_type : String) (payload : Fields) (findings : List Finding)
    → Follows (stop_and_log run_id event_type payload findings)
unfolding stop_and_log
stop_and_log-Follows run_id event_type payload findings =
    Follows-bind
      (Follows-transaction λ d. does_bind (run_row-Does run_id) λ row.
        does_bind (set_run_status-Does d row safe_stopped "run.safe_stopped" _)
          λ _. append_event-Obeys run_id event_type payload d)
      λ _. Follows-pure _

judge-Follows : (run_id : String) (findings : List Finding) → Follows (judge run_id findings)
unfolding judge
judge-Follows run_id [] = report_clean-Follows run_id
judge-Follows run_id (f ∷ fs) = stop_and_log-Follows run_id _ _ _

pub safe_stop_on_identity_violation-Follows :
    (run_id : String) → Follows (safe_stop_on_identity_violation run_id)
unfolding safe_stop_on_identity_violation
safe_stop_on_identity_violation-Follows run_id =
    Follows-bind (detect-Follows _) λ findings. judge-Follows run_id findings

reconcile_findings-Follows :
    (run_id : String) (findings : List Finding) → Follows (reconcile_findings run_id findings)
unfolding reconcile_findings
reconcile_findings-Follows run_id [] =
    Follows-bind (Follows-transaction λ d. append_event-Obeys run_id "run.identity.reconciled" _ d)
      λ _. report_clean-Follows run_id
reconcile_findings-Follows run_id (f ∷ fs) = stop_and_log-Follows run_id _ _ _

pub reconcile_identity-Follows : (run_id : String) → Follows (reconcile_identity run_id)
unfolding reconcile_identity
reconcile_identity-Follows run_id =
    Follows-bind (detect-Follows _) λ findings. reconcile_findings-Follows run_id findings
