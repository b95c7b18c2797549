-- ===== src/Owner/Judgment.antt =====
-- The enforcement of the identity graph: `safe_stop_on_identity_violation` and
-- `reconcile_identity` of src/zworkbench/composition.py.
pub mod Follow
use zworkbench.Owner.Runs.{runs_code}
use zworkbench.Common.{ℕ, suc, String, Bool, true, false, some, List, [], ◌∷◌}
use zworkbench.Json.{text, int, arr, Fields, end, field}
use zworkbench.Exec.{Exec, pure, ◌>>=◌, ◌>>◌}
use zworkbench.Owner.State.{RunStatus, safe_stopped}
use zworkbench.Owner.Core.{transaction, run_row, append_event, set_run_status}
use zworkbench.Owner.Identity.{Finding, detect_identity_violations, findings_value}
use zworkbench.Owner.Runs.{get_run}

-- What both methods return: the findings, and the status.
pub record Judgment : Type 0 where
  pub violations : List Finding
  pub stopped : Bool
  pub status : RunStatus

abbrev pub length : List Finding → ℕ
length [] = 0
length (f ∷ fs) = suc (length fs)

unfoldable pub report_clean : String → Exec Judgment
report_clean run_id = do
  view ← get_run run_id
  pure (record { violations = []; stopped = false; status = view.run.status })

-- `_set_run_status` does nothing where the run is already stopped.
unfoldable pub stop_and_log : String → String → Fields → List Finding → Exec Judgment
stop_and_log run_id event_type payload findings = do
  transaction (do
    row ← run_row run_id
    set_run_status row safe_stopped "run.safe_stopped"
        (field "reason" (text "identity_unresolved") end)
    append_event run_id event_type payload)
  pure (record { violations = findings; stopped = true; status = safe_stopped })

unfoldable pub judge : String → List Finding → Exec Judgment
judge run_id [] = report_clean run_id
judge run_id (f ∷ fs) =
    stop_and_log run_id "run.identity.violation"
      (field "reason" (text "identity_unresolved")
        (field "violations" (arr (findings_value (f ∷ fs))) end))
      (f ∷ fs)

unfoldable pub safe_stop_on_identity_violation : String → Exec Judgment
safe_stop_on_identity_violation run_id = do
  findings ← detect_identity_violations (some run_id)
  judge run_id findings

unfoldable pub reconcile_findings : String → List Finding → Exec Judgment
reconcile_findings run_id [] = do
  transaction (
      append_event run_id "run.identity.reconciled"
        (field "outcome" (text "resolved") (field "violation_count" (int 0) end)))
  report_clean run_id
reconcile_findings run_id (f ∷ fs) =
    stop_and_log run_id "run.identity.reconciled"
      (field "outcome" (text "unknown") (
        field "violation_count" (int (length (f ∷ fs)))
          (field "violations" (arr (findings_value (f ∷ fs))) end)))
      (f ∷ fs)

unfoldable pub reconcile_identity : String → Exec Judgment
reconcile_identity run_id = do
  findings ← detect_identity_violations (some run_id)
  reconcile_findings run_id findings

-- Opens the code of this module, for a run of it.
unfoldable pub judgment_code : Unit {0}
unfolding runs_code report_clean stop_and_log judge safe_stop_on_identity_violation
    reconcile_findings reconcile_identity
judgment_code = tt
