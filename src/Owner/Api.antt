-- ===== src/Owner/Api.antt =====
-- Every public operation of `CompositionOwner` (src/zworkbench/composition.py) that Owner/* models,
-- as a call, and a history of calls on one owner. The three retry layers share their calls.
pub mod Follow
use zworkbench.Common.{String, Option, List, [], ◌∷◌}
use zworkbench.Common.Int.{ℤ}
use zworkbench.Json.{Value, Fields}
use zworkbench.Exec.{Exec}
use zworkbench.Owner.State.{Owner}
use zworkbench.Owner.Approvals.{ApprovalRequest}
use zworkbench.Owner.Claim.Request.{ClaimRequest}
use zworkbench.Owner.Evidence.{ReplayRequest}
use zworkbench.Owner.Retries.{Layer, RetryRequest}
use zworkbench.Owner.Ledgers.{RestartRequest, AttemptReport, GateReport}
use zworkbench.Owner.Exits
use zworkbench.Owner.Fallbacks
use zworkbench.Owner.Exits.{ExitReport}
use zworkbench.Owner.Fallbacks.{FallbackReport}
use zworkbench.Owner.Runs
use zworkbench.Owner.Approvals
use zworkbench.Owner.Claim
use zworkbench.Owner.Exposures
use zworkbench.Owner.Effects
use zworkbench.Owner.Judgment
use zworkbench.Owner.Evidence
use zworkbench.Owner.Retries
use zworkbench.Owner.Ledgers
use zworkbench.Owner.Auth

pub data Call : Type 0 where
  get_run : String → Call
  create_run : String → String → Value → Fields → Call
  start_run : String → Call
  restart_run : String → String → Call
  complete_run : String → Value → Call
  fail_run : String → Value → Call
  safe_stop_run : String → String → Call
  begin_recovery : String → String → Call
  request_approval : ApprovalRequest → Call
  approve : String → ℤ → Call
  deny_approval : String → String → Call
  claim_effect : ClaimRequest → Call
  get_declared_exposure : String → Call
  declare_exposure : String → List String → Fields → Call
  complete_effect : String → Value → Fields → Call
  mark_effect_uncertain : String → Value → Call
  reconcile_effect : String → String → Value → Call
  safe_stop_on_identity_violation : String → Call
  reconcile_identity : String → Call
  record_result : String → String → Value → Option String → String → Call
  record_event : String → String → Fields → Option String → String → Call
  record_replay_metadata : ReplayRequest → Call
  declare_retry_budget : Layer → String → ℤ → String → Call
  record_retry_consumption : Layer → RetryRequest → Call
  declare_run_restart_budget : String → ℤ → String → Call
  record_run_restart : RestartRequest → Call
  record_provider_attempt : AttemptReport → Call
  record_provider_access_gate : GateReport → Call
  record_provider_exit_ledger : ExitReport → Call
  record_provider_exit_ledger_once : ExitReport → Call
  attach_provider_exit_receipt : String → Fields → Call
  record_provider_fallback : FallbackReport → Call
  enable_caller_auth : String → String → Call
  register_caller : String → String → Call
  authenticate_caller : String → String → Call
  close reopen : Call

module _ {A : Type 0} where
  -- The owner as an operation leaves it, whether it returns or raises.
  abbrev pub left_by : Exec A → Owner → Owner
  left_by m s = (m s).1

unfoldable pub perform : Call → Owner → Owner
perform (get_run a) = left_by (Runs.get_run a)
perform (create_run a b c d) = left_by (Runs.create_run a b c d)
perform (start_run a) = left_by (Runs.start_run a)
perform (restart_run a b) = left_by (Runs.restart_run a b)
perform (complete_run a b) = left_by (Runs.complete_run a b)
perform (fail_run a b) = left_by (Runs.fail_run a b)
perform (safe_stop_run a b) = left_by (Runs.safe_stop_run a b)
perform (begin_recovery a b) = left_by (Runs.begin_recovery a b)
perform (request_approval a) = left_by (Approvals.request_approval a)
perform (approve a b) = left_by (Approvals.approve a b)
perform (deny_approval a b) = left_by (Approvals.deny_approval a b)
perform (claim_effect a) = left_by (Claim.claim_effect a)
perform (get_declared_exposure a) = left_by (Exposures.get_declared_exposure a)
perform (declare_exposure a b c) = left_by (Exposures.declare_exposure a b c)
perform (complete_effect a b c) = left_by (Effects.complete_effect a b c)
perform (mark_effect_uncertain a b) = left_by (Effects.mark_effect_uncertain a b)
perform (reconcile_effect a b c) = left_by (Effects.reconcile_effect a b c)
perform (safe_stop_on_identity_violation a) = left_by (Judgment.safe_stop_on_identity_violation a)
perform (reconcile_identity a) = left_by (Judgment.reconcile_identity a)
perform (record_result a b c d e) = left_by (Evidence.record_result a b c d e)
perform (record_event a b c d e) = left_by (Evidence.record_event a b c d e)
perform (record_replay_metadata a) = left_by (Evidence.record_replay_metadata a)
perform (declare_retry_budget a b c d) = left_by (Retries.declare_retry_budget a b c d)
perform (record_retry_consumption a b) = left_by (Retries.record_retry_consumption a b)
perform (declare_run_restart_budget a b c) = left_by (Ledgers.declare_run_restart_budget a b c)
perform (record_run_restart a) = left_by (Ledgers.record_run_restart a)
perform (record_provider_attempt a) = left_by (Ledgers.record_provider_attempt a)
perform (record_provider_access_gate a) = left_by (Ledgers.record_provider_access_gate a)
perform (record_provider_exit_ledger a) = left_by (Exits.record_provider_exit_ledger a)
perform (record_provider_exit_ledger_once a) = left_by (Exits.record_provider_exit_ledger_once a)
perform (attach_provider_exit_receipt a b) = left_by (Exits.attach_provider_exit_receipt a b)
perform (record_provider_fallback a) = left_by (Fallbacks.record_provider_fallback a)
perform (enable_caller_auth a b) = left_by (Auth.enable_caller_auth a b)
perform (register_caller a b) = left_by (Auth.register_caller a b)
perform (authenticate_caller a b) = left_by (Auth.authenticate_caller a b)
perform close = Auth.close
perform reopen = Auth.reopen

-- A history of calls, the first one first. An exception ends its call only.
unfoldable pub perform_all : List Call → Owner → Owner
unfolding perform
perform_all [] s = s
perform_all (c ∷ cs) s = perform_all cs (perform c s)
