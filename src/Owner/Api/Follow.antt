-- ===== src/Owner/Api/Follow.antt =====
-- Every call, and so every history, keeps to the contract of Owner/Change.
use zworkbench.Common.{List, [], ◌∷◌}
use zworkbench.Owner.State.{Owner}
use zworkbench.Owner.Change.{Changes, Changes-trans, here}
use zworkbench.Owner.Auth
use zworkbench.Owner.Api.{Call, perform, perform_all}
use zworkbench.Owner.Runs.Follow.{
  get_run-Follows, create_run-Follows, start_run-Follows, restart_run-Follows, complete_run-Follows,
  fail_run-Follows, safe_stop_run-Follows, begin_recovery-Follows,
}
use zworkbench.Owner.Approvals.Follow.{
  request_approval-Follows, approve-Follows, deny_approval-Follows,
}
use zworkbench.Owner.Claim.Follow.{claim_effect-Follows}
use zworkbench.Owner.Exposures.Follow.{get_declared_exposure-Follows, declare_exposure-Follows}
use zworkbench.Owner.Effects.Follow.{
  complete_effect-Follows, mark_effect_uncertain-Follows, reconcile_effect-Follows,
}
use zworkbench.Owner.Judgment.Follow.{
  safe_stop_on_identity_violation-Follows, reconcile_identity-Follows,
}
use zworkbench.Owner.Evidence.Follow.{
  record_result-Follows, record_event-Follows, record_replay_metadata-Follows,
}
use zworkbench.Owner.Retries.Follow.{declare_retry_budget-Follows, record_retry_consumption-Follows}
use zworkbench.Owner.Ledgers.Follow.{
  declare_run_restart_budget-Follows, record_run_restart-Follows, record_provider_attempt-Follows,
  record_provider_access_gate-Follows,
}
use zworkbench.Owner.Exits.Follow.{
  record_provider_exit_ledger-Follows, record_provider_exit_ledger_once-Follows,
  attach_provider_exit_receipt-Follows,
}
use zworkbench.Owner.Fallbacks.Follow.{record_provider_fallback-Follows}
use zworkbench.Owner.Auth.Follow.{
  enable_caller_auth-Follows, register_caller-Follows, authenticate_caller-Follows,
}

pub perform-Changes : (call : Call) (s : Owner) → Changes s.db (perform call s).db
unfolding perform Auth.close Auth.reopen
perform-Changes (Call.get_run a) s = (get_run-Follows a).at s
perform-Changes (Call.create_run a b c d) s = (create_run-Follows a b c d).at s
perform-Changes (Call.start_run a) s = (start_run-Follows a).at s
perform-Changes (Call.restart_run a b) s = (restart_run-Follows a b).at s
perform-Changes (Call.complete_run a b) s = (complete_run-Follows a b).at s
perform-Changes (Call.fail_run a b) s = (fail_run-Follows a b).at s
perform-Changes (Call.safe_stop_run a b) s = (safe_stop_run-Follows a b).at s
perform-Changes (Call.begin_recovery a b) s = (begin_recovery-Follows a b).at s
perform-Changes (Call.request_approval a) s = (request_approval-Follows a).at s
perform-Changes (Call.approve a b) s = (approve-Follows a b).at s
perform-Changes (Call.deny_approval a b) s = (deny_approval-Follows a b).at s
perform-Changes (Call.claim_effect a) s = (claim_effect-Follows a).at s
perform-Changes (Call.get_declared_exposure a) s = (get_declared_exposure-Follows a).at s
perform-Changes (Call.declare_exposure a b c) s = (declare_exposure-Follows a b c).at s
perform-Changes (Call.complete_effect a b c) s = (complete_effect-Follows a b c).at s
perform-Changes (Call.mark_effect_uncertain a b) s = (mark_effect_uncertain-Follows a b).at s
perform-Changes (Call.reconcile_effect a b c) s = (reconcile_effect-Follows a b c).at s
perform-Changes (Call.safe_stop_on_identity_violation a) s =
    (safe_stop_on_identity_violation-Follows a).at s
perform-Changes (Call.reconcile_identity a) s = (reconcile_identity-Follows a).at s
perform-Changes (Call.record_result a b c d e) s = (record_result-Follows a b c d e).at s
perform-Changes (Call.record_event a b c d e) s = (record_event-Follows a b c d e).at s
perform-Changes (Call.record_replay_metadata a) s = (record_replay_metadata-Follows a).at s
perform-Changes (Call.declare_retry_budget a b c d) s = (declare_retry_budget-Follows a b c d).at s
perform-Changes (Call.record_retry_consumption a b) s = (record_retry_consumption-Follows a b).at s
perform-Changes (Call.declare_run_restart_budget a b c) s =
    (declare_run_restart_budget-Follows a b c).at s
perform-Changes (Call.record_run_restart a) s = (record_run_restart-Follows a).at s
perform-Changes (Call.record_provider_attempt a) s = (record_provider_attempt-Follows a).at s
perform-Changes (Call.record_provider_access_gate a) s =
    (record_provider_access_gate-Follows a).at s
perform-Changes (Call.record_provider_exit_ledger a) s =
    (record_provider_exit_ledger-Follows a).at s
perform-Changes (Call.record_provider_exit_ledger_once a) s =
    (record_provider_exit_ledger_once-Follows a).at s
perform-Changes (Call.attach_provider_exit_receipt a b) s =
    (attach_provider_exit_receipt-Follows a b).at s
perform-Changes (Call.record_provider_fallback a) s = (record_provider_fallback-Follows a).at s
perform-Changes (Call.enable_caller_auth a b) s = (enable_caller_auth-Follows a b).at s
perform-Changes (Call.register_caller a b) s = (register_caller-Follows a b).at s
perform-Changes (Call.authenticate_caller a b) s = (authenticate_caller-Follows a b).at s
perform-Changes Call.close s = here
perform-Changes Call.reopen s = here

-- Whatever calls are made on an owner, and whether each returns or raises, the database moves only by
-- the statements that Owner/Change and Owner/Aside list, each from a database at which the guard that
-- stands there beside it holds; the declaration of a retry budget and the enabling of authentication
-- have none.
pub perform_all-Changes : (calls : List Call) (s : Owner) → Changes s.db (perform_all calls s).db
unfolding perform_all
perform_all-Changes [] s = here
perform_all-Changes (c ∷ cs) s =
    Changes-trans (perform-Changes c s) (perform_all-Changes cs (perform c s))
