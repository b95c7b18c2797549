-- ===== src/Owner/Locked/Calls.antt =====
-- Without the caller that it demands, an owner writes nothing
-- (src/zworkbench/composition.py, `_transaction`).
use zworkbench.Owner.Claim.Request.{ClaimRequest}
use zworkbench.Common.Int.{ℤ}
use zworkbench.Owner.Evidence.{
  ReplayRequest, record_replay_metadata, record_result, require_given, record_event,
}
use zworkbench.Owner.Identity.{detect_identity_violations, Finding}
use zworkbench.Owner.Approvals.{approve, ApprovalRequest, request_approval, deny_approval}
use zworkbench.Owner.Claim.{validate_effect_inputs, claim_effect}
use zworkbench.Json.{Value, Fields}
use zworkbench.Owner.Effects.{
  check_evidence, mark_effect_uncertain, Outcome, reconcile_effect, complete_effect,
}
use zworkbench.Owner.Retries.{declare_retry_budget, Layer, RetryRequest, record_retry_consumption}
use zworkbench.Owner.Ledgers.{
  declare_run_restart_budget, RestartRequest, AttemptReport, record_provider_attempt,
  record_run_restart,
}
use zworkbench.Owner.Exposures.{get_declared_exposure, declare_exposure}
use zworkbench.Owner.Judgment.{
  reconcile_findings, reconcile_identity, judge, report_clean, safe_stop_on_identity_violation,
  stop_and_log,
}
use zworkbench.Owner.Runs.{
  create_run, complete_run, fail_run, restart_run, get_run, begin_recovery, safe_stop_run,
  start_run,
}
use zworkbench.Owner.Locked.Ledgers.{
  run_row-Inert, optional_text-Inert, record_provider_exit_ledger-Inert,
  record_provider_exit_ledger_once-Inert, attach_provider_exit_receipt-Inert,
  record_provider_fallback-Inert,
}
use zworkbench.Owner.Auth.{reopen, register_caller, close}
use zworkbench.Common.{String, ◌≡◌, refl, Bool, true, false, Option, none, some, List, [], ◌∷◌}
use zworkbench.Owner.State.{Owner}
use zworkbench.Owner.Api.{Call, perform}
use zworkbench.Owner.Locked.{Inert, inert_rules}

get_run-Inert : (id : String) → Inert (get_run id)
unfolding get_run
get_run-Inert id = search (inert_rules, run_row-Inert) depth 12

validate-Inert : (q : ClaimRequest) → Inert (validate_effect_inputs q)
unfolding validate_effect_inputs
validate-Inert q = search inert_rules depth 20

check_evidence-Inert :
    (outcome : Outcome) (evidence : Value) → Inert (check_evidence outcome evidence)
unfolding check_evidence
check_evidence-Inert Outcome.applied evidence = search inert_rules
check_evidence-Inert Outcome.not_applied evidence = search inert_rules
check_evidence-Inert Outcome.unknown evidence = search inert_rules

require_given-Inert : (given : Option String) → Inert (require_given given)
unfolding require_given
require_given-Inert none = search inert_rules
require_given-Inert (some id) = search inert_rules

detect-Inert : (scope : Option String) → Inert (detect_identity_violations scope)
unfolding detect_identity_violations
detect-Inert scope = search inert_rules depth 12

judge-Inert : (run_id : String) (findings : List Finding) → Inert (judge run_id findings)
unfolding judge report_clean stop_and_log
judge-Inert run_id [] = search (inert_rules, get_run-Inert) depth 12
judge-Inert run_id (f ∷ fs) = search inert_rules depth 12

reconcile_findings-Inert :
    (run_id : String) (findings : List Finding) → Inert (reconcile_findings run_id findings)
unfolding reconcile_findings report_clean stop_and_log
reconcile_findings-Inert run_id [] = search (inert_rules, get_run-Inert) depth 12
reconcile_findings-Inert run_id (f ∷ fs) = search inert_rules depth 12

-- The steps that several methods share.
ruleset parts = (
  run_row-Inert, get_run-Inert, validate-Inert, check_evidence-Inert, require_given-Inert,
  optional_text-Inert, detect-Inert, judge-Inert, reconcile_findings-Inert,
)

create_run-Inert : (a : String) (b : String) (c : Value) (d : Fields) → Inert (create_run a b c d)
unfolding create_run
create_run-Inert a b c d = search (inert_rules, parts) depth 30

start_run-Inert : (a : String) → Inert (start_run a)
unfolding start_run
start_run-Inert a = search (inert_rules, parts) depth 30

restart_run-Inert : (a : String) (b : String) → Inert (restart_run a b)
unfolding restart_run
restart_run-Inert a b = search (inert_rules, parts) depth 30

complete_run-Inert : (a : String) (b : Value) → Inert (complete_run a b)
unfolding complete_run
complete_run-Inert a b = search (inert_rules, parts) depth 30

fail_run-Inert : (a : String) (b : Value) → Inert (fail_run a b)
unfolding fail_run
fail_run-Inert a b = search (inert_rules, parts) depth 30

safe_stop_run-Inert : (a : String) (b : String) → Inert (safe_stop_run a b)
unfolding safe_stop_run
safe_stop_run-Inert a b = search (inert_rules, parts) depth 30

begin_recovery-Inert : (a : String) (b : String) → Inert (begin_recovery a b)
unfolding begin_recovery
begin_recovery-Inert a b = search (inert_rules, parts) depth 30

request_approval-Inert : (a : ApprovalRequest) → Inert (request_approval a)
unfolding request_approval
request_approval-Inert a = search (inert_rules, parts) depth 30

approve-Inert : (a : String) (b : ℤ) → Inert (approve a b)
unfolding approve
approve-Inert a b = search (inert_rules, parts) depth 30

deny_approval-Inert : (a : String) (b : String) → Inert (deny_approval a b)
unfolding deny_approval
deny_approval-Inert a b = search (inert_rules, parts) depth 30

claim_effect-Inert : (a : ClaimRequest) → Inert (claim_effect a)
unfolding claim_effect
claim_effect-Inert a = search (inert_rules, parts) depth 30

get_declared_exposure-Inert : (a : String) → Inert (get_declared_exposure a)
unfolding get_declared_exposure
get_declared_exposure-Inert a = search (inert_rules, parts) depth 30

declare_exposure-Inert :
    (a : String) (b : List String) (c : Fields) → Inert (declare_exposure a b c)
unfolding declare_exposure
declare_exposure-Inert a b c = search (inert_rules, parts, get_declared_exposure-Inert) depth 30

complete_effect-Inert : (a : String) (b : Value) (c : Fields) → Inert (complete_effect a b c)
unfolding complete_effect
complete_effect-Inert a b c = search (inert_rules, parts) depth 30

mark_effect_uncertain-Inert : (a : String) (b : Value) → Inert (mark_effect_uncertain a b)
unfolding mark_effect_uncertain
mark_effect_uncertain-Inert a b = search (inert_rules, parts) depth 30

reconcile_effect-Inert : (a : String) (b : String) (c : Value) → Inert (reconcile_effect a b c)
unfolding reconcile_effect
reconcile_effect-Inert a b c = search (inert_rules, parts) depth 30

safe_stop_on_identity_violation-Inert : (a : String) → Inert (safe_stop_on_identity_violation a)
unfolding safe_stop_on_identity_violation
safe_stop_on_identity_violation-Inert a = search (inert_rules, parts) depth 30

reconcile_identity-Inert : (a : String) → Inert (reconcile_identity a)
unfolding reconcile_identity
reconcile_identity-Inert a = search (inert_rules, parts) depth 30

record_result-Inert :
    (a : String) (b : String) (c : Value) (d : Option String) (e : String)
    → Inert (record_result a b c d e)
unfolding record_result
record_result-Inert a b c d e = search (inert_rules, parts) depth 30

record_event-Inert :
    (a : String) (b : String) (c : Fields) (d : Option String) (e : String)
    → Inert (record_event a b c d e)
unfolding record_event
record_event-Inert a b c d e = search (inert_rules, parts) depth 30

record_replay_metadata-Inert : (a : ReplayRequest) → Inert (record_replay_metadata a)
unfolding record_replay_metadata
record_replay_metadata-Inert a = search (inert_rules, parts) depth 30

declare_retry_budget-Inert :
    (a : Layer) (b : String) (c : ℤ) (d : String) → Inert (declare_retry_budget a b c d)
unfolding declare_retry_budget
declare_retry_budget-Inert a b c d = search (inert_rules, parts) depth 30

record_retry_consumption-Inert :
    (a : Layer) (b : RetryRequest) → Inert (record_retry_consumption a b)
unfolding record_retry_consumption
record_retry_consumption-Inert a b = search (inert_rules, parts) depth 30

declare_run_restart_budget-Inert :
    (a : String) (b : ℤ) (c : String) → Inert (declare_run_restart_budget a b c)
unfolding declare_run_restart_budget
declare_run_restart_budget-Inert a b c = search (inert_rules, parts) depth 30

record_run_restart-Inert : (a : RestartRequest) → Inert (record_run_restart a)
unfolding record_run_restart
record_run_restart-Inert a = search (inert_rules, parts) depth 30

record_provider_attempt-Inert : (a : AttemptReport) → Inert (record_provider_attempt a)
unfolding record_provider_attempt
record_provider_attempt-Inert a = search (inert_rules, parts) depth 30

register_caller-Inert : (a : String) (b : String) → Inert (register_caller a b)
unfolding register_caller
register_caller-Inert a b = search (inert_rules, parts) depth 30

-- The calls that go through `_transaction()`, and those that only read.
unfoldable pub is_guarded : Call → Bool
is_guarded (Call.enable_caller_auth id token) = false
is_guarded (Call.authenticate_caller id token) = false
is_guarded (Call.record_provider_access_gate q) = false
is_guarded _ = true

-- On an owner that requires a caller and has no session, no call changes the database, but for the
-- two that give authentication and `record_provider_access_gate`.
pub locked_writes_nothing :
    (call : Call) (s : Owner)
    → is_guarded call ≡ true
    → s.caller_auth_required ≡ true
    → s.caller_session ≡ none
    → (perform call s).db ≡ s.db
unfolding is_guarded perform close reopen
locked_writes_nothing (Call.get_run a) s g required absent =
    ((get_run-Inert a).at s (required, absent)).1
locked_writes_nothing (Call.create_run a b c d) s g required absent =
    ((create_run-Inert a b c d).at s (required, absent)).1
locked_writes_nothing (Call.start_run a) s g required absent =
    ((start_run-Inert a).at s (required, absent)).1
locked_writes_nothing (Call.restart_run a b) s g required absent =
    ((restart_run-Inert a b).at s (required, absent)).1
locked_writes_nothing (Call.complete_run a b) s g required absent =
    ((complete_run-Inert a b).at s (required, absent)).1
locked_writes_nothing (Call.fail_run a b) s g required absent =
    ((fail_run-Inert a b).at s (required, absent)).1
locked_writes_nothing (Call.safe_stop_run a b) s g required absent =
    ((safe_stop_run-Inert a b).at s (required, absent)).1
locked_writes_nothing (Call.begin_recovery a b) s g required absent =
    ((begin_recovery-Inert a b).at s (required, absent)).1
locked_writes_nothing (Call.request_approval a) s g required absent =
    ((request_approval-Inert a).at s (required, absent)).1
locked_writes_nothing (Call.approve a b) s g required absent =
    ((approve-Inert a b).at s (required, absent)).1
locked_writes_nothing (Call.deny_approval a b) s g required absent =
    ((deny_approval-Inert a b).at s (required, absent)).1
locked_writes_nothing (Call.claim_effect a) s g required absent =
    ((claim_effect-Inert a).at s (required, absent)).1
locked_writes_nothing (Call.get_declared_exposure a) s g required absent =
    ((get_declared_exposure-Inert a).at s (required, absent)).1
locked_writes_nothing (Call.declare_exposure a b c) s g required absent =
    ((declare_exposure-Inert a b c).at s (required, absent)).1
locked_writes_nothing (Call.complete_effect a b c) s g required absent =
    ((complete_effect-Inert a b c).at s (required, absent)).1
locked_writes_nothing (Call.mark_effect_uncertain a b) s g required absent =
    ((mark_effect_uncertain-Inert a b).at s (required, absent)).1
locked_writes_nothing (Call.reconcile_effect a b c) s g required absent =
    ((reconcile_effect-Inert a b c).at s (required, absent)).1
locked_writes_nothing (Call.safe_stop_on_identity_violation a) s g required absent =
    ((safe_stop_on_identity_violation-Inert a).at s (required, absent)).1
locked_writes_nothing (Call.reconcile_identity a) s g required absent =
    ((reconcile_identity-Inert a).at s (required, absent)).1
locked_writes_nothing (Call.record_result a b c d e) s g required absent =
    ((record_result-Inert a b c d e).at s (required, absent)).1
locked_writes_nothing (Call.record_event a b c d e) s g required absent =
    ((record_event-Inert a b c d e).at s (required, absent)).1
locked_writes_nothing (Call.record_replay_metadata a) s g required absent =
    ((record_replay_metadata-Inert a).at s (required, absent)).1
locked_writes_nothing (Call.declare_retry_budget a b c d) s g required absent =
    ((declare_retry_budget-Inert a b c d).at s (required, absent)).1
locked_writes_nothing (Call.record_retry_consumption a b) s g required absent =
    ((record_retry_consumption-Inert a b).at s (required, absent)).1
locked_writes_nothing (Call.declare_run_restart_budget a b c) s g required absent =
    ((declare_run_restart_budget-Inert a b c).at s (required, absent)).1
locked_writes_nothing (Call.record_run_restart a) s g required absent =
    ((record_run_restart-Inert a).at s (required, absent)).1
locked_writes_nothing (Call.record_provider_attempt a) s g required absent =
    ((record_provider_attempt-Inert a).at s (required, absent)).1
locked_writes_nothing (Call.record_provider_access_gate a) s g required absent = cc
locked_writes_nothing (Call.record_provider_exit_ledger a) s g required absent =
    ((record_provider_exit_ledger-Inert a).at s (required, absent)).1
locked_writes_nothing (Call.record_provider_exit_ledger_once a) s g required absent =
    ((record_provider_exit_ledger_once-Inert a).at s (required, absent)).1
locked_writes_nothing (Call.attach_provider_exit_receipt a b) s g required absent =
    ((attach_provider_exit_receipt-Inert a b).at s (required, absent)).1
locked_writes_nothing (Call.record_provider_fallback a) s g required absent =
    ((record_provider_fallback-Inert a).at s (required, absent)).1
locked_writes_nothing (Call.enable_caller_auth a b) s g required absent = cc
locked_writes_nothing (Call.register_caller a b) s g required absent =
    ((register_caller-Inert a b).at s (required, absent)).1
locked_writes_nothing (Call.authenticate_caller a b) s g required absent = cc
locked_writes_nothing Call.close s g required absent = refl
locked_writes_nothing Call.reopen s g required absent = refl
