-- ===== src/Owner/Atomic/Calls.antt =====
-- The methods that are one transaction after their checks (src/zworkbench/composition.py).
use zworkbench.Owner.Atomic.{Quiet, Undone, UndoneAt, undone_rules}
use zworkbench.Owner.Claim.Request.{ClaimRequest}
use zworkbench.Common.Int.{ℤ}
use zworkbench.Owner.Exposures.{get_declared_exposure, declare_exposure}
use zworkbench.Owner.Claim.{validate_effect_inputs, claim_effect}
use zworkbench.Owner.Approvals.{ApprovalRequest, approve, request_approval, deny_approval}
use zworkbench.Owner.Api.{Call, perform}
use zworkbench.Owner.Evidence.{record_event, require_given, record_result, record_replay_metadata}
use zworkbench.Owner.Auth.{enable_caller_auth, authenticate_caller, register_caller, reopen, close}
use zworkbench.Owner.Effects.{
  Outcome, complete_effect, not_applied, reconcile_effect, applied, mark_effect_uncertain,
  check_evidence,
}
use zworkbench.Common.{String, ◌≡◌, Bool, true, false, Option, none, some}
use zworkbench.Json.{Value, Fields}
use zworkbench.Exec.{Exec, Result, ok, err}
use zworkbench.Owner.State.{Owner}
use zworkbench.Owner.Auth
use zworkbench.Owner.Evidence
use zworkbench.Owner.Effects
use zworkbench.Owner.Exposures
use zworkbench.Owner.Claim
use zworkbench.Owner.Approvals

validate-Quiet : (q : ClaimRequest) → Quiet (validate_effect_inputs q)
unfolding validate_effect_inputs
validate-Quiet q = search undone_rules depth 20

check_evidence-Quiet :
    (outcome : Outcome) (evidence : Value) → Quiet (check_evidence outcome evidence)
unfolding check_evidence
check_evidence-Quiet Outcome.applied evidence = search undone_rules
check_evidence-Quiet Outcome.not_applied evidence = search undone_rules
check_evidence-Quiet Outcome.unknown evidence = search undone_rules

require_given-Quiet : (given : Option String) → Quiet (require_given given)
unfolding require_given
require_given-Quiet none = search undone_rules
require_given-Quiet (some id) = search undone_rules

-- The checks of the arguments.
ruleset quiet_parts = (validate-Quiet, check_evidence-Quiet, require_given-Quiet)

request_approval-Undone : (a : ApprovalRequest) → Undone (request_approval a)
unfolding request_approval
request_approval-Undone a = search (undone_rules, quiet_parts) depth 30

approve-Undone : (a : String) (b : ℤ) → Undone (approve a b)
unfolding approve
approve-Undone a b = search (undone_rules, quiet_parts) depth 30

deny_approval-Undone : (a : String) (b : String) → Undone (deny_approval a b)
unfolding deny_approval
deny_approval-Undone a b = search (undone_rules, quiet_parts) depth 30

claim_effect-Undone : (a : ClaimRequest) → Undone (claim_effect a)
unfolding claim_effect
claim_effect-Undone a = search (undone_rules, quiet_parts) depth 30

get_declared_exposure-Undone : (a : String) → Undone (get_declared_exposure a)
unfolding get_declared_exposure
get_declared_exposure-Undone a = search (undone_rules, quiet_parts) depth 30

complete_effect-Undone : (a : String) (b : Value) (c : Fields) → Undone (complete_effect a b c)
unfolding complete_effect
complete_effect-Undone a b c = search (undone_rules, quiet_parts) depth 30

mark_effect_uncertain-Undone : (a : String) (b : Value) → Undone (mark_effect_uncertain a b)
unfolding mark_effect_uncertain
mark_effect_uncertain-Undone a b = search (undone_rules, quiet_parts) depth 30

reconcile_effect-Undone : (a : String) (b : String) (c : Value) → Undone (reconcile_effect a b c)
unfolding reconcile_effect
reconcile_effect-Undone a b c = search (undone_rules, quiet_parts) depth 30

record_result-Undone :
    (a : String) (b : String) (c : Value) (d : Option String) (e : String)
    → Undone (record_result a b c d e)
unfolding record_result
record_result-Undone a b c d e = search (undone_rules, quiet_parts) depth 30

record_event-Undone :
    (a : String) (b : String) (c : Fields) (d : Option String) (e : String)
    → Undone (record_event a b c d e)
unfolding record_event
record_event-Undone a b c d e = search (undone_rules, quiet_parts) depth 30

register_caller-Undone : (a : String) (b : String) → Undone (register_caller a b)
unfolding register_caller
register_caller-Undone a b = search (undone_rules, quiet_parts) depth 30

abbrev has_raised : {A : Type 0} → Result A → Bool
has_raised (ok a) = false
has_raised (err e) = true

-- Whether a call that is one transaction after the checks of its arguments raises.
unfoldable pub raises : Call → Owner → Bool
raises (Call.request_approval a) s = has_raised (Approvals.request_approval a s).0
raises (Call.approve a b) s = has_raised (Approvals.approve a b s).0
raises (Call.deny_approval a b) s = has_raised (Approvals.deny_approval a b s).0
raises (Call.claim_effect a) s = has_raised (Claim.claim_effect a s).0
raises (Call.get_declared_exposure a) s = has_raised (Exposures.get_declared_exposure a s).0
raises (Call.complete_effect a b c) s = has_raised (Effects.complete_effect a b c s).0
raises (Call.mark_effect_uncertain a b) s = has_raised (Effects.mark_effect_uncertain a b s).0
raises (Call.reconcile_effect a b c) s = has_raised (Effects.reconcile_effect a b c s).0
raises (Call.record_result a b c d e) s = has_raised (Evidence.record_result a b c d e s).0
raises (Call.record_event a b c d e) s = has_raised (Evidence.record_event a b c d e s).0
raises (Call.register_caller a b) s = has_raised (Auth.register_caller a b s).0
raises _ s = false

undone :
    {A : Type 0} (m : Exec A) (s : Owner) → Undone m → has_raised (m s).0 ≡ true → (m s).1.db ≡ s.db
undone {A} m s h raised = by_result (m s).0 (h.at s) raised
  where
    by_result :
        (r : Result A) → UndoneAt r s.db (m s).1.db → has_raised r ≡ true → (m s).1.db ≡ s.db
    by_result (ok a) k e = cc
    by_result (err x) k e = k

-- When a call of an approval method, `claim_effect`, `complete_effect`, `mark_effect_uncertain`,
-- `reconcile_effect`, `record_result`, `record_event`, `get_declared_exposure` or `register_caller`
-- raises, the database is as it was before the call, on every path.
pub failed_call_undone :
    (call : Call) (s : Owner) → raises call s ≡ true → (perform call s).db ≡ s.db
unfolding raises perform
failed_call_undone (Call.get_run a) s raised = cc
failed_call_undone (Call.create_run a b c d) s raised = cc
failed_call_undone (Call.start_run a) s raised = cc
failed_call_undone (Call.restart_run a b) s raised = cc
failed_call_undone (Call.complete_run a b) s raised = cc
failed_call_undone (Call.fail_run a b) s raised = cc
failed_call_undone (Call.safe_stop_run a b) s raised = cc
failed_call_undone (Call.begin_recovery a b) s raised = cc
failed_call_undone (Call.request_approval a) s raised =
    undone (Approvals.request_approval a) s (request_approval-Undone a) raised
failed_call_undone (Call.approve a b) s raised =
    undone (Approvals.approve a b) s (approve-Undone a b) raised
failed_call_undone (Call.deny_approval a b) s raised =
    undone (Approvals.deny_approval a b) s (deny_approval-Undone a b) raised
failed_call_undone (Call.claim_effect a) s raised =
    undone (Claim.claim_effect a) s (claim_effect-Undone a) raised
failed_call_undone (Call.get_declared_exposure a) s raised =
    undone (Exposures.get_declared_exposure a) s (get_declared_exposure-Undone a) raised
failed_call_undone (Call.declare_exposure a b c) s raised = cc
failed_call_undone (Call.complete_effect a b c) s raised =
    undone (Effects.complete_effect a b c) s (complete_effect-Undone a b c) raised
failed_call_undone (Call.mark_effect_uncertain a b) s raised =
    undone (Effects.mark_effect_uncertain a b) s (mark_effect_uncertain-Undone a b) raised
failed_call_undone (Call.reconcile_effect a b c) s raised =
    undone (Effects.reconcile_effect a b c) s (reconcile_effect-Undone a b c) raised
failed_call_undone (Call.safe_stop_on_identity_violation a) s raised = cc
failed_call_undone (Call.reconcile_identity a) s raised = cc
failed_call_undone (Call.record_result a b c d e) s raised =
    undone (Evidence.record_result a b c d e) s (record_result-Undone a b c d e) raised
failed_call_undone (Call.record_event a b c d e) s raised =
    undone (Evidence.record_event a b c d e) s (record_event-Undone a b c d e) raised
failed_call_undone (Call.record_replay_metadata a) s raised = cc
failed_call_undone (Call.declare_retry_budget a b c d) s raised = cc
failed_call_undone (Call.record_retry_consumption a b) s raised = cc
failed_call_undone (Call.declare_run_restart_budget a b c) s raised = cc
failed_call_undone (Call.record_run_restart a) s raised = cc
failed_call_undone (Call.record_provider_attempt a) s raised = cc
failed_call_undone (Call.record_provider_access_gate a) s raised = cc
failed_call_undone (Call.record_provider_exit_ledger a) s raised = cc
failed_call_undone (Call.record_provider_exit_ledger_once a) s raised = cc
failed_call_undone (Call.attach_provider_exit_receipt a b) s raised = cc
failed_call_undone (Call.record_provider_fallback a) s raised = cc
failed_call_undone (Call.enable_caller_auth a b) s raised = cc
failed_call_undone (Call.register_caller a b) s raised =
    undone (Auth.register_caller a b) s (register_caller-Undone a b) raised
failed_call_undone (Call.authenticate_caller a b) s raised = cc
failed_call_undone Call.close s raised = cc
failed_call_undone Call.reopen s raised = cc
