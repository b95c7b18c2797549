-- ===== src/Tests/Witnesses.antt =====
-- The theorems at concrete inputs.
use zworkbench.Owner.Ledgers.Bounded.{restarts_bounded}
use zworkbench.Owner.Ledgers.{record_run_restart, restarts_of, ledgers_code}
use zworkbench.Owner.Claim.Grants.{ClaimedFor}
use zworkbench.Owner.Claim.Request.{executable, EffectClaim, ClaimStatus}
use zworkbench.Owner.Claim.Granted.{claim_effect_granted}
use zworkbench.Owner.Runs.Completed.{complete_run_settled}
use zworkbench.Owner.Invariants.Effects.{Settled}
use zworkbench.Credentials.{raw_credential}
use zworkbench.Common.Text.{is_blank}
use zworkbench.Owner.Core.{has_run_id}
use zworkbench.Owner.Api.Follow.{perform_all-Changes}
use zworkbench.Owner.Retries.Bounded.{retries_bounded}
use zworkbench.Owner.Invariants.Decided.{approval_staged, decision_final}
use zworkbench.Owner.Locked.Calls.{is_guarded, locked_writes_nothing}
use zworkbench.Owner.Approvals.{approvals_code}
use zworkbench.Owner.Auth.{auth_code}
use zworkbench.Owner.Atomic.Calls.{raises, failed_call_undone}
use zworkbench.Owner.Effects.{effects_code}
use zworkbench.Owner.Runs.{runs_code, unresolved_effects, RunView, pending_approvals, complete_run}
use zworkbench.Owner.Invariants.Once.{
  physical_effects, attempts_bounded, operation_once, physical_once,
}
use zworkbench.Owner.Invariants.Approvals.{Stage}
use zworkbench.Owner.Invariants.Evidence.{events_appended, evidence_clean, EvidenceValid}
use zworkbench.Owner.Invariants.Final.{completed_final}
use zworkbench.Owner.Invariants.Runs.{run_identity_kept, run_unique, identity_of}
use zworkbench.Owner.Claim.{claim_code, claim_effect}
use zworkbench.Common.{
  ℕ, ◌≡◌, ◌≤◌, ◌<◌, refl, String, none, some, List, ◌++◌, inl, true, ◌==◌, map, [], Bool, ap, false,
  ◌∷◌,
}
use zworkbench.Common.Tables.{In, count}
use zworkbench.Json.{obj, end, Value, Fields, canonical_fields, null}
use zworkbench.Exec.{Result}
use zworkbench.Owner.State.{
  Owner, Effect, EffectStatus, Approval, ApprovalStatus, Consumption, Budget, Bound, Event,
  new_owner, RunStatus, created, Restart,
}
use zworkbench.Owner.Retries.{
  Layer, record_retry_consumption, consumed, retries_code, find_budget, retry_tables,
}
use zworkbench.Owner.Change.{Changes}
use zworkbench.Owner.Api.{Call, perform, perform_all}
use zworkbench.Owner.Invariants.{after}
use zworkbench.Tests.World.{
  plain_env, completed_calls, later_calls, denied_calls, locked_owner, first_retry, budget_owner,
  simple_claim, restart_owner, first_restart,
}

abbrev done_effect : Effect
done_effect = record {
  effect_id = "iiiiiiii";
  run_id = "r";
  operation_id = "o";
  idempotency_key = "k";
  effect_class = "idempotent";
  action = "write";
  resource = "file";
  status = EffectStatus.completed;
  attempt = 1;
  max_attempts = 2;
  physical_effect_count = 1;
  approval_id = none;
  external_receipt = some (obj end);
  last_error = none;
  created_at = 6;
  updated_at = 10;
}

abbrev denied_row : Approval
denied_row = record {
  approval_id = "iiiiiiii";
  run_id = "r";
  operation_id = "d";
  action = "delete";
  resource = "file";
  idempotency_key = "kd";
  reason = "cleanup";
  status = ApprovalStatus.denied;
  token_hash = none;
  expires_at = none;
  created_at = 6;
  decided_at = some 10;
  decision_reason = some "no";
  consumed_at = none;
}

abbrev retry_row : Consumption
retry_row = record {
  ledger_id = "iiiiii";
  run_id = "r";
  subject = "p";
  request_id = "q";
  attempt_number = 1;
  failure_class = "timeout";
  target = none;
  reason = "again";
  bound = Bound.enforced;
  recorded_at = 4;
}

abbrev one_retry : Budget
one_retry = record { subject = "p"; max_retries = 1; declared_by = "owner"; declared_at = 3 }

abbrev charged_owner : Owner
charged_owner = perform (Call.record_retry_consumption Layer.provider first_retry) budget_owner

abbrev done_owner : Owner
done_owner = perform_all completed_calls (new_owner plain_env)

-- The view of a run that a method returns.
abbrev view_or : RunView → Result RunView → RunView
view_or other (Result.ok view) = view
view_or other (Result.err e) = other

abbrev no_view : RunView
no_view = record {
  run = record {
    run_id = "";
    task_type = "";
    input = null;
    metadata = end;
    status = created;
    created_at = 0;
    updated_at = 0;
  };
  effects = [];
  results = [];
}

abbrev started_owner : Owner
started_owner =
    perform_all (Call.create_run "r" "task" null end ∷ Call.start_run "r" ∷ [])
      (new_owner plain_env)

abbrev finished_view : RunView
finished_view = view_or no_view (complete_run "r" null started_owner).0

abbrev is_ok : Result RunView → Bool
is_ok (Result.ok view) = true
is_ok (Result.err e) = false

ok_view : (r : Result RunView) → is_ok r ≡ true → r ≡ Result.ok (view_or no_view r)
ok_view (Result.ok view) h = refl
ok_view (Result.err e) h = cc

run_finishes : is_ok (complete_run "r" null started_owner).0 ≡ true
unfolding perform_all runs_code raw_credential is_blank canonical_fields
run_finishes = refl

finished :
    complete_run "r" null started_owner
    ≡ (Result.ok finished_view, (complete_run "r" null started_owner).1)
finished = ap (λ r. (r, (complete_run "r" null started_owner).1)) (ok_view _ run_finishes)

abbrev grant : EffectClaim
grant = record {
  effect_id = some "iiiiiiii";
  status = ClaimStatus.granted;
  attempt = 1;
  physical_effect_count = 0;
  reason = "new_effect";
}

claim_grants : (claim_effect simple_claim started_owner).0 ≡ Result.ok grant
unfolding perform_all runs_code claim_code raw_credential is_blank canonical_fields
claim_grants = refl

granted_claim :
    claim_effect simple_claim started_owner
    ≡ (Result.ok grant, (claim_effect simple_claim started_owner).1)
granted_claim = ap (λ r. (r, (claim_effect simple_claim started_owner).1)) claim_grants

abbrev restart_row : Restart
restart_row = record {
  ledger_id = "iiiiii";
  run_id = "r";
  request_id = "q";
  attempt_number = 1;
  trigger = "crash";
  reason = "again";
  bound = Bound.enforced;
  recorded_at = 4;
}

abbrev one_restart : Budget
one_restart = record { subject = "r"; max_retries = 1; declared_by = "owner"; declared_at = 3 }

restart_recorded : (record_run_restart first_restart restart_owner).0 ≡ Result.ok restart_row
unfolding perform_all runs_code ledgers_code raw_credential is_blank canonical_fields
restart_recorded = refl

restart_returned :
    record_run_restart first_restart restart_owner
    ≡ (Result.ok restart_row, (record_run_restart first_restart restart_owner).1)
restart_returned =
    ap (λ r. (r, (record_run_restart first_restart restart_owner).1)) restart_recorded

restart_budget :
    find_budget "r" (record_run_restart first_restart restart_owner).1.db.restart_budgets
    ≡ some one_restart
unfolding perform_all runs_code ledgers_code raw_credential is_blank canonical_fields
restart_budget = refl

done-In : In done_effect (after plain_env completed_calls).effects
unfolding perform_all runs_code claim_code effects_code raw_credential is_blank canonical_fields
done-In = inl refl

denied-In : In denied_row (after plain_env denied_calls).approvals
unfolding perform_all runs_code approvals_code raw_credential is_blank canonical_fields
denied-In = inl refl

charged_row :
    record_retry_consumption Layer.provider first_retry budget_owner
    ≡ (Result.ok retry_row, charged_owner)
unfolding perform_all runs_code retries_code raw_credential is_blank canonical_fields
charged_row = refl

one_budget : find_budget "p" (retry_tables Layer.provider charged_owner.db).budgets ≡ some one_retry
unfolding perform_all runs_code retries_code raw_credential is_blank canonical_fields
one_budget = refl

locked : (locked_owner.caller_auth_required ≡ true) × (locked_owner.caller_session ≡ none)
unfolding perform_all auth_code raw_credential is_blank canonical_fields
locked = (refl, refl)

raised : raises (Call.complete_effect "missing" (obj end) end) done_owner ≡ true
unfolding raises perform_all runs_code claim_code effects_code raw_credential is_blank
    canonical_fields
raised = refl

perform_all-Changes_example :
    Changes (new_owner plain_env).db (perform_all completed_calls (new_owner plain_env)).db
perform_all-Changes_example = perform_all-Changes completed_calls (new_owner plain_env)

physical_once_example : physical_effects "k" (after plain_env completed_calls).effects ≤ 1
physical_once_example = physical_once plain_env completed_calls "k"

operation_once_example :
    count (λ e. e.operation_id == "o") (after plain_env completed_calls).effects ≤ 1
operation_once_example = operation_once plain_env completed_calls "o"

completed_final_example :
    In done_effect
      (perform_all later_calls (perform_all completed_calls (new_owner plain_env))).db.effects
completed_final_example =
    completed_final plain_env completed_calls later_calls done_effect done-In refl

attempts_bounded_example : (0 < 1) × (1 ≤ 2) × Settled EffectStatus.completed 1
attempts_bounded_example = attempts_bounded plain_env completed_calls done_effect done-In

decision_final_example :
    In denied_row
      (perform_all later_calls (perform_all denied_calls (new_owner plain_env))).db.approvals
decision_final_example =
    decision_final plain_env denied_calls later_calls denied_row denied-In (inl refl)

approval_staged_example : Stage ApprovalStatus.denied none (some 10) none
approval_staged_example = approval_staged plain_env denied_calls denied_row denied-In

evidence_clean_example : EvidenceValid (after plain_env completed_calls)
evidence_clean_example = evidence_clean plain_env completed_calls

events_appended_example :
    (more : List Event) × ((perform_all later_calls done_owner).db.events
      ≡ done_owner.db.events ++ more)
events_appended_example = events_appended done_owner later_calls

run_identity_kept_example :
    (more : List (String × String × Value × Fields × ℕ)) × (map identity_of
        (perform_all later_calls done_owner).db.runs
      ≡ map identity_of done_owner.db.runs ++ more)
run_identity_kept_example = run_identity_kept done_owner later_calls

run_unique_example : count (has_run_id "r") (after plain_env completed_calls).runs ≤ 1
run_unique_example = run_unique plain_env completed_calls "r"

locked_writes_nothing_example :
    (perform (Call.create_run "r" "task" (obj end) end) locked_owner).db ≡ locked_owner.db
unfolding is_guarded
locked_writes_nothing_example =
    locked_writes_nothing (Call.create_run "r" "task" (obj end) end) locked_owner refl locked.0
      locked.1

failed_call_undone_example :
    (perform (Call.complete_effect "missing" (obj end) end) done_owner).db ≡ done_owner.db
failed_call_undone_example =
    failed_call_undone (Call.complete_effect "missing" (obj end) end) done_owner raised

retries_bounded_example : consumed Layer.provider "r" "p" charged_owner.db ≤ 1
retries_bounded_example =
    retries_bounded Layer.provider first_retry budget_owner charged_owner retry_row one_retry
      charged_row one_budget

complete_run_settled_example :
    (finished_view.run.status ≡ RunStatus.completed)
    × (unresolved_effects "r" (complete_run "r" null started_owner).1.db ≡ 0)
    × (pending_approvals "r" (complete_run "r" null started_owner).1.db ≡ 0)
complete_run_settled_example =
    complete_run_settled "r" null started_owner (complete_run "r" null started_owner).1
      finished_view finished

claim_effect_granted_example :
    (e : Effect) × In e (claim_effect simple_claim started_owner).1.db.effects
    × ClaimedFor simple_claim e
    × (some "iiiiiiii" ≡ some e.effect_id)
    × (1 ≡ e.attempt)
unfolding executable
claim_effect_granted_example =
    claim_effect_granted simple_claim started_owner (claim_effect simple_claim started_owner).1
      grant granted_claim refl

restarts_bounded_example : restarts_of "r" (record_run_restart first_restart restart_owner).1.db ≤ 1
restarts_bounded_example =
    restarts_bounded first_restart restart_owner (record_run_restart first_restart restart_owner).1
      restart_row one_restart restart_returned restart_budget
