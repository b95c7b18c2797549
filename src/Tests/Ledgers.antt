-- ===== src/Tests/Ledgers.antt =====
-- The ledgers of Provider exits and fallbacks (src/zworkbench/composition.py) on a small history, and
use zworkbench.Owner.Listings.Counts.{listing_counted}
use zworkbench.Owner.Retries.{consumed, Layer}
use zworkbench.Owner.Listings.{retry_budget_ledger_for_run, listings_code}
use zworkbench.Tests.World.{plain_env, budget_owner, first_retry}
use zworkbench.Owner.Invariants.Ledgers.{LedgersValid, exit_stays, ledgers_valid}
use zworkbench.Common.Text.{is_blank}
use zworkbench.Owner.State.{Owner, ProviderExit, new_owner, Consumption, Bound}
use zworkbench.Common.Int.{pos}
use zworkbench.Owner.Api.{Call, perform_all, perform}
use zworkbench.Owner.Exits.{
  record_provider_exit_ledger_once, ExitReport, receipt_schema, exits_code, inventoried, delegated,
  attach_provider_exit_receipt,
}
use zworkbench.Json.{Fields, end, obj, null, text, field, canonical_fields}
use zworkbench.Owner.Exits.Once.{HasExit, exit_recorded_once}
use zworkbench.Common.{refl, ap, ◌∷◌, [], inl, none, List, some, ◌≡◌, ◌==◌}
use zworkbench.Owner.Runs.{runs_code}
use zworkbench.Credentials.{raw_credential, secret_shaped}
use zworkbench.Owner.Invariants.{after}
use zworkbench.Common.Tables.{length, In, count}
use zworkbench.Exec.{Result, Error}
use zworkbench.Owner.Fallbacks.{FallbackReport, fallbacks_code}

-- the theorems at it.

abbrev route_report : ExitReport
route_report = record {
  run_id = "r";
  provider_identity = field "provider" (text "ark") end;
  caliber = delegated;
  local_state_fingerprint = "unknown";
}

abbrev run_owner : Owner
run_owner = perform_all (Call.create_run "r" "task" null end ∷ []) (new_owner plain_env)

abbrev exit_row : ProviderExit
exit_row = inventoried route_report (λ v. "") 3 "iiiii"

exit_returned : (record_provider_exit_ledger_once route_report run_owner).0 ≡ Result.ok exit_row
unfolding perform_all perform runs_code exits_code raw_credential is_blank canonical_fields
exit_returned = refl

abbrev receipt : Fields
receipt = field "schema" (text receipt_schema) (
    field "provider_remote_zero_residue" (text delegated) (
      field "exit_status" (text "closed")
        (field "statuses" (obj (field "account" (text "deleted") end)) end)))

-- A receipt that claims that nothing is left at the Provider.
abbrev clearance : Fields
clearance =
    field "schema" (text receipt_schema) (field "provider_remote_zero_residue" (text "zero") end)

clearance_refused :
    (attach_provider_exit_receipt "r" clearance run_owner).0 ≡ Result.err Error.value_error
unfolding perform_all perform runs_code exits_code raw_credential is_blank canonical_fields
clearance_refused = refl

abbrev step_down : FallbackReport
step_down = record {
  run_id = "r";
  from_provider = some "ark";
  to_provider = none;
  reason = "timeout";
  degradation_mode = "safe_stop";
  attempt = pos 0;
  failure_code = none;
  http_status = none;
  local_state_fingerprint = "unknown";
}

abbrev ledger_calls : List Call
ledger_calls =
    Call.create_run "r" "task" null end
    ∷ Call.record_provider_exit_ledger_once route_report
    ∷ Call.record_provider_exit_ledger_once route_report
    ∷ Call.attach_provider_exit_receipt "r" receipt
    ∷ Call.record_provider_fallback step_down
    ∷ []

ledgers_written :
    (length (after plain_env ledger_calls).provider_exits ≡ 2)
    × (length (after plain_env ledger_calls).provider_fallbacks ≡ 1)
unfolding perform_all perform runs_code exits_code fallbacks_code raw_credential secret_shaped
    is_blank canonical_fields
ledgers_written = (refl, refl)

ledgers_valid_example : LedgersValid (after plain_env ledger_calls)
ledgers_valid_example = ledgers_valid plain_env ledger_calls

exit_returned_all :
    record_provider_exit_ledger_once route_report run_owner
    ≡ (Result.ok exit_row, (record_provider_exit_ledger_once route_report run_owner).1)
exit_returned_all =
    ap (λ r. (r, (record_provider_exit_ledger_once route_report run_owner).1)) exit_returned

exit_recorded_once_example :
    HasExit "r" (record_provider_exit_ledger_once route_report run_owner).1.db
    × ((record_provider_exit_ledger_once route_report
          (record_provider_exit_ledger_once route_report run_owner).1).1.db
        ≡ (record_provider_exit_ledger_once route_report run_owner).1.db)
exit_recorded_once_example =
    exit_recorded_once route_report route_report run_owner
      (record_provider_exit_ledger_once route_report run_owner).1 exit_row exit_returned_all refl

exit-In : In exit_row (record_provider_exit_ledger_once route_report run_owner).1.db.provider_exits
unfolding perform_all perform runs_code exits_code raw_credential is_blank canonical_fields
exit-In = inl refl

exit_stays_example :
    In exit_row
      (perform_all ledger_calls
        (record_provider_exit_ledger_once route_report run_owner).1).db.provider_exits
exit_stays_example =
    exit_stays (record_provider_exit_ledger_once route_report run_owner).1 ledger_calls exit_row
      exit-In

-- A run whose one retry has been recorded.
abbrev retried_owner : Owner
retried_owner = perform (Call.record_retry_consumption Layer.provider first_retry) budget_owner

abbrev retries_listed : List Consumption
retries_listed =
    record {
      ledger_id = "iiiiii";
      run_id = "r";
      subject = "p";
      request_id = "q";
      attempt_number = 1;
      failure_class = "timeout";
      target = none;
      reason = "again";
      bound = Bound.enforced;
      recorded_at = 4;
    }
    ∷ []

listing_returned :
    (retry_budget_ledger_for_run Layer.provider "r" retried_owner).0 ≡ Result.ok retries_listed
unfolding perform_all perform runs_code listings_code raw_credential is_blank canonical_fields
listing_returned = refl

listing_counted_example :
    count (λ c. c.subject == "p") retries_listed
    ≡ consumed Layer.provider "r" "p"
        (retry_budget_ledger_for_run Layer.provider "r" retried_owner).1.db
listing_counted_example =
    listing_counted Layer.provider "r" "p" retried_owner
      (retry_budget_ledger_for_run Layer.provider "r" retried_owner).1 retries_listed
      (ap (λ r. (r, (retry_budget_ledger_for_run Layer.provider "r" retried_owner).1))
        listing_returned)
