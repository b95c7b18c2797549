-- ===== src/Tests/Refusals.antt =====
-- Runs of the owner (src/zworkbench/composition.py) where it refuses what its documentation promises,
-- or admits what it forbids.
use zworkbench.Credentials.{raw_credential}
use zworkbench.Owner.Ledgers.{ledgers_code, GateReport, record_provider_access_gate}
use zworkbench.Owner.Runs.{runs_code, start_run}
use zworkbench.Owner.Auth.{auth_code}
use zworkbench.Owner.Claim.{claim_effect, claim_code}
use zworkbench.Owner.Effects.{effects_code, mark_effect_uncertain}
use zworkbench.Common.Text.{is_blank}
use zworkbench.Common.{◌≡◌, refl, none, [], ◌∷◌, true, some, Option}
use zworkbench.Json.{null, end, canonical_fields}
use zworkbench.Exec.{Error, Result}
use zworkbench.Owner.State.{Owner, new_owner}
use zworkbench.Owner.Api.{Call, perform_all, perform}
use zworkbench.Tests.World.{plain_env, simple_claim, claimed_calls}

abbrev raised_by : {A : Type 0} → Result A → Option Error
raised_by (Result.ok a) = none
raised_by (Result.err e) = some e

abbrev gate : GateReport
gate = record {
  run_id = "r";
  classification = "real";
  gate_enabled = true;
  reason = "open";
  provider_id = none;
  profile_name = none;
}

-- The owner requires a caller and has none.
abbrev locked_with_run : Owner
locked_with_run =
    perform_all
      (Call.create_run "r" "task" null end ∷ Call.enable_caller_auth "c" "token" ∷ Call.reopen ∷ [])
      (new_owner plain_env)

gate_is_open : raised_by (record_provider_access_gate gate locked_with_run).0 ≡ none
unfolding perform_all runs_code ledgers_code auth_code raw_credential is_blank canonical_fields
gate_is_open = refl

start_is_refused : raised_by (start_run "r" locked_with_run).0 ≡ some Error.caller_auth_error
unfolding perform_all runs_code auth_code raw_credential is_blank canonical_fields
start_is_refused = refl

-- The effect is claimed, and the run is stopped by its user.
abbrev stopped_owner : Owner
stopped_owner =
    perform (Call.safe_stop_run "r" "user") (perform_all claimed_calls (new_owner plain_env))

uncertainty_is_lost :
    raised_by (mark_effect_uncertain "iiiiiiii" null stopped_owner).0
    ≡ some Error.invalid_transition
unfolding perform_all runs_code claim_code effects_code raw_credential is_blank canonical_fields
uncertainty_is_lost = refl

abbrev recovering_owner : Owner
recovering_owner =
    perform_all
      (Call.create_run "r" "task" null end
        ∷ Call.start_run "r"
        ∷ Call.begin_recovery "r" "crash"
        ∷ [])
      (new_owner plain_env)

denial_is_lost :
    raised_by
      (claim_effect (record simple_claim { effect_class = "approval-required" }) recovering_owner).0
    ≡ some Error.invalid_transition
unfolding perform_all runs_code claim_code raw_credential is_blank canonical_fields
denial_is_lost = refl
