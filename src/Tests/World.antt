-- ===== src/Tests/World.antt =====
-- An environment and a few histories for the tests.
use zworkbench.Owner.Ledgers.{RestartRequest}
use zworkbench.Owner.Retries.{Layer, RetryRequest}
use zworkbench.Owner.Approvals.{ApprovalRequest}
use Prim.Native.String.{◌++◌ as append}
use zworkbench.Common.{ℕ, zero, suc, String, none, List, [], ◌∷◌, false}
use zworkbench.Common.Int.{pos}
use zworkbench.Json.{null, end}
use zworkbench.Owner.State.{Env, Owner, new_owner}
use zworkbench.Owner.Claim.Request.{ClaimRequest}
use zworkbench.Owner.Api.{Call, perform_all}

abbrev tally : ℕ → String
tally zero = "i"
tally (suc n) = append "i" (tally n)

abbrev pub plain_env : Env
plain_env = record {
  clock = λ n. n;
  uuid4 = tally;
  token_urlsafe = tally;
  token_hex = tally;
  sha256 = append "h";
  repr = λ v. "";
  is_absolute = λ p. false;
  resolve = λ p. none;
}

abbrev pub simple_claim : ClaimRequest
simple_claim = record {
  run_id = "r";
  operation_id = "o";
  action = "write";
  resource = "file";
  idempotency_key = "k";
  effect_class = "idempotent";
  approval_token = none;
  max_attempts = pos 2;
  required_exposure = [];
}

abbrev pub claimed_calls : List Call
claimed_calls =
    Call.create_run "r" "task" null end ∷ Call.start_run "r" ∷ Call.claim_effect simple_claim ∷ []

abbrev pub claimed_owner : Owner
claimed_owner = perform_all claimed_calls (new_owner plain_env)

abbrev pub completed_calls : List Call
completed_calls =
    Call.create_run "r" "task" null end
    ∷ Call.start_run "r"
    ∷ Call.claim_effect simple_claim
    ∷ Call.complete_effect "iiiiiiii" null end
    ∷ []

-- A second claim of the operation, a failed reconciliation, and the end of the run.
abbrev pub later_calls : List Call
later_calls =
    Call.claim_effect simple_claim
    ∷ Call.reconcile_effect "iiiiiiii" "not-applied" null
    ∷ Call.complete_run "r" null
    ∷ []

abbrev pub deletion : ApprovalRequest
deletion = record {
  run_id = "r";
  operation_id = "d";
  action = "delete";
  resource = "file";
  idempotency_key = "kd";
  reason = "cleanup";
}

abbrev pub denied_calls : List Call
denied_calls =
    Call.create_run "r" "task" null end
    ∷ Call.start_run "r"
    ∷ Call.request_approval deletion
    ∷ Call.deny_approval "iiiiiiii" "no"
    ∷ []

abbrev pub locked_owner : Owner
locked_owner =
    perform_all (Call.enable_caller_auth "c" "token" ∷ Call.reopen ∷ []) (new_owner plain_env)

abbrev pub first_retry : RetryRequest
first_retry = record {
  run_id = "r";
  subject = "p";
  request_id = "q";
  attempt_number = pos 1;
  failure_class = "timeout";
  target = none;
  reason = "again";
}

-- A run, and one retry allowed for the provider "p".
abbrev pub budget_owner : Owner
budget_owner =
    perform_all
      (Call.create_run "r" "task" null end
        ∷ Call.declare_retry_budget Layer.provider "p" (pos 1) "owner"
        ∷ [])
      (new_owner plain_env)

abbrev pub first_restart : RestartRequest
first_restart = record {
  run_id = "r";
  request_id = "q";
  attempt_number = pos 1;
  trigger = "crash";
  reason = "again";
}

-- A run, and one restart allowed for it.
abbrev pub restart_owner : Owner
restart_owner =
    perform_all
      (Call.create_run "r" "task" null end
        ∷ Call.declare_run_restart_budget "r" (pos 1) "owner"
        ∷ [])
      (new_owner plain_env)
