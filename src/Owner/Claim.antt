-- ===== src/Owner/Claim.antt =====
-- `claim_effect` of src/zworkbench/composition.py. The children hold its groups of checks.
pub mod Request
pub mod Existing
pub mod Bounds
pub mod Token
pub mod Fresh
pub mod Steps
pub mod Approved
pub mod Follow
pub mod Grants
pub mod Granted
use Prim.Native.String.{◌++◌ as append}
use zworkbench.Owner.Claim.Existing.{claim_existing_code}
use zworkbench.Owner.Claim.Bounds.{claim_bounds_code}
use zworkbench.Owner.Claim.Token.{claim_token_code}
use zworkbench.Owner.Claim.Fresh.{claim_fresh_code}
use zworkbench.Common.{
  ℕ, String, Bool, true, false, not, ◌&&◌, ◌||◌, ◌+◌, Option, none, some, List, [], ◌∷◌, ◌++◌, ◌==◌,
  leb, if◌then◌else◌, is_some,
}
use zworkbench.Common.Int.{ℤ}
use zworkbench.Common.Tables.{find, update, exists, select}
use zworkbench.Json.{Value, text, bool, int, Fields, end, field, get, truthy, get_truthy}
use zworkbench.Exec.{
  when◌then◌else◌, Exec, type_error, os_error, sqlite_integrity, pure, raise, query, write, ask,
  raise_if, or_raise, ◌>>=◌, ◌>>◌, now, new_id,
}
use zworkbench.Owner.State.{
  Db, Run, RunStatus, completed, failed, safe_stopped, running, waiting_approval, Approval,
  ApprovalStatus, Effect, EffectStatus, Exposure, Attempt, AttemptStatus,
}
use zworkbench.Owner.Core.{
  transaction, require_text, require_positive, run_row, has_run_id, has_effect_id, append_event,
  set_run_status, status_text,
}
use zworkbench.Owner.Approvals.{
  has_approval_id, approval_of, approval_scope_matches, same_approval_status,
}
use zworkbench.Owner.Claim.Request.{
  ClaimStatus, EffectClaim, executable, ClaimRequest, refusal, about, denied_event, stop_and_deny,
  wait_and_deny,
}
use zworkbench.Owner.Claim.Existing.{
  earliest, same_operation, existing_effect, effect_scope_matches, new_attempt, add_attempt,
  attempt_conflict, put_retry, retry_effect, by_status, claim_existing,
}
use zworkbench.Owner.Claim.Bounds.{
  member, is_within, check_capabilities, deny_out_of_bounds, resolve_root, check_root,
  check_workspace, capabilities, check_declared,
}
use zworkbench.Owner.Claim.Token.{
  is_allowed_class, put_consumed, has_expired, token_matches, check_token, given_token,
  check_approval,
}
use zworkbench.Owner.Claim.Fresh.{
  add_effect, approval_known, effect_conflict, new_effect, idempotency_race, first_attempt,
  insert_effect,
}

unfoldable pub claim_new : Run → ClaimRequest → ℕ → ℕ → Exec EffectClaim
claim_new run q max_attempts timestamp =
    when not (is_allowed_class q.effect_class)
    then stop_and_deny run q "unknown_effect_class" end (refusal "unknown_effect_class")
    else when q.effect_class == "approval-required"
    then (do
      approval ← query (approval_of q.operation_id)
      check_approval run q approval timestamp (insert_effect run q max_attempts timestamp))
    else insert_effect run q max_attempts timestamp none

unfoldable pub declared_exposure_row : String → Db → Option Exposure
declared_exposure_row run_id d = find (λ x. x.run_id == run_id) d.exposures

unfoldable pub claim_by_existing : Run → ClaimRequest → ℕ → ℕ → Option Effect → Exec EffectClaim
claim_by_existing run q max_attempts timestamp (some e) = claim_existing run q e timestamp
claim_by_existing run q max_attempts timestamp none = do
  declared ← query (declared_exposure_row q.run_id)
  check_declared run q declared (claim_new run q max_attempts timestamp)

unfoldable pub is_terminal : RunStatus → Bool
is_terminal completed = true
is_terminal failed = true
is_terminal safe_stopped = true
is_terminal _ = false

unfoldable pub claim_on_run : Run → ClaimRequest → ℕ → ℕ → Exec EffectClaim
claim_on_run run q max_attempts timestamp =
    when is_terminal run.status
    then pure (refusal (append "run_terminal:" (status_text run.status)))
    else do
      existing ← query (existing_effect q.operation_id q.idempotency_key)
      claim_by_existing run q max_attempts timestamp existing

-- `_validate_effect_inputs`
unfoldable pub validate_effect_inputs : ClaimRequest → Exec ℕ
validate_effect_inputs q = do
  require_text q.operation_id
  require_text q.action
  require_text q.resource
  require_text q.idempotency_key
  require_text q.effect_class
  require_positive q.max_attempts

unfoldable pub claim_effect : ClaimRequest → Exec EffectClaim
claim_effect q = do
  max_attempts ← validate_effect_inputs q
  timestamp ← now
  transaction (do run ← run_row q.run_id; claim_on_run run q max_attempts timestamp)

-- Opens the code of this module, for a run of it.
unfoldable pub claim_code : Unit {0}
unfolding claim_existing_code claim_bounds_code claim_token_code claim_fresh_code claim_new
    declared_exposure_row claim_by_existing is_terminal claim_on_run validate_effect_inputs
    claim_effect
claim_code = tt
