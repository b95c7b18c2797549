-- ===== src/Owner/Claim/Request.antt =====
-- The arguments and the decisions of `claim_effect` (src/zworkbench/composition.py), and its refusals.
use zworkbench.Owner.Core.{core_code}
use zworkbench.Common.{ℕ, String, Bool, true, false, Option, none, some, List}
use zworkbench.Common.Int.{ℤ}
use zworkbench.Json.{text, Fields, end, field}
use zworkbench.Exec.{Exec, pure, ◌>>◌}
use zworkbench.Owner.State.{Run, safe_stopped, waiting_approval, Effect}
use zworkbench.Owner.Core.{append_event, set_run_status}

pub data ClaimStatus : Type 0 where
  denied already_completed in_flight recovery_required stopped granted : ClaimStatus

-- `EffectClaim`: `granted` is the status "claimed", and `stopped` is "safe_stopped".
pub record EffectClaim : Type 0 where
  pub effect_id : Option String
  pub status : ClaimStatus
  pub attempt : ℕ
  pub physical_effect_count : ℕ
  pub reason : String

-- `EffectClaim.executable`
unfoldable pub executable : EffectClaim → Bool
executable c = elim c.status [ ClaimStatus.granted ↦ true | _ ↦ false ]

-- The arguments of `claim_effect`.
pub record ClaimRequest : Type 0 where
  pub run_id : String
  pub operation_id : String
  pub action : String
  pub resource : String
  pub idempotency_key : String
  pub effect_class : String
  pub approval_token : Option String
  pub max_attempts : ℤ
  pub required_exposure : List String

-- EffectClaim(None, "denied", 0, 0, reason)
abbrev pub refusal : String → EffectClaim
refusal reason = record {
  effect_id = none;
  status = ClaimStatus.denied;
  attempt = 0;
  physical_effect_count = 0;
  reason = reason;
}

-- A decision about the row that exists.
abbrev pub about : Effect → ClaimStatus → String → EffectClaim
about e status reason = record {
  effect_id = some e.effect_id;
  status = status;
  attempt = e.attempt;
  physical_effect_count = e.physical_effect_count;
  reason = reason;
}

abbrev pub denied_event : ClaimRequest → String → Fields → Fields
denied_event q reason details =
    field "operation_id" (text q.operation_id) (field "reason" (text reason) details)

-- Stop the run, record the denial, and return the decision.
unfoldable pub stop_and_deny : Run → ClaimRequest → String → Fields → EffectClaim → Exec EffectClaim
stop_and_deny run q reason details claim = do
  set_run_status run safe_stopped "run.safe_stopped" (field "reason" (text reason) end)
  append_event q.run_id "effect.claim.denied" (denied_event q reason details)
  pure claim

-- Let the run wait for an approval, record the denial, and return it.
unfoldable pub wait_and_deny : Run → ClaimRequest → String → Exec EffectClaim
wait_and_deny run q reason = do
  set_run_status run waiting_approval "run.waiting_approval" end
  append_event q.run_id "effect.claim.denied" (denied_event q reason end)
  pure (refusal reason)

-- Opens the code of this module, for a run of it.
unfoldable pub claim_request_code : Unit {0}
unfolding core_code executable stop_and_deny wait_and_deny
claim_request_code = tt
