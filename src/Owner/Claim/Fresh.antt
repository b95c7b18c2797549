-- ===== src/Owner/Claim/Fresh.antt =====
-- The insertion of a new effect in `claim_effect` (src/zworkbench/composition.py).
use zworkbench.Owner.Claim.Existing.{claim_existing_code}
use zworkbench.Common.{
  ℕ, String, Bool, true, not, ◌||◌, Option, none, some, [], ◌∷◌, ◌++◌, ◌==◌, if◌then◌else◌,
}
use zworkbench.Common.Tables.{exists}
use zworkbench.Json.{text, int, end, field}
use zworkbench.Exec.{when◌then◌else◌, Exec, pure, query, write, ◌>>=◌, ◌>>◌, new_id}
use zworkbench.Owner.State.{Db, Run, running, Effect, EffectStatus}
use zworkbench.Owner.Core.{has_run_id, append_event, set_run_status}
use zworkbench.Owner.Approvals.{has_approval_id}
use zworkbench.Owner.Claim.Request.{ClaimStatus, EffectClaim, ClaimRequest, denied_event}
use zworkbench.Owner.Claim.Existing.{same_operation, new_attempt, add_attempt, attempt_conflict}

unfoldable pub add_effect : Effect → Db → Db
add_effect e d = record d { effects = d.effects ++ e ∷ [] }

abbrev pub approval_known : Option String → Db → Bool
approval_known none d = true
approval_known (some id) d = exists (has_approval_id id) d.approvals

-- The primary key, the two unique columns and the two references.
abbrev pub effect_conflict : String → ClaimRequest → Option String → Db → Bool
effect_conflict id q approval d =
    exists (λ e. e.effect_id == id || same_operation q.operation_id q.idempotency_key e) d.effects
    || (not (exists (has_run_id q.run_id) d.runs) || not (approval_known approval d))

abbrev pub new_effect : ClaimRequest → String → ℕ → Option String → ℕ → Effect
new_effect q id max_attempts approval timestamp = record {
  effect_id = id;
  run_id = q.run_id;
  operation_id = q.operation_id;
  idempotency_key = q.idempotency_key;
  effect_class = q.effect_class;
  action = q.action;
  resource = q.resource;
  status = EffectStatus.claimed;
  attempt = 1;
  max_attempts = max_attempts;
  physical_effect_count = 0;
  approval_id = approval;
  external_receipt = none;
  last_error = none;
  created_at = timestamp;
  updated_at = timestamp;
}

unfoldable pub idempotency_race : ClaimRequest → Exec EffectClaim
idempotency_race q = do
  append_event q.run_id "effect.claim.denied" (denied_event q "idempotency_race" end)
  pure (record {
    effect_id = none;
    status = ClaimStatus.in_flight;
    attempt = 0;
    physical_effect_count = 0;
    reason = "idempotency_race";
  })

unfoldable pub first_attempt : Run → ClaimRequest → String → ℕ → Exec EffectClaim
first_attempt run q effect_id timestamp = do
  conflict ← query (attempt_conflict effect_id 1)
  when conflict then idempotency_race q else (do
    write (add_attempt (new_attempt effect_id 1 timestamp))
    set_run_status run running "run.started" end
    append_event q.run_id "effect.claimed" (
        field "effect_id" (text effect_id) (
          field "operation_id" (text q.operation_id)
            (field "attempt" (int 1) (field "effect_class" (text q.effect_class) end))))
    pure (record {
      effect_id = some effect_id;
      status = ClaimStatus.granted;
      attempt = 1;
      physical_effect_count = 0;
      reason = "new_effect";
    }))

unfoldable pub insert_effect : Run → ClaimRequest → ℕ → ℕ → Option String → Exec EffectClaim
insert_effect run q max_attempts timestamp approval = do
  effect_id ← new_id
  conflict ← query (effect_conflict effect_id q approval)
  when conflict then idempotency_race q else (do
    write (add_effect (new_effect q effect_id max_attempts approval timestamp))
    first_attempt run q effect_id timestamp)

-- Opens the code of this module, for a run of it.
unfoldable pub claim_fresh_code : Unit {0}
unfolding claim_existing_code add_effect idempotency_race first_attempt insert_effect
claim_fresh_code = tt
