-- ===== src/Owner/Claim/Existing.antt =====
-- `claim_effect` where the operation or its key has an effect already: the bounded retry
-- (src/zworkbench/composition.py).
use zworkbench.Owner.Claim.Request.{claim_request_code}
use zworkbench.Common.{
  ℕ, String, Bool, true, not, ◌&&◌, ◌||◌, ◌+◌, Option, none, some, List, [], ◌∷◌, ◌++◌, ◌==◌, leb,
  if◌then◌else◌,
}
use zworkbench.Common.Tables.{update, exists, select}
use zworkbench.Json.{text, bool, int, end, field}
use zworkbench.Exec.{
  when◌then◌else◌, Exec, sqlite_integrity, pure, query, write, raise_if, ◌>>=◌, ◌>>◌,
}
use zworkbench.Owner.State.{
  Db, Run, safe_stopped, running, Effect, EffectStatus, Attempt, AttemptStatus,
}
use zworkbench.Owner.Core.{has_effect_id, append_event, set_run_status}
use zworkbench.Owner.Claim.Request.{ClaimStatus, EffectClaim, ClaimRequest, about, stop_and_deny}

-- The first row of an `ORDER BY created_at`.
unfoldable pub earlier : Effect → Option Effect → Option Effect
earlier e none = some e
earlier e (some f) = if leb e.created_at f.created_at then some e else some f

unfoldable pub earliest : List Effect → Option Effect
unfolding earlier
earliest [] = none
earliest (e ∷ es) = earlier e (earliest es)

abbrev pub same_operation : String → String → Effect → Bool
same_operation operation_id idempotency_key e =
    e.operation_id == operation_id || e.idempotency_key == idempotency_key

unfoldable pub existing_effect : String → String → Db → Option Effect
unfolding earliest
existing_effect operation_id idempotency_key d =
    earliest (select (same_operation operation_id idempotency_key) d.effects)

-- `_effect_scope_matches`
unfoldable pub effect_scope_matches : Effect → ClaimRequest → Bool
effect_scope_matches e q =
    e.operation_id == q.operation_id
    && (e.action == q.action
        && (e.resource == q.resource
            && (e.idempotency_key == q.idempotency_key && e.effect_class == q.effect_class)))

abbrev pub new_attempt : String → ℕ → ℕ → Attempt
new_attempt effect_id attempt timestamp = record {
  effect_id = effect_id;
  attempt = attempt;
  status = AttemptStatus.claimed;
  started_at = timestamp;
  finished_at = none;
  result = none;
  error = none;
}

unfoldable pub add_attempt : Attempt → Db → Db
add_attempt a d = record d { attempts = d.attempts ++ a ∷ [] }

abbrev pub attempt_conflict : String → ℕ → Db → Bool
attempt_conflict effect_id attempt d =
    exists (λ a. a.effect_id == effect_id && (leb a.attempt attempt && leb attempt a.attempt))
      d.attempts

unfoldable pub put_retry : String → ℕ → ℕ → Db → Db
put_retry id attempt timestamp d = record d {
  effects =
      update (has_effect_id id)
        (λ e. record e { status = EffectStatus.claimed; attempt = attempt; updated_at = timestamp })
        d.effects;
}

unfoldable pub retry_effect : Run → Effect → ℕ → Exec EffectClaim
retry_effect run e timestamp =
    when leb e.max_attempts e.attempt
    then (do
      set_run_status run safe_stopped "run.safe_stopped"
          (field "reason" (text "retry_budget_exhausted") end)
      pure (about e ClaimStatus.stopped "retry_budget_exhausted"))
    else (do
      let next_attempt : ℕ = e.attempt + 1
      write (put_retry e.effect_id next_attempt timestamp)
      conflict ← query (attempt_conflict e.effect_id next_attempt)
      raise_if conflict sqlite_integrity
      write (add_attempt (new_attempt e.effect_id next_attempt timestamp))
      set_run_status run running "run.resumed" end
      append_event run.run_id "effect.claimed" (
          field "effect_id" (text e.effect_id)
            (field "attempt" (int next_attempt) (field "retry" (bool true) end)))
      pure (record {
        effect_id = some e.effect_id;
        status = ClaimStatus.granted;
        attempt = next_attempt;
        physical_effect_count = e.physical_effect_count;
        reason = "bounded_retry";
      }))

unfoldable pub by_status : EffectStatus → Run → Effect → ℕ → Exec EffectClaim
by_status EffectStatus.completed run e timestamp =
    pure (about e ClaimStatus.already_completed "idempotent_replay")
by_status EffectStatus.claimed run e timestamp =
    pure (about e ClaimStatus.in_flight "attempt_already_claimed")
by_status EffectStatus.uncertain run e timestamp =
    pure (about e ClaimStatus.recovery_required "effect_uncertain")
by_status EffectStatus.unknown run e timestamp =
    pure (about e ClaimStatus.recovery_required "effect_unknown")
by_status EffectStatus.retryable run e timestamp = retry_effect run e timestamp

unfoldable pub claim_existing : Run → ClaimRequest → Effect → ℕ → Exec EffectClaim
claim_existing run q e timestamp =
    when not (e.run_id == q.run_id)
    then stop_and_deny run q "effect_belongs_to_other_run"
        (field "existing_effect_id" (text e.effect_id) end)
        (about e ClaimStatus.denied "effect_belongs_to_other_run")
    else when not (effect_scope_matches e q)
    then stop_and_deny run q "effect_scope_mismatch"
        (field "existing_effect_id" (text e.effect_id) end)
        (about e ClaimStatus.denied "effect_scope_mismatch")
    else by_status e.status run e timestamp

-- Opens the code of this module, for a run of it.
unfoldable pub claim_existing_code : Unit {0}
unfolding claim_request_code earliest existing_effect effect_scope_matches add_attempt put_retry
    retry_effect by_status claim_existing
claim_existing_code = tt
