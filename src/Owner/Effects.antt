-- ===== src/Owner/Effects.antt =====
-- The outcome of a claimed effect: `complete_effect`, `mark_effect_uncertain` and
-- `reconcile_effect` of src/zworkbench/composition.py.
pub mod Standing
pub mod Follow
use zworkbench.Owner.Core.{core_code}
use zworkbench.Common.{ℕ, String, Bool, true, ◌&&◌, Option, none, some, ◌==◌, nat_eq, if◌then◌else◌}
use zworkbench.Common.Tables.{update}
use zworkbench.Json.{
  Value, null, text, bool, int, obj, Fields, end, field, canonical_json, canonical_fields,
}
use zworkbench.Exec.{
  when◌then◌else◌, Exec, value_error, invalid_transition, pure, raise, query, write, or_raise,
  ◌>>=◌, ◌>>◌, now,
}
use zworkbench.Owner.State.{
  Db, Run, recovering, safe_stopped, running, Effect, EffectStatus, Attempt, AttemptStatus,
}
use zworkbench.Owner.Core.{
  transaction, run_row, effect_row, find_effect, has_effect_id, append_event, set_run_status,
  record_result_tx, reject_raw_credentials, outer_composed, same_status,
}

abbrev pub the_attempt : String → ℕ → Attempt → Bool
the_attempt effect_id attempt a = a.effect_id == effect_id && nat_eq a.attempt attempt

-- UPDATE effect_attempts SET status, finished_at, result_json
unfoldable pub finish_attempt : String → ℕ → ℕ → Value → Db → Db
finish_attempt effect_id attempt timestamp result d = record d {
  attempts =
      update (the_attempt effect_id attempt)
        (λ a. record a {
          status = AttemptStatus.succeeded;
          finished_at = some timestamp;
          result = some result;
        })
        d.attempts;
}

-- UPDATE effect_attempts SET status, finished_at, error_json
unfoldable pub close_attempt : String → ℕ → AttemptStatus → ℕ → Value → Db → Db
close_attempt effect_id attempt status timestamp error d = record d {
  attempts =
      update (the_attempt effect_id attempt)
        (λ a. record a { status = status; finished_at = some timestamp; error = some error })
        d.attempts;
}

unfoldable pub put_completed : String → Value → ℕ → Db → Db
put_completed id receipt timestamp d = record d {
  effects =
      update (has_effect_id id)
        (λ e. record e {
          status = EffectStatus.completed;
          physical_effect_count = 1;
          external_receipt = some receipt;
          updated_at = timestamp;
        })
        d.effects;
}

unfoldable pub complete_by_status :
    EffectStatus → Effect → Value → Fields → ℕ → Exec (Option Effect)
complete_by_status EffectStatus.completed e result receipt timestamp = pure (some e)
complete_by_status EffectStatus.claimed e result receipt timestamp = do
  write (put_completed e.effect_id (obj (canonical_fields receipt)) timestamp)
  write (finish_attempt e.effect_id e.attempt timestamp (canonical_json result))
  record_result_tx e.run_id "effect" result (some e.effect_id) outer_composed
  append_event e.run_id "effect.completed" (
      field "effect_id" (text e.effect_id)
        (field "attempt" (int e.attempt) (field "physical_effect_count" (int 1) end)))
  query (find_effect e.effect_id)
complete_by_status _ e result receipt timestamp = raise invalid_transition

unfoldable pub complete_effect : String → Value → Fields → Exec (Option Effect)
complete_effect effect_id result external_receipt = do
  reject_raw_credentials (obj external_receipt)
  timestamp ← now
  transaction
      (do e ← effect_row effect_id; complete_by_status e.status e result external_receipt timestamp)

unfoldable pub put_uncertain : String → Value → ℕ → Db → Db
put_uncertain id error timestamp d = record d {
  effects =
      update (has_effect_id id)
        (λ e. record e {
          status = EffectStatus.uncertain;
          last_error = some error;
          updated_at = timestamp;
        })
        d.effects;
}

unfoldable pub uncertain_by_status : EffectStatus → Effect → Value → ℕ → Exec (Option Effect)
uncertain_by_status EffectStatus.uncertain e error timestamp = pure (some e)
uncertain_by_status EffectStatus.claimed e error timestamp = do
  write (put_uncertain e.effect_id (canonical_json error) timestamp)
  write
      (close_attempt e.effect_id e.attempt AttemptStatus.uncertain timestamp (canonical_json error))
  run ← run_row e.run_id
  set_run_status run recovering "run.recovering" (field "effect_id" (text e.effect_id) end)
  append_event e.run_id "effect.uncertain"
      (field "effect_id" (text e.effect_id) (field "attempt" (int e.attempt) end))
  query (find_effect e.effect_id)
uncertain_by_status _ e error timestamp = raise invalid_transition

unfoldable pub mark_effect_uncertain : String → Value → Exec (Option Effect)
mark_effect_uncertain effect_id error = do
  timestamp ← now
  transaction (do e ← effect_row effect_id; uncertain_by_status e.status e error timestamp)

pub data Outcome : Type 0 where
  applied not_applied unknown : Outcome

unfoldable pub parse_outcome : String → Option Outcome
parse_outcome s =
    if s == "applied"
    then some applied
    else if s == "not-applied"
    then some not_applied
    else if s == "unknown"
    then some unknown
    else none

unfoldable pub outcome_text : Outcome → String
outcome_text applied = "applied"
outcome_text not_applied = "not-applied"
outcome_text unknown = "unknown"

unfoldable pub new_status : Outcome → EffectStatus
new_status applied = EffectStatus.completed
new_status not_applied = EffectStatus.retryable
new_status unknown = EffectStatus.unknown

unfoldable pub physical_count : Outcome → ℕ → ℕ
physical_count applied n = 1
physical_count _ n = n

unfoldable pub attempt_status : Outcome → AttemptStatus
attempt_status applied = AttemptStatus.reconciled_applied
attempt_status not_applied = AttemptStatus.reconciled_not_applied
attempt_status unknown = AttemptStatus.reconciled_unknown

-- CASE WHEN ? = 'applied' THEN ? ELSE external_receipt_json END
unfoldable pub new_receipt : Outcome → Value → Option Value → Option Value
new_receipt applied evidence receipt = some evidence
new_receipt _ evidence receipt = receipt

unfoldable pub put_reconciled : String → Outcome → ℕ → Value → ℕ → Db → Db
unfolding new_status new_receipt
put_reconciled id outcome physical_effect_count evidence timestamp d = record d {
  effects =
      update (has_effect_id id)
        (λ e. record e {
          status = new_status outcome;
          physical_effect_count = physical_effect_count;
          last_error = some evidence;
          external_receipt = new_receipt outcome evidence e.external_receipt;
          updated_at = timestamp;
        })
        d.effects;
}

-- `evidence if evidence is not None else {}`
abbrev pub or_empty : Value → Value
or_empty null = obj end
or_empty v = v

unfoldable pub settle_run : Outcome → Run → String → Exec (Unit {0})
settle_run unknown run effect_id =
    set_run_status run safe_stopped "run.safe_stopped"
      (field "reason" (text "effect_outcome_unknown") (field "effect_id" (text effect_id) end))
settle_run outcome run effect_id =
    when same_status run.status safe_stopped
    then pure tt
    else set_run_status run running "run.reconciled"
        (field "effect_id" (text effect_id) (field "outcome" (text (outcome_text outcome)) end))

unfoldable pub record_applied : Outcome → Effect → Value → Exec (Unit {0})
record_applied applied e evidence = do
  record_result_tx e.run_id "effect"
      (obj (field "reconciled" (bool true) (field "evidence" evidence end))) (some e.effect_id)
      outer_composed
  pure tt
record_applied _ e evidence = pure tt

unfoldable pub reconcile_row : Effect → Outcome → Value → ℕ → Exec (Option Effect)
reconcile_row e outcome evidence timestamp = do
  let evidence_json : Value = canonical_json (or_empty evidence)
  let count : ℕ = physical_count outcome e.physical_effect_count
  write (put_reconciled e.effect_id outcome count evidence_json timestamp)
  write (close_attempt e.effect_id e.attempt (attempt_status outcome) timestamp evidence_json)
  run ← run_row e.run_id
  settle_run outcome run e.effect_id
  append_event e.run_id "effect.reconciled" (
      field "effect_id" (text e.effect_id) (
        field "outcome" (text (outcome_text outcome))
          (field "physical_effect_count" (int count) end)))
  record_applied outcome e evidence
  query (find_effect e.effect_id)

unfoldable pub reconcile_by_status :
    EffectStatus → Effect → Outcome → Value → ℕ → Exec (Option Effect)
reconcile_by_status EffectStatus.completed e outcome evidence timestamp = pure (some e)
reconcile_by_status EffectStatus.uncertain e outcome evidence timestamp =
    reconcile_row e outcome evidence timestamp
reconcile_by_status EffectStatus.retryable e outcome evidence timestamp =
    reconcile_row e outcome evidence timestamp
reconcile_by_status _ e outcome evidence timestamp = raise invalid_transition

unfoldable pub check_evidence : Outcome → Value → Exec (Unit {0})
check_evidence applied evidence = reject_raw_credentials (or_empty evidence)
check_evidence _ evidence = pure tt

unfoldable pub reconcile_effect : String → String → Value → Exec (Option Effect)
reconcile_effect effect_id observed_outcome evidence = do
  outcome ← or_raise (parse_outcome observed_outcome) value_error
  check_evidence outcome evidence
  timestamp ← now
  transaction
      (do e ← effect_row effect_id; reconcile_by_status e.status e outcome evidence timestamp)

-- Opens the code of this module, for a run of it.
unfoldable pub effects_code : Unit {0}
unfolding core_code finish_attempt close_attempt put_completed complete_by_status complete_effect
    put_uncertain uncertain_by_status mark_effect_uncertain parse_outcome outcome_text new_status
    physical_count attempt_status new_receipt put_reconciled settle_run record_applied reconcile_row
    reconcile_by_status check_evidence reconcile_effect
effects_code = tt
