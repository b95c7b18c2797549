-- ===== src/Owner/Effects/Follow.antt =====
-- The reports on an effect keep to the contract of Owner/Change.
use zworkbench.Owner.Effects.Standing.{completed-Standing, uncertain-Standing, reconciled-Standing}
use zworkbench.Owner.Core.{find_effect, find_run}
use zworkbench.Owner.Core.Steps.{
  append_event-Obeys, record_result_tx-Obeys, At, run_row-Does, effect_row-Does,
  set_run_status-Does,
}
use zworkbench.Exec.Does.{Does, does_bind, does_if, does_return, does_raise, does_read, does_write}
use zworkbench.Json.{Value, Fields}
use zworkbench.Common.{String, ℕ, ◌≡◌, ◌⊎◌, inl, some, inr, refl, ◌≢◌}
use zworkbench.Owner.State.{Db, EffectStatus, Effect, Run, recovering, running, safe_stopped}
use zworkbench.Owner.Effects.{
  record_applied, mark_effect_uncertain, reconcile_by_status, complete_effect, complete_by_status,
  reconcile_row, settle_run, uncertain_by_status, check_evidence, reconcile_effect, Outcome,
  applied, not_applied,
}
use zworkbench.Owner.Aside.{Aside, Standing}
use zworkbench.Owner.Change.{Change, Changes, next}
use zworkbench.Owner.Rules.{
  Follows, Obeys, Follows-credentials, Follows-bind, Follows-now, Follows-pure, Follows-or_raise,
  Follows-transaction,
}

complete_by_status-Does :
    (d₀ : Db) (status : EffectStatus) (e : Effect) (result : Value) (receipt : Fields) (t : ℕ)
    → e.status ≡ status
    → Does
        (At d₀ (λ d. find_effect e.effect_id d ≡ some e))
        (complete_by_status status e result receipt t)
        (λ _. Changes d₀)
unfolding complete_by_status
complete_by_status-Does d₀ EffectStatus.completed e result receipt t s = does_return _ (λ d h. h.0)
complete_by_status-Does d₀ EffectStatus.claimed e result receipt t s =
    does_bind
      (does_write {Q = At d₀ (Standing (λ s. s ≡ EffectStatus.completed) e.effect_id e.attempt)} _
        λ d h. (next h.0 (Change.complete e.effect_id e _ t h.1 s), completed-Standing e t d h.1 _))
      λ _.
        does_bind
          (does_write {Q = Changes d₀} _ λ d h. next h.0 (Change.other (Aside.finish _ _ _ _ h.1)))
          λ _.
            does_bind (record_result_tx-Obeys e.run_id "effect" result _ _ d₀)
              λ _. does_bind (append_event-Obeys e.run_id "effect.completed" _ d₀) λ _. does_read _
complete_by_status-Does d₀ EffectStatus.uncertain e result receipt t s = does_raise _
complete_by_status-Does d₀ EffectStatus.retryable e result receipt t s = does_raise _
complete_by_status-Does d₀ EffectStatus.unknown e result receipt t s = does_raise _

pub complete_effect-Follows :
    (id : String) (result : Value) (receipt : Fields) → Follows (complete_effect id result receipt)
unfolding complete_effect
complete_effect-Follows id result receipt = Follows-bind (Follows-credentials _) λ _.
    Follows-bind Follows-now λ t. Follows-transaction λ d.
      does_bind (effect_row-Does id) λ e. complete_by_status-Does d e.status e result receipt t refl

uncertain_by_status-Does :
    (d₀ : Db) (status : EffectStatus) (e : Effect) (error : Value) (t : ℕ)
    → e.status ≡ status
    → Does
        (At d₀ (λ d. find_effect e.effect_id d ≡ some e))
        (uncertain_by_status status e error t)
        (λ _. Changes d₀)
unfolding uncertain_by_status
uncertain_by_status-Does d₀ EffectStatus.uncertain e error t s = does_return _ (λ d h. h.0)
uncertain_by_status-Does d₀ EffectStatus.claimed e error t s =
    does_bind
      (does_write {Q = At d₀ (Standing (λ s. s ≢ EffectStatus.claimed) e.effect_id e.attempt)} _
        λ d h. (next h.0 (Change.lose e.effect_id e _ t h.1 s), uncertain-Standing e t d h.1 _))
      λ _.
        does_bind
          (does_write {Q = Changes d₀} _ λ d h. next h.0 (Change.other (Aside.close _ _ _ _ _ h.1)))
          λ _. does_bind (run_row-Does e.run_id) λ run.
            does_bind (set_run_status-Does d₀ run recovering "run.recovering" _)
              λ _. does_bind (append_event-Obeys e.run_id "effect.uncertain" _ d₀) λ _. does_read _
uncertain_by_status-Does d₀ EffectStatus.completed e error t s = does_raise _
uncertain_by_status-Does d₀ EffectStatus.retryable e error t s = does_raise _
uncertain_by_status-Does d₀ EffectStatus.unknown e error t s = does_raise _

pub mark_effect_uncertain-Follows :
    (id : String) (error : Value) → Follows (mark_effect_uncertain id error)
unfolding mark_effect_uncertain
mark_effect_uncertain-Follows id error = Follows-bind Follows-now λ t.
    Follows-transaction
      λ d. does_bind (effect_row-Does id) λ e. uncertain_by_status-Does d e.status e error t refl

settle_run-Does :
    (d₀ : Db) (outcome : Outcome) (run : Run) (effect_id : String)
    → Does
        (At d₀ (λ d. find_run run.run_id d ≡ some run))
        (settle_run outcome run effect_id)
        (λ _. Changes d₀)
unfolding settle_run
settle_run-Does d₀ Outcome.unknown run id =
    set_run_status-Does d₀ run safe_stopped "run.safe_stopped" _
settle_run-Does d₀ applied run id =
    does_if _ (λ _. does_return tt (λ d h. h.0))
      (λ _. set_run_status-Does d₀ run running "run.reconciled" _)
settle_run-Does d₀ not_applied run id =
    does_if _ (λ _. does_return tt (λ d h. h.0))
      (λ _. set_run_status-Does d₀ run running "run.reconciled" _)

record_applied-Obeys :
    (outcome : Outcome) (e : Effect) (evidence : Value) → Obeys (record_applied outcome e evidence)
unfolding record_applied
record_applied-Obeys applied e evidence d =
    does_bind (record_result_tx-Obeys e.run_id "effect" _ _ _ d) λ _. does_return tt (λ d' h. h)
record_applied-Obeys not_applied e evidence d = does_return tt (λ d' h. h)
record_applied-Obeys Outcome.unknown e evidence d = does_return tt (λ d' h. h)

reconcile_row-Does :
    (d₀ : Db) (e : Effect) (outcome : Outcome) (evidence : Value) (t : ℕ)
    → (e.status ≡ EffectStatus.uncertain) ⊎ (e.status ≡ EffectStatus.retryable)
    → Does
        (At d₀ (λ d. find_effect e.effect_id d ≡ some e))
        (reconcile_row e outcome evidence t)
        (λ _. Changes d₀)
unfolding reconcile_row
reconcile_row-Does d₀ e outcome evidence t open_status =
    does_bind
      (does_write {Q = At d₀ (Standing (λ s. s ≢ EffectStatus.claimed) e.effect_id e.attempt)} _
        λ d h. (
          next h.0 (Change.reconcile e.effect_id e outcome _ t h.1 open_status),
          reconciled-Standing e t d h.1 outcome _ _,
        ))
      λ _.
        does_bind
          (does_write {Q = Changes d₀} _ λ d h. next h.0 (Change.other (Aside.close _ _ _ _ _ h.1)))
          λ _. does_bind (run_row-Does e.run_id) λ run.
            does_bind (settle_run-Does d₀ outcome run e.effect_id) λ _.
              does_bind (append_event-Obeys e.run_id "effect.reconciled" _ d₀)
                λ _. does_bind (record_applied-Obeys outcome e evidence d₀) λ _. does_read _

reconcile_by_status-Does :
    (d₀ : Db) (status : EffectStatus) (e : Effect) (outcome : Outcome) (evidence : Value) (t : ℕ)
    → e.status ≡ status
    → Does
        (At d₀ (λ d. find_effect e.effect_id d ≡ some e))
        (reconcile_by_status status e outcome evidence t)
        (λ _. Changes d₀)
unfolding reconcile_by_status
reconcile_by_status-Does d₀ EffectStatus.completed e outcome evidence t s =
    does_return _ (λ d h. h.0)
reconcile_by_status-Does d₀ EffectStatus.uncertain e outcome evidence t s =
    reconcile_row-Does d₀ e outcome evidence t (inl s)
reconcile_by_status-Does d₀ EffectStatus.retryable e outcome evidence t s =
    reconcile_row-Does d₀ e outcome evidence t (inr s)
reconcile_by_status-Does d₀ EffectStatus.claimed e outcome evidence t s = does_raise _
reconcile_by_status-Does d₀ EffectStatus.unknown e outcome evidence t s = does_raise _

check_evidence-Follows :
    (outcome : Outcome) (evidence : Value) → Follows (check_evidence outcome evidence)
unfolding check_evidence
check_evidence-Follows applied evidence = Follows-credentials _
check_evidence-Follows not_applied evidence = Follows-pure tt
check_evidence-Follows Outcome.unknown evidence = Follows-pure tt

pub reconcile_effect-Follows :
    (id observed : String) (evidence : Value) → Follows (reconcile_effect id observed evidence)
unfolding reconcile_effect
reconcile_effect-Follows id observed evidence = Follows-bind (Follows-or_raise _ _) λ outcome.
    Follows-bind (check_evidence-Follows outcome evidence) λ _. Follows-bind Follows-now λ t.
      Follows-transaction λ d.
        does_bind (effect_row-Does id)
          λ e. reconcile_by_status-Does d e.status e outcome evidence t refl
