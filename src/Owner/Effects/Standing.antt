-- ===== src/Owner/Effects/Standing.antt =====
-- How an effect stands after the statements that report on it (src/zworkbench/composition.py).
use zworkbench.Common.{ℕ, ◌≡◌, ◌≢◌, some, refl}
use zworkbench.Common.Unique.{find-update}
use zworkbench.Json.{Value}
use zworkbench.Owner.State.{Db, Effect, EffectStatus}
use zworkbench.Owner.Core.{find_effect, has_effect_id}
use zworkbench.Owner.Effects.{
  Outcome, applied, not_applied, new_status, put_completed, put_uncertain, put_reconciled,
}
use zworkbench.Owner.Aside.{Standing}

module _ (e : Effect) (t : ℕ) (d : Db) (found : find_effect e.effect_id d ≡ some e) where
  pub completed-Standing :
      (receipt : Value)
      → Standing
          (λ s. s ≡ EffectStatus.completed)
          e.effect_id
          e.attempt
          (put_completed e.effect_id receipt t d)
  unfolding find_effect put_completed
  completed-Standing receipt =
      (_, (find-update (has_effect_id e.effect_id) _ d.effects e (λ x. refl) found, (refl, refl)))

  pub uncertain-Standing :
      (error : Value)
      → Standing
          (λ s. s ≢ EffectStatus.claimed)
          e.effect_id
          e.attempt
          (put_uncertain e.effect_id error t d)
  unfolding find_effect put_uncertain
  uncertain-Standing error = (
    _,
    (find-update (has_effect_id e.effect_id) _ d.effects e (λ x. refl) found, (refl, λ same. cc)),
  )

  new_status-settled : (outcome : Outcome) → new_status outcome ≢ EffectStatus.claimed
  unfolding new_status
  new_status-settled applied same = cc
  new_status-settled not_applied same = cc
  new_status-settled Outcome.unknown same = cc

  pub reconciled-Standing :
      (outcome : Outcome) (count : ℕ) (evidence : Value)
      → Standing
          (λ s. s ≢ EffectStatus.claimed)
          e.effect_id
          e.attempt
          (put_reconciled e.effect_id outcome count evidence t d)
  unfolding find_effect put_reconciled
  reconciled-Standing outcome count evidence = (
    _,
    (
      find-update (has_effect_id e.effect_id) _ d.effects e (λ x. refl) found,
      (refl, new_status-settled outcome),
    ),
  )
