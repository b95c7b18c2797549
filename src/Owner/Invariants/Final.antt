-- ===== src/Owner/Invariants/Final.antt =====
-- What no later call changes: a completed effect (src/zworkbench/composition.py).
use zworkbench.Owner.Aside.{Aside-SameCore}
use zworkbench.Owner.Claim.Fresh.{add_effect}
use zworkbench.Owner.Effects.{put_completed, put_uncertain, put_reconciled}
use zworkbench.Owner.Claim.Existing.{put_retry}
use zworkbench.Owner.Approvals.{put_denied, add_approval, put_approved}
use zworkbench.Owner.Core.{add_event, find_effect, has_effect_id, put_status, add_result}
use zworkbench.Owner.Runs.{add_run}
use zworkbench.Owner.Claim.Token.{put_consumed}
use zworkbench.Common.{◌≡◌, refl, sym, subst, Bool, true, false, String, some, List, ◌+◌}
use zworkbench.Common.Tables.{In, update}
use zworkbench.Common.Unique.{In-update, In-append}
use zworkbench.Owner.State.{Env, Db, Effect, EffectStatus, new_owner}
use zworkbench.Owner.Change.{Change, Changes, here, next}
use zworkbench.Owner.Api.{Call, perform_all}
use zworkbench.Owner.Api.Follow.{perform_all-Changes}
use zworkbench.Owner.Invariants.{after}
use zworkbench.Owner.Invariants.Effects.{
  EffectsValid, effects_kept, the_row, found_row, to_reconcile,
}
use zworkbench.Owner.Invariants.Once.{valid_after}

-- A row of another status is another row.
other_row :
    (d : Db) (e x : Effect)
    → EffectsValid d
    → In e d.effects
    → In x d.effects
    → (e.status ≡ EffectStatus.completed → ⊥)
    → x.status ≡ EffectStatus.completed
    → has_effect_id e.effect_id x ≡ false
other_row d e x valid i j not_done done = differs (has_effect_id e.effect_id x) refl
  where
    differs : (b : Bool) → has_effect_id e.effect_id x ≡ b → b ≡ false
    differs false t = refl
    differs true t =
        let row : x ≡ e = the_row d e x valid i j t in
        absurd (not_done (subst (λ z. z.status ≡ EffectStatus.completed) row done))

stays :
    (d : Db) (id : String) (e x : Effect) (f : Effect → Effect)
    → EffectsValid d
    → find_effect id d ≡ some e
    → (e.status ≡ EffectStatus.completed → ⊥)
    → x.status ≡ EffectStatus.completed
    → In x d.effects
    → In x (update (has_effect_id id) f d.effects)
stays d id e x f valid found not_done done j =
    let (i, key) = found_row id d e found in
    In-update _ f d.effects x j
      (subst (λ k. has_effect_id k x ≡ false) key (other_row d e x valid i j not_done done))

module _ (x : Effect) (done : x.status ≡ EffectStatus.completed) where
  completed_kept : (d d' : Db) → Change d d' → EffectsValid d → In x d.effects → In x d'.effects
  unfolding add_run put_status add_event add_result add_approval put_approved put_denied
      put_consumed add_effect put_retry put_completed put_uncertain put_reconciled
  completed_kept d d' (Change.create r _ _) v i = i
  completed_kept d d' (Change.move id row status t _ _) v i = i
  completed_kept d d' (Change.rearm id row t _ _) v i = i
  completed_kept d d' (Change.log e payload _ _ _ _ _) v i = i
  completed_kept d d' (Change.result r value _ _ _) v i = i
  completed_kept d d' (Change.request q id t _) v i = i
  completed_kept d d' (Change.approve id a hash expires t _ _) v i = i
  completed_kept d d' (Change.deny id a reason t _ _) v i = i
  completed_kept d d' (Change.consume a t _ _ _) v i = i
  completed_kept d d' (Change.claim q id max_attempts approval t bound free) v i =
      In-append d.effects _ x i
  completed_kept d d' (Change.retry e t j s left) v i =
      In-update (has_effect_id e.effect_id)
        (λ z. record z { status = EffectStatus.claimed; attempt = e.attempt + 1; updated_at = t })
        d.effects x i (other_row d e x v j i (λ c. cc) done)
  completed_kept d d' (Change.complete id e receipt t found s) v i =
      stays d id e x _ v found (λ c. cc) done i
  completed_kept d d' (Change.lose id e error t found s) v i =
      stays d id e x _ v found (λ c. cc) done i
  completed_kept d d' (Change.reconcile id e outcome evidence t found s) v i =
      stays d id e x _ v found (to_reconcile e.status s) done i
  completed_kept d d' (Change.other aside) v i =
      let same = Aside-SameCore d d' aside in subst (In x) (sym same.effects) i

  completed_along :
      (d d' : Db)
      → Changes d d'
      → EffectsValid d
      → In x d.effects
      → EffectsValid d' × In x d'.effects
  completed_along d d' here v i = (v, i)
  completed_along d d'' (next {d'} cs c) v i =
      let (v', i') = completed_along d d' cs v i in
      (effects_kept d' d'' c v', completed_kept d' d'' c v' i')

-- After any history of calls on a fresh owner, whatever calls follow, the row of a completed effect
-- stands as it is, its receipt included.
pub completed_final :
    (env : Env) (calls more : List Call) (e : Effect)
    → In e (after env calls).effects
    → e.status ≡ EffectStatus.completed
    → In e (perform_all more (perform_all calls (new_owner env))).db.effects
completed_final env calls more e i done =
    (completed_along e done _ _ (perform_all-Changes more (perform_all calls (new_owner env)))
      (valid_after env calls) i).1
