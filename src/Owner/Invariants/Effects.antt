-- ===== src/Owner/Invariants/Effects.antt =====
-- The rows of `effects` (src/zworkbench/composition.py): no two share a key, each has attempts
-- within its bound, and its physical effect is counted once.
use zworkbench.Owner.Aside.{Aside-SameCore}
use zworkbench.Owner.Claim.Request.{ClaimRequest}
use zworkbench.Owner.Core.Steps.{or_false}
use zworkbench.Owner.Claim.Token.{put_consumed}
use zworkbench.Owner.Aside.{SameCore}
use zworkbench.Owner.Change.{Change}
use zworkbench.Owner.Runs.{add_run}
use zworkbench.Owner.Approvals.{put_denied, put_approved, add_approval}
use zworkbench.Owner.Claim.Fresh.{effect_conflict, add_effect, new_effect}
use zworkbench.Common.{
  ℕ, ◌<◌, ◌≤◌, String, ◌≡◌, refl, sym, subst, true, false, ◌||◌, some, inl, inr, ◌==◌, eq_iff,
  arith, ◌⊎◌, Option,
}
use zworkbench.Common.Tables.{All, In, find-In, find-holds, update, All-append}
use zworkbench.Common.Unique.{
  Apart, Apart-update, Apart-In, All-update-In, exists-none, Apart-append,
}
use zworkbench.Owner.State.{Db, Effect, EffectStatus}
use zworkbench.Owner.Core.{has_effect_id, find_effect, add_event, put_status, add_result}
use zworkbench.Owner.Claim.Existing.{same_operation, put_retry}
use zworkbench.Owner.Effects.{
  Outcome, physical_count, new_status, put_uncertain, put_reconciled, put_completed,
}

-- The identity, the operation and the idempotency key of the two rows differ.
abbrev pub KeysApart : Effect → Effect → Type 0
KeysApart e f =
    (e.effect_id == f.effect_id || same_operation f.operation_id f.idempotency_key e) ≡ false

-- A completed effect happened once, and any other has not been seen to happen.
abbrev pub Settled : EffectStatus → ℕ → Type 0
Settled EffectStatus.completed n = n ≡ 1
Settled _ n = n ≡ 0

abbrev pub EffectValid : Effect → Type 0
EffectValid e =
    (0 < e.attempt) × (e.attempt ≤ e.max_attempts) × Settled e.status e.physical_effect_count

abbrev pub EffectsValid : Db → Type 0
EffectsValid d = Apart KeysApart d.effects × All EffectValid d.effects

id_differs : (e f : Effect) → KeysApart e f → e.effect_id ≡ f.effect_id → ⊥
id_differs e f apart same =
    let key : (e.effect_id == f.effect_id) ≡ true = (eq_iff _ _).1 same in ground arith

-- A row is known by its identity.
pub the_row :
    (d : Db) (e x : Effect)
    → EffectsValid d
    → In e d.effects
    → In x d.effects
    → has_effect_id e.effect_id x ≡ true
    → x ≡ e
the_row d e x valid i j same =
    let key : x.effect_id ≡ e.effect_id = (eq_iff _ _).0 same in
    elim (Apart-In KeysApart d.effects x e valid.0 j i) [
      | inl same_row ↦ same_row
      | inr (inl apart) ↦ absurd (id_differs x e apart key)
      | inr (inr apart) ↦ absurd (id_differs e x apart (sym key))
    ]

-- The row that `_effect_row` reads is in the table under that identity.
pub found_row :
    (id : String) (d : Db) (e : Effect)
    → find_effect id d ≡ some e
    → In e d.effects × (e.effect_id ≡ id)
unfolding find_effect
found_row id d e found =
    (find-In _ d.effects e found, (eq_iff _ _).0 (find-holds _ d.effects e found))

open_count : (s : EffectStatus) (n : ℕ) → (s ≡ EffectStatus.completed → ⊥) → Settled s n → n ≡ 0
open_count EffectStatus.completed n not_done h = absurd (not_done refl)
open_count EffectStatus.claimed n not_done h = h
open_count EffectStatus.uncertain n not_done h = h
open_count EffectStatus.retryable n not_done h = h
open_count EffectStatus.unknown n not_done h = h

-- An update of the row `e` that keeps the keys and leaves a valid row.
put_row :
    (d : Db) (e : Effect) (f : Effect → Effect)
    → ((x y : Effect) → KeysApart x y → KeysApart (f x) y)
    → ((x y : Effect) → KeysApart x y → KeysApart x (f y))
    → EffectsValid d
    → In e d.effects
    → (EffectValid e → EffectValid (f e))
    → Apart KeysApart (update (has_effect_id e.effect_id) f d.effects)
      × All EffectValid (update (has_effect_id e.effect_id) f d.effects)
put_row d e f left right valid i keep = (
  Apart-update KeysApart _ f d.effects left right valid.0,
  All-update-In EffectValid _ f d.effects
      (λ x j same v.
        let row : x ≡ e = the_row d e x valid i j same in
        subst (λ z. EffectValid (f z)) (sym row) (keep (subst EffectValid row v)))
      valid.1,
)

put_found :
    (id : String) (d : Db) (e : Effect) (f : Effect → Effect)
    → ((x y : Effect) → KeysApart x y → KeysApart (f x) y)
    → ((x y : Effect) → KeysApart x y → KeysApart x (f y))
    → EffectsValid d
    → find_effect id d ≡ some e
    → (EffectValid e → EffectValid (f e))
    → Apart KeysApart (update (has_effect_id id) f d.effects)
      × All EffectValid (update (has_effect_id id) f d.effects)
put_found id d e f left right valid found keep =
    let (i, key) = found_row id d e found in
    subst
      (λ k.
        Apart KeysApart (update (has_effect_id k) f d.effects)
        × All EffectValid (update (has_effect_id k) f d.effects))
      key (put_row d e f left right valid i keep)

pub to_reconcile :
    (s : EffectStatus)
    → (s ≡ EffectStatus.uncertain) ⊎ (s ≡ EffectStatus.retryable)
    → s ≡ EffectStatus.completed
    → ⊥
to_reconcile s (inl a) b = cc
to_reconcile s (inr a) b = cc

reconciled_count : (o : Outcome) (n : ℕ) → n ≡ 0 → Settled (new_status o) (physical_count o n)
unfolding new_status physical_count
reconciled_count Outcome.applied n h = refl
reconciled_count Outcome.not_applied n h = h
reconciled_count Outcome.unknown n h = h

same_core : (d d' : Db) → SameCore d d' → EffectsValid d → EffectsValid d'
same_core d d' same valid =
    subst (λ es. Apart KeysApart es × All EffectValid es) (sym same.effects) valid

add_valid :
    (d : Db) (q : ClaimRequest) (id : String) (max_attempts : ℕ) (approval : Option String) (t : ℕ)
    → 0 < max_attempts
    → effect_conflict id q approval d ≡ false
    → EffectsValid d
    → EffectsValid (add_effect (new_effect q id max_attempts approval t) d)
unfolding add_effect
add_valid d q id max_attempts approval t bound free valid = (
  Apart-append KeysApart d.effects _ valid.0 (exists-none _ d.effects (or_false _ _ free).0),
  All-append EffectValid d.effects _ valid.1 (omega arith, bound, refl),
)

pub effects_kept : (d d' : Db) → Change d d' → EffectsValid d → EffectsValid d'
unfolding add_run put_status add_event add_result add_approval put_approved put_denied put_consumed
    put_retry put_completed put_uncertain put_reconciled
effects_kept d d' (Change.create r _ _) v = v
effects_kept d d' (Change.move id row status t _ _) v = v
effects_kept d d' (Change.rearm id row t _ _) v = v
effects_kept d d' (Change.log e payload _ _ _ _ _) v = v
effects_kept d d' (Change.result r value _ _ _) v = v
effects_kept d d' (Change.request q id t _) v = v
effects_kept d d' (Change.approve id a hash expires t _ _) v = v
effects_kept d d' (Change.deny id a reason t _ _) v = v
effects_kept d d' (Change.consume a t _ _ _) v = v
effects_kept d d' (Change.claim q id max_attempts approval t bound free) v =
    add_valid d q id max_attempts approval t bound free v
effects_kept d d' (Change.retry e t i s left) v =
    put_row d e _ (λ x y h. h) (λ x y h. h) v i
      (λ ok. (omega arith, omega arith, open_count e.status _ (λ c. cc) ok.2))
effects_kept d d' (Change.complete id e receipt t found s) v =
    put_found id d e _ (λ x y h. h) (λ x y h. h) v found (λ ok. (ok.0, ok.1, refl))
effects_kept d d' (Change.lose id e error t found s) v =
    put_found id d e _ (λ x y h. h) (λ x y h. h) v found
      (λ ok. (ok.0, ok.1, open_count e.status _ (λ c. cc) ok.2))
effects_kept d d' (Change.reconcile id e outcome evidence t found s) v =
    put_found id d e _ (λ x y h. h) (λ x y h. h) v found
      (λ ok. (
        ok.0,
        ok.1,
        reconciled_count outcome _ (open_count e.status _ (to_reconcile e.status s) ok.2),
      ))
effects_kept d d' (Change.other aside) v =
    let same = Aside-SameCore d d' aside in same_core d d' same v
