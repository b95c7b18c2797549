-- ===== src/Owner/Invariants/Once.antt =====
-- An operation's effect happens at most once (src/zworkbench/composition.py).
use zworkbench.Owner.Change.{one}
use zworkbench.Common.{
  ℕ, ◌+◌, ◌<◌, ◌≤◌, String, ◌≡◌, refl, Bool, true, false, List, [], ◌∷◌, ◌==◌, eq_iff, arith,
  if◌then◌else◌, suc,
}
use zworkbench.Common.Tables.{All, All-In, In, count}
use zworkbench.Common.Unique.{count-Apart}
use zworkbench.Owner.State.{Env, Effect, EffectStatus}
use zworkbench.Owner.Api.{Call}
use zworkbench.Owner.Invariants.{always, after}
use zworkbench.Owner.Invariants.Effects.{
  KeysApart, EffectValid, EffectsValid, Settled, effects_kept,
}

pub valid_after : (env : Env) (calls : List Call) → EffectsValid (after env calls)
valid_after env calls = always EffectsValid effects_kept (tt, tt) env calls

-- The physical effects that the rows under an idempotency key record.
abbrev pub physical_effects : String → List Effect → ℕ
physical_effects key [] = 0
physical_effects key (e ∷ es) =
    let rest = physical_effects key es in
    if e.idempotency_key == key then e.physical_effect_count + rest else rest

key_apart :
    (key : String) (e f : Effect)
    → KeysApart e f
    → (e.idempotency_key == key) ≡ true
    → (f.idempotency_key == key) ≡ false
key_apart key e f apart same = differs (f.idempotency_key == key) refl
  where
    differs : (b : Bool) → (f.idempotency_key == key) ≡ b → b ≡ false
    differs false t = refl
    differs true t =
        let same_key : e.idempotency_key ≡ f.idempotency_key =
          let p : e.idempotency_key ≡ key = (eq_iff _ _).0 same in
          let q : f.idempotency_key ≡ key = (eq_iff _ _).0 t in cc in
        let shared : (e.idempotency_key == f.idempotency_key) ≡ true = (eq_iff _ _).1 same_key in
        ground arith

operation_apart :
    (operation : String) (e f : Effect)
    → KeysApart e f
    → (e.operation_id == operation) ≡ true
    → (f.operation_id == operation) ≡ false
operation_apart operation e f apart same = differs (f.operation_id == operation) refl
  where
    differs : (b : Bool) → (f.operation_id == operation) ≡ b → b ≡ false
    differs false t = refl
    differs true t =
        let same_key : e.operation_id ≡ f.operation_id =
          let p : e.operation_id ≡ operation = (eq_iff _ _).0 same in
          let q : f.operation_id ≡ operation = (eq_iff _ _).0 t in cc in
        let shared : (e.operation_id == f.operation_id) ≡ true = (eq_iff _ _).1 same_key in
        ground arith

Settled-once : (s : EffectStatus) (n : ℕ) → Settled s n → n ≤ 1
Settled-once EffectStatus.completed n h = omega arith
Settled-once EffectStatus.claimed n h = omega arith
Settled-once EffectStatus.uncertain n h = omega arith
Settled-once EffectStatus.retryable n h = omega arith
Settled-once EffectStatus.unknown n h = omega arith

physical_counted :
    (key : String) (es : List Effect)
    → All EffectValid es
    → physical_effects key es ≤ count (λ e. e.idempotency_key == key) es
physical_counted key [] h = omega arith
physical_counted key (e ∷ es) h =
    counted (e.idempotency_key == key) (Settled-once e.status _ h.0.2) (physical_counted key es h.1)
  where
    counted :
        (b : Bool) {m n c : ℕ}
        → m ≤ 1
        → n ≤ c
        → (if b then m + n else n) ≤ (if b then Prim.Native.Nat.suc c else c)
    counted true one rest = omega arith
    counted false one rest = rest

-- After any history of calls on a fresh owner, at most one effect row stands under an operation.
pub operation_once :
    (env : Env) (calls : List Call) (operation : String)
    → count (λ e. e.operation_id == operation) (after env calls).effects ≤ 1
operation_once env calls operation =
    count-Apart KeysApart _ (after env calls).effects (operation_apart operation)
      (valid_after env calls).0

-- After any history of calls on a fresh owner, the rows under an idempotency key record at most one
-- physical effect in all.
pub physical_once :
    (env : Env) (calls : List Call) (key : String)
    → physical_effects key (after env calls).effects ≤ 1
physical_once env calls key =
    let valid : EffectsValid (after env calls) = valid_after env calls in
    let rows : count (λ e. e.idempotency_key == key) (after env calls).effects ≤ 1 =
      count-Apart KeysApart _ (after env calls).effects (key_apart key) valid.0 in
    let counted : physical_effects key (after env calls).effects
        ≤ count (λ e. e.idempotency_key == key) (after env calls).effects =
      physical_counted key (after env calls).effects valid.1 in
    omega arith

-- After any history of calls on a fresh owner, an effect has had at least one attempt and no more
-- than its bound, and its physical effects are one if it is completed and none otherwise.
pub attempts_bounded :
    (env : Env) (calls : List Call) (e : Effect)
    → In e (after env calls).effects
    → (0 < e.attempt) × (e.attempt ≤ e.max_attempts) × Settled e.status e.physical_effect_count
attempts_bounded env calls e i = All-In EffectValid _ e i (valid_after env calls).1
