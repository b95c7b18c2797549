-- ===== src/Owner/Claim/Grants.antt =====
-- A granted claim and its row (src/zworkbench/composition.py, `claim_effect`): the insertion and the
-- bounded retry.
use zworkbench.Owner.Core.Steps.{not-false}
use zworkbench.Owner.Core.{add_event, add_result, put_status, has_effect_id}
use zworkbench.Owner.Claim.Existing.{
  add_attempt, put_retry, claim_existing, effect_scope_matches, retry_effect, by_status,
}
use zworkbench.Owner.Claim.Request.{
  stop_and_deny, EffectClaim, ClaimRequest, wait_and_deny, executable,
}
use zworkbench.Owner.Claim.Fresh.{
  add_effect, new_effect, idempotency_race, first_attempt, insert_effect,
}
use zworkbench.Common.{
  ℕ, String, ◌≡◌, refl, subst, Bool, true, false, ◌&&◌, Option, some, List, [], ◌∷◌, ◌++◌, inl, inr,
  arith, if◌then◌else◌, ap, ◌+◌, eq_iff,
}
use zworkbench.Common.Tables.{In, update}
use zworkbench.Json.{Fields}
use zworkbench.Exec.{Exec, Result, ok, err, pure}
use zworkbench.Exec.Does.{
  Does, Post, does_bind, does_return, does_read, does_write, does_if, does_weaken, does_guard,
}
use zworkbench.Exec.Outcome.{does_any}
use zworkbench.Owner.State.{Db, Run, Effect, EffectStatus, running}
use zworkbench.Owner.Rules.{Yields, yields_bind}
use zworkbench.Owner.Core.Status.{StatusFramed, set_run_status-Keeps}
use zworkbench.Owner.Core.Transactions.{append_event-Keeps}

In-last : (es : List Effect) (e : Effect) → In e (es ++ e ∷ [])
In-last [] e = inl refl
In-last (x ∷ xs) e = inr (In-last xs e)

In-updated :
    (p : Effect → Bool) (f : Effect → Effect) (es : List Effect) (e : Effect)
    → In e es
    → p e ≡ true
    → In (f e) (update p f es)
In-updated p f [] e i h = absurd i
In-updated p f (x ∷ xs) e (inl same_row) h = inl (hit (p x) (subst (λ z. p z ≡ true) same_row h))
  where
    hit : (b : Bool) → b ≡ true → f e ≡ (if b then f x else x)
    hit true t = ap f same_row
    hit false t = cc
In-updated p f (x ∷ xs) e (inr later) h = inr (In-updated p f xs e later h)

and_true : (a b : Bool) → (a && b) ≡ true → (a ≡ true) × (b ≡ true)
and_true a b h = ground arith

module _ (q : ClaimRequest) where
  -- The effect is the request's, and is claimed.
  abbrev pub ClaimedFor : Effect → Type 0
  ClaimedFor e =
      (e.status ≡ EffectStatus.claimed)
      × (e.run_id ≡ q.run_id)
      × (e.operation_id ≡ q.operation_id)
      × (e.idempotency_key ≡ q.idempotency_key)
      × (e.effect_class ≡ q.effect_class)
      × (e.action ≡ q.action)
      × (e.resource ≡ q.resource)

  -- The row in the database that the decision is about.
  abbrev pub HasRow : EffectClaim → Db → Type 0
  HasRow c d =
      (e : Effect) × In e d.effects
      × ClaimedFor e
      × (c.effect_id ≡ some e.effect_id)
      × (c.attempt ≡ e.attempt)

  abbrev pub Grants : EffectClaim → Db → Type 0
  Grants c d = executable c ≡ true → HasRow c d

  refused :
      (r : Result EffectClaim) (d : Db) → Post (λ c _. executable c ≡ false) r d → Post Grants r d
  refused (ok c) d h = λ accepted. absurd (clash (executable c) h accepted)
    where
      clash : (b : Bool) → b ≡ false → b ≡ true → ⊥
      clash b p r = cc
  refused (err e) d h = tt

  -- A decision that is no grant.
  pub refuses :
      {P : Db → Type 0} {m : Exec EffectClaim}
      → Yields m (λ c. executable c ≡ false)
      → Does P m Grants
  refuses {P} {m} yields = record { run = λ s h. refused (m s).0 (m s).1.db (yields.at s) }

  pub yields_pure :
      (c : EffectClaim) → executable c ≡ false → Yields (pure c) (λ c. executable c ≡ false)
  unfolding pure
  yields_pure c h = record { at = λ s. h }

  pub stop-Refuses :
      {P : Db → Type 0} (run : Run) (reason : String) (details : Fields) (claim : EffectClaim)
      → executable claim ≡ false
      → Does P (stop_and_deny run q reason details claim) Grants
  unfolding stop_and_deny
  stop-Refuses run reason details claim h =
      refuses (yields_bind _ λ _. yields_bind _ λ _. yields_pure claim h)

  pub wait-Refuses :
      {P : Db → Type 0} (run : Run) (reason : String) → Does P (wait_and_deny run q reason) Grants
  unfolding wait_and_deny executable
  wait-Refuses run reason = refuses (yields_bind _ λ _. yields_bind _ λ _. yields_pure _ refl)

  race-Refuses : {P : Db → Type 0} → Does P (idempotency_race q) Grants
  unfolding idempotency_race executable
  race-Refuses = refuses (yields_bind _ λ _. yields_pure _ refl)

  row-framed : (e : Effect) → StatusFramed (λ d. In e d.effects)
  unfolding add_event add_result put_status
  row-framed e = ((λ d v h. h, λ d r h. h), λ i s t d h. h)

  pub insert-Grants :
      {P : Db → Type 0} (run : Run) (max_attempts t : ℕ) (approval : Option String)
      → Does P (insert_effect run q max_attempts t approval) Grants
  unfolding insert_effect first_attempt add_effect add_attempt
  insert-Grants run max_attempts t approval = does_bind (does_any _) λ id.
      does_bind (does_any _) λ conflict.
        does_if _ (λ _. race-Refuses)
          (λ _.
            does_bind
              (does_write {Q = λ d. In (new_effect q id max_attempts approval t) d.effects} _
                (λ d h. In-last d.effects _))
              λ _. does_bind (does_read _) λ taken.
                does_if _ (λ _. race-Refuses)
                  (λ _.
                    does_bind
                      (does_write {Q = λ d. In (new_effect q id max_attempts approval t) d.effects}
                        _ (λ d h. h))
                      λ _.
                        does_bind (set_run_status-Keeps (row-framed _) run running "run.started" _)
                          λ _.
                            does_bind
                              (append_event-Keeps (row-framed _).0 q.run_id "effect.claimed" _)
                              λ _. does_return _ λ d h accepted.
                                (_, h, (refl, refl, refl, refl, refl, refl, refl), refl, refl)))

  scope_of :
      (e : Effect)
      → effect_scope_matches e q ≡ true
      → (e.operation_id ≡ q.operation_id)
        × (e.action ≡ q.action)
        × (e.resource ≡ q.resource)
        × (e.idempotency_key ≡ q.idempotency_key)
        × (e.effect_class ≡ q.effect_class)
  unfolding effect_scope_matches
  scope_of e h =
      let (operation, rest) = and_true _ _ h in
      let (action, rest') = and_true _ _ rest in
      let (resource, rest'') = and_true _ _ rest' in
      let (key, class) = and_true _ _ rest'' in
      (
        (eq_iff _ _).0 operation,
        (eq_iff _ _).0 action,
        (eq_iff _ _).0 resource,
        (eq_iff _ _).0 key,
        (eq_iff _ _).0 class,
      )

  retry-Grants :
      (run : Run) (e : Effect) (t : ℕ)
      → e.run_id ≡ q.run_id
      → effect_scope_matches e q ≡ true
      → Does (λ d. In e d.effects) (retry_effect run e t) Grants
  unfolding retry_effect put_retry add_attempt executable
  retry-Grants run e t own scope =
      let claimed_row : Effect = record e {
        status = EffectStatus.claimed;
        attempt = e.attempt + 1;
        updated_at = t;
      } in
      let (operation, action, resource, key, class) = scope_of e scope in
      does_if _ (λ _. refuses (yields_bind _ λ _. yields_pure _ refl))
        (λ _.
          does_bind
            (does_write {Q = λ d. In claimed_row d.effects} _
              λ d h. In-updated (has_effect_id e.effect_id) _ d.effects e h ((eq_iff _ _).1 refl))
            λ _. does_bind (does_read _) λ conflict.
              does_bind (does_weaken (λ d h. h) (does_guard _ _) (λ a d h. h.0)) λ _.
                does_bind (does_write {Q = λ d. In claimed_row d.effects} _ (λ d h. h)) λ _.
                  does_bind
                    (set_run_status-Keeps (row-framed claimed_row) run running "run.resumed" _)
                    λ _.
                      does_bind
                        (append_event-Keeps (row-framed claimed_row).0 run.run_id "effect.claimed"
                          _)
                        λ _. does_return _ λ d h accepted. (
                          claimed_row,
                          h,
                          (refl, own, operation, key, class, action, resource),
                          refl,
                          refl,
                        ))

  status-Grants :
      (status : EffectStatus) (run : Run) (e : Effect) (t : ℕ)
      → e.run_id ≡ q.run_id
      → effect_scope_matches e q ≡ true
      → Does (λ d. In e d.effects) (by_status status run e t) Grants
  unfolding by_status executable
  status-Grants EffectStatus.completed run e t own scope = refuses (yields_pure _ refl)
  status-Grants EffectStatus.claimed run e t own scope = refuses (yields_pure _ refl)
  status-Grants EffectStatus.uncertain run e t own scope = refuses (yields_pure _ refl)
  status-Grants EffectStatus.unknown run e t own scope = refuses (yields_pure _ refl)
  status-Grants EffectStatus.retryable run e t own scope = retry-Grants run e t own scope

  pub existing-Grants :
      (run : Run) (e : Effect) (t : ℕ)
      → Does (λ d. In e d.effects) (claim_existing run q e t) Grants
  unfolding claim_existing executable
  existing-Grants run e t =
      does_if _ (λ _. stop-Refuses run _ _ _ refl)
        (λ own.
          does_if _ (λ _. stop-Refuses run _ _ _ refl)
            (λ scope.
              status-Grants e.status run e t ((eq_iff _ _).0 (not-false _ own))
                (not-false _ scope)))
