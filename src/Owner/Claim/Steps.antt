-- ===== src/Owner/Claim/Steps.antt =====
-- The checks of `claim_effect` as changes of the contract.
use zworkbench.Owner.Claim.Token.{put_consumed}
use zworkbench.Exec.{Exec}
use zworkbench.Owner.Claim.Existing.{add_attempt, put_retry}
use zworkbench.Owner.State.{
  safe_stopped, Db, running, waiting_approval, Exposure, Run, Effect, Attempt,
}
use zworkbench.Json.{int, Value, bool, arr, text, obj, Fields, null, literal}
use zworkbench.Owner.Core.Steps.{set_run_status-Does, At, append_event-Obeys}
use zworkbench.Owner.Claim.Request.{
  ClaimRequest, refusal, EffectClaim, stop_and_deny, wait_and_deny,
}
use zworkbench.Owner.Core.{find_run}
use zworkbench.Owner.Claim.Fresh.{idempotency_race, first_attempt, add_effect, insert_effect}
use zworkbench.Exec.Does.{
  does_if, does_ask, does_return, does_weaken, does_with, does_raise, does_new_id, does_bind,
  does_write, does_query, does_or_raise, Does,
}
use zworkbench.Common.{some, ◌∷◌, ℕ, ◌≡◌, [], none, Option, List, sym, ◌<◌, String, ◌∙◌}
use zworkbench.Owner.Claim.Bounds.{
  check_root, check_declared, deny_out_of_bounds, check_workspace, check_capabilities, resolve_root,
}
use zworkbench.Owner.Aside.{Aside}
use zworkbench.Owner.Change.{Change, Changes, next}

-- The run is as it was read.
abbrev pub Live : Db → Run → Db → Type 0
Live d₀ run = At d₀ (λ d. find_run run.run_id d ≡ some run)

abbrev pub Decides : Db → Run → Exec EffectClaim → Type 0
Decides d₀ run m = Does (Live d₀ run) m (λ _. Changes d₀)

module _ (run : Run) where
  pub live_attempt :
      (a : Attempt) (d : Db)
      → find_run run.run_id d ≡ some run
      → find_run run.run_id (add_attempt a d) ≡ some run
  unfolding find_run add_attempt
  live_attempt a d h = h

  pub live_effect :
      (e : Effect) (d : Db)
      → find_run run.run_id d ≡ some run
      → find_run run.run_id (add_effect e d) ≡ some run
  unfolding find_run add_effect
  live_effect e d h = h

  pub live_retry :
      (id : String) (n t : ℕ) (d : Db)
      → find_run run.run_id d ≡ some run
      → find_run run.run_id (put_retry id n t d) ≡ some run
  unfolding find_run put_retry
  live_retry id n t d h = h

  pub live_consumed :
      (id : String) (t : ℕ) (d : Db)
      → find_run run.run_id d ≡ some run
      → find_run run.run_id (put_consumed id t d) ≡ some run
  unfolding find_run put_consumed
  live_consumed id t d h = h

module _ (d₀ : Db) (run : Run) (q : ClaimRequest) where
  pub stop_and_deny-Decides :
      (reason : String) (details : Fields) (claim : EffectClaim)
      → Decides d₀ run (stop_and_deny run q reason details claim)
  unfolding stop_and_deny
  stop_and_deny-Decides reason details claim =
      does_bind (set_run_status-Does d₀ run safe_stopped "run.safe_stopped" _) λ _.
        does_bind (append_event-Obeys q.run_id "effect.claim.denied" _ d₀)
          λ _. does_return claim (λ d h. h)

  pub wait_and_deny-Decides : (reason : String) → Decides d₀ run (wait_and_deny run q reason)
  unfolding wait_and_deny
  wait_and_deny-Decides reason =
      does_bind (set_run_status-Does d₀ run waiting_approval "run.waiting_approval" _) λ _.
        does_bind (append_event-Obeys q.run_id "effect.claim.denied" _ d₀)
          λ _. does_return (refusal reason) (λ d h. h)

  idempotency_race-Obeys : Does (Changes d₀) (idempotency_race q) (λ _. Changes d₀)
  unfolding idempotency_race
  idempotency_race-Obeys =
      does_bind (append_event-Obeys q.run_id "effect.claim.denied" _ d₀)
        λ _. does_return _ (λ d h. h)

  first_attempt-Decides : (id : String) (t : ℕ) → Decides d₀ run (first_attempt run q id t)
  unfolding first_attempt
  first_attempt-Decides id t = does_bind (does_query _) λ conflict.
      does_if conflict (λ _. does_weaken (λ d h. h.0.0) idempotency_race-Obeys (λ a d h. h))
        (λ free.
          does_bind
            (does_write {Q = Live d₀ run} _ λ d h. (
              next h.0.0 (Change.other (Aside.begin_attempt id 1 t (sym h.1 ∙ free))),
              live_attempt run _ d h.0.1,
            ))
            λ _. does_bind (set_run_status-Does d₀ run running "run.started" _) λ _.
              does_bind (append_event-Obeys q.run_id "effect.claimed" _ d₀)
                λ _. does_return _ (λ d h. h))

  pub insert_effect-Decides :
      (max_attempts t : ℕ) (approval : Option String)
      → 0 < max_attempts
      → Decides d₀ run (insert_effect run q max_attempts t approval)
  unfolding insert_effect
  insert_effect-Decides max_attempts t approval some_attempts = does_bind does_new_id λ id.
      does_bind (does_query _) λ conflict.
        does_if conflict (λ _. does_weaken (λ d h. h.0.0) idempotency_race-Obeys (λ a d h. h))
          (λ free.
            does_bind
              (does_write {Q = Live d₀ run} _ λ d h. (
                next h.0.0
                    (Change.claim q id max_attempts approval t some_attempts (sym h.1 ∙ free)),
                live_effect run _ d h.0.1,
              ))
              λ _. first_attempt-Decides id t)

  check_capabilities-Decides :
      (exposure : Fields) (names : List String) {rest : Exec EffectClaim}
      → Decides d₀ run rest
      → Decides d₀ run (check_capabilities run q exposure names rest)
  unfolding check_capabilities
  check_capabilities-Decides exposure [] rest = rest
  check_capabilities-Decides exposure (name ∷ names) rest =
      does_if _ (λ _. stop_and_deny-Decides _ _ _)
        (λ _. check_capabilities-Decides exposure names rest)

  resolve_root-Live : (root : Value) → Does (Live d₀ run) (resolve_root root) (λ _. Live d₀ run)
  unfolding resolve_root
  resolve_root-Live (text root) =
      does_bind (does_ask _) λ found. does_weaken (λ d h. h) (does_or_raise found _) (λ a d h. h.0)
  resolve_root-Live null = does_raise _
  resolve_root-Live (bool b) = does_raise _
  resolve_root-Live (int n) = does_raise _
  resolve_root-Live (literal s) = does_raise _
  resolve_root-Live (arr vs) = does_raise _
  resolve_root-Live (obj fs) = does_raise _

  check_root-Decides :
      (root : Value) {rest : Exec EffectClaim}
      → Decides d₀ run rest
      → Decides d₀ run (check_root run q root rest)
  unfolding check_root deny_out_of_bounds
  check_root-Decides root rest = does_bind (does_ask _) λ absolute.
      does_if _ (λ _. stop_and_deny-Decides _ _ _)
        (λ _. does_bind (does_ask _) λ found_resource.
          does_with (does_or_raise found_resource _) λ resource _.
            does_bind (resolve_root-Live root)
              λ resolved_root. does_if _ (λ _. rest) (λ _. stop_and_deny-Decides _ _ _))

  check_workspace-Decides :
      (root : Option Value) {rest : Exec EffectClaim}
      → Decides d₀ run rest
      → Decides d₀ run (check_workspace run q root rest)
  unfolding check_workspace
  check_workspace-Decides none rest = rest
  check_workspace-Decides (some root) rest =
      does_if _ (λ _. check_root-Decides root rest) (λ _. rest)

  pub check_declared-Decides :
      (declared : Option Exposure) {rest : Exec EffectClaim}
      → Decides d₀ run rest
      → Decides d₀ run (check_declared run q declared rest)
  unfolding check_declared
  check_declared-Decides none rest = rest
  check_declared-Decides (some declared) rest =
      does_if _ (λ _. stop_and_deny-Decides _ _ _)
        (λ _. check_workspace-Decides _ (check_capabilities-Decides _ _ rest))
