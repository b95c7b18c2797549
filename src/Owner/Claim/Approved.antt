-- ===== src/Owner/Claim/Approved.antt =====
-- The approval checks and the bounded retry of `claim_effect` as changes of the contract.
use zworkbench.Owner.Aside.{Aside}
use zworkbench.Owner.Claim.Request.{ClaimRequest, EffectClaim}
use zworkbench.Owner.Claim.Existing.{
  claim_existing, retry_effect, existing_effect, same_operation, earliest, by_status, earlier,
}
use zworkbench.Owner.Core.Steps.{not-false, set_run_status-Does, append_event-Obeys}
use zworkbench.Exec.Does.{
  does_with, does_bind, does_ask, does_return, does_weaken, Does, does_raise, does_write, does_if,
  does_fresh,
}
use zworkbench.Common.Tables.{In-select, In, select, find-In}
use zworkbench.Owner.Approvals.{approval_of, same_approval_status}
use zworkbench.Owner.Claim.Token.{token_matches, check_approval, check_token, given_token}
use zworkbench.Owner.State.{
  Effect, running, Run, Approval, safe_stopped, Db, EffectStatus, ApprovalStatus,
}
use zworkbench.Common.{
  none, true, some, eq_iff, arith, refl, String, ◌≡◌, ◌∷◌, ◌⊎◌, ℕ, Option, leb, List, ap, inl, [],
  sym, false, inr, ◌<◌,
}
use zworkbench.Exec.{Exec}
use zworkbench.Owner.Claim.Steps.{
  wait_and_deny-Decides, Live, stop_and_deny-Decides, Decides, live_retry, live_attempt,
  live_consumed,
}
use zworkbench.Owner.Change.{Change, Changes, next}

token_matches-Does :
    {P : Db → Type 0} (hash : Option String) (digest : String)
    → Does P (token_matches hash digest) (λ b d. P d × (b ≡ true → hash ≡ some digest))
unfolding token_matches
token_matches-Does none digest = does_raise _
token_matches-Does (some hash) digest =
    does_return _ (λ d h. (h, λ e. ap some ((eq_iff hash digest).0 e)))

approved-of :
    (s : ApprovalStatus)
    → same_approval_status s ApprovalStatus.approved ≡ true
    → s ≡ ApprovalStatus.approved
unfolding same_approval_status
approved-of ApprovalStatus.approved h = refl
approved-of ApprovalStatus.pending h = cc
approved-of ApprovalStatus.denied h = cc
approved-of ApprovalStatus.consumed h = cc

module _ (d₀ : Db) (run : Run) (q : ClaimRequest) (t : ℕ) where
  -- Beside the run, the approval is as it was read.
  abbrev LiveWith : Approval → Db → Type 0
  LiveWith a d = Live d₀ run d × In a d.approvals

  check_token-Decides :
      (a : Approval) (token : String) {rest : Exec EffectClaim}
      → a.status ≡ ApprovalStatus.approved
      → Decides d₀ run rest
      → Does (LiveWith a) (check_token run q a token t rest) (λ _. Changes d₀)
  unfolding check_token
  check_token-Decides a token is_approved rest =
      does_if _ (λ _. does_weaken (λ d h. h.0) (stop_and_deny-Decides d₀ run q _ _ _) (λ a d h. h))
        (λ _. does_bind (does_ask _) λ digest.
          does_with (token_matches-Does a.token_hash digest) λ matches _.
            does_if _
              (λ _. does_weaken (λ d h. h.0) (stop_and_deny-Decides d₀ run q _ _ _) (λ a d h. h))
              (λ _.
                does_if _
                  (λ _.
                    does_weaken (λ d h. h.0) (stop_and_deny-Decides d₀ run q _ _ _) (λ a d h. h))
                  (λ fresh.
                    does_bind
                      (does_write {Q = Live d₀ run} _ λ d h. (
                        next h.0.0 (Change.consume a t h.1 is_approved fresh),
                        live_consumed run a.approval_id t d h.0.1,
                      ))
                      λ _. rest)))

  given_token-Decides :
      (a : Approval) (token : Option String) {rest : Exec EffectClaim}
      → a.status ≡ ApprovalStatus.approved
      → Decides d₀ run rest
      → Does (LiveWith a) (given_token run q a token t rest) (λ _. Changes d₀)
  unfolding given_token
  given_token-Decides a none is_approved rest =
      does_weaken (λ d h. h.0) (wait_and_deny-Decides d₀ run q _) (λ a d h. h)
  given_token-Decides a (some token) is_approved rest =
      does_if _ (λ _. does_weaken (λ d h. h.0) (wait_and_deny-Decides d₀ run q _) (λ a d h. h))
        (λ _. check_token-Decides a token is_approved rest)

  pub check_approval-Decides :
      (found : Option Approval) {rest : Option String → Exec EffectClaim}
      → ((id : Option String) → Decides d₀ run (rest id))
      → Does
          (λ d. Live d₀ run d × (found ≡ approval_of q.operation_id d))
          (check_approval run q found t rest)
          (λ _. Changes d₀)
  unfolding check_approval approval_of
  check_approval-Decides none rest =
      does_weaken (λ d h. h.0) (wait_and_deny-Decides d₀ run q _) (λ a d h. h)
  check_approval-Decides (some a) rest =
      does_if _ (λ _. does_weaken (λ d h. h.0) (wait_and_deny-Decides d₀ run q _) (λ a d h. h))
        (λ decided.
          does_if _
            (λ _. does_weaken (λ d h. h.0) (stop_and_deny-Decides d₀ run q _ _ _) (λ a d h. h))
            (λ _.
              does_weaken (λ d h. (h.0, find-In _ d.approvals a (sym h.1)))
                (given_token-Decides a q.approval_token (approved-of a.status (not-false _ decided))
                  (rest (some a.approval_id)))
                (λ a d h. h)))

earlier-In : (x e : Effect) (o : Option Effect) → earlier x o ≡ some e → (e ≡ x) ⊎ (o ≡ some e)
unfolding earlier
earlier-In x e none h = ground arith
earlier-In x e (some f) h = ground arith

earliest-In : (es : List Effect) (e : Effect) → earliest es ≡ some e → In e es
unfolding earliest
earliest-In [] e h = cc
earliest-In (x ∷ xs) e h = elim (earlier-In x e (earliest xs) h) [
  | inl first ↦ inl first
  | inr later ↦ inr (earliest-In xs e later)
]

pub existing-In :
    (operation_id idempotency_key : String) (d : Db) (e : Effect)
    → existing_effect operation_id idempotency_key d ≡ some e
    → In e d.effects × (same_operation operation_id idempotency_key e ≡ true)
unfolding existing_effect
existing-In operation_id idempotency_key d e h =
    In-select _ d.effects e (earliest-In (select _ d.effects) e h)

not_le : (a b : ℕ) → leb b a ≡ false → a < b
not_le a b h = ground arith

module _ (d₀ : Db) (run : Run) where
  retry_effect-Decides :
      (e : Effect) (t : ℕ)
      → e.status ≡ EffectStatus.retryable
      → Does (λ d. Live d₀ run d × In e d.effects) (retry_effect run e t) (λ _. Changes d₀)
  unfolding retry_effect
  retry_effect-Decides e t open_status =
      does_if _
        (λ _.
          does_bind
            (does_weaken (λ d h. h.0) (set_run_status-Does d₀ run safe_stopped "run.safe_stopped" _)
              (λ a d h. h))
            λ _. does_return _ (λ d h. h))
        (λ left.
          does_bind
            (does_write {Q = Live d₀ run} _ λ d h. (
              next h.0.0 (Change.retry e t h.1 open_status (not_le _ _ left)),
              live_retry run e.effect_id _ t d h.0.1,
            ))
            λ _. does_fresh _ _ λ _.
              does_bind
                (does_write {Q = Live d₀ run} _ λ d h. (
                  next h.0.0 (Change.other (Aside.begin_attempt e.effect_id _ t h.1)),
                  live_attempt run _ d h.0.1,
                ))
                λ _. does_bind (set_run_status-Does d₀ run running "run.resumed" _) λ _.
                  does_bind (append_event-Obeys run.run_id "effect.claimed" _ d₀)
                    λ _. does_return _ (λ d h. h))

  by_status-Decides :
      (status : EffectStatus) (e : Effect) (t : ℕ)
      → e.status ≡ status
      → Does (λ d. Live d₀ run d × In e d.effects) (by_status status run e t) (λ _. Changes d₀)
  unfolding by_status
  by_status-Decides EffectStatus.completed e t s = does_return _ (λ d h. h.0.0)
  by_status-Decides EffectStatus.claimed e t s = does_return _ (λ d h. h.0.0)
  by_status-Decides EffectStatus.uncertain e t s = does_return _ (λ d h. h.0.0)
  by_status-Decides EffectStatus.unknown e t s = does_return _ (λ d h. h.0.0)
  by_status-Decides EffectStatus.retryable e t s = retry_effect-Decides e t s

  pub claim_existing-Decides :
      (q : ClaimRequest) (e : Effect) (t : ℕ)
      → Does (λ d. Live d₀ run d × In e d.effects) (claim_existing run q e t) (λ _. Changes d₀)
  unfolding claim_existing
  claim_existing-Decides q e t =
      does_if _ (λ _. does_weaken (λ d h. h.0) (stop_and_deny-Decides d₀ run q _ _ _) (λ a d h. h))
        (λ _.
          does_if _
            (λ _. does_weaken (λ d h. h.0) (stop_and_deny-Decides d₀ run q _ _ _) (λ a d h. h))
            (λ _. by_status-Decides e.status e t refl))
