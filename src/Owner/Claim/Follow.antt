-- ===== src/Owner/Claim/Follow.antt =====
-- `claim_effect` keeps to the contract of Owner/Change.
use zworkbench.Owner.Core.{require_positive}
use zworkbench.Owner.Claim.Existing.{existing_effect}
use zworkbench.Owner.Claim.Approved.{existing-In, claim_existing-Decides, check_approval-Decides}
use zworkbench.Owner.Claim.Steps.{
  check_declared-Decides, stop_and_deny-Decides, Live, Decides, insert_effect-Decides,
}
use zworkbench.Owner.Claim.Request.{ClaimRequest}
use zworkbench.Owner.State.{Run, Effect, Db}
use zworkbench.Common.Int.{pos, negsuc, ℤ, positive}
use zworkbench.Exec.Does.{does_bind, does_weaken, does_if, does_query, does_return, Does, does_read}
use zworkbench.Owner.Core.Steps.{run_row-Does}
use zworkbench.Owner.Claim.{claim_by_existing}
use zworkbench.Common.{sym, suc, Option, arith, ◌<◌, ◌≡◌, zero, none, ℕ, some}
use zworkbench.Owner.Claim.{claim_effect, validate_effect_inputs, claim_on_run, claim_new}
use zworkbench.Owner.Rules.{
  Follows-bind, yields_bind, Follows-transaction, Follows-now, Yields, Follows-text, Follows-with,
  yields_or_raise, Follows, Follows-positive,
}
use zworkbench.Owner.Change.{Changes}

module _ (d₀ : Db) (run : Run) (q : ClaimRequest) (max_attempts t : ℕ)
    (some_attempts : 0 < max_attempts) where
  claim_new-Decides : Decides d₀ run (claim_new run q max_attempts t)
  unfolding claim_new
  claim_new-Decides =
      does_if _ (λ _. stop_and_deny-Decides d₀ run q _ _ _)
        (λ _.
          does_if _
            (λ _. does_bind (does_query _) λ found.
              check_approval-Decides d₀ run q t found
                λ id. insert_effect-Decides d₀ run q max_attempts t id some_attempts)
            (λ _. insert_effect-Decides d₀ run q max_attempts t none some_attempts))

  claim_by_existing-Decides :
      (existing : Option Effect)
      → Does
          (λ d. Live d₀ run d × (existing ≡ existing_effect q.operation_id q.idempotency_key d))
          (claim_by_existing run q max_attempts t existing)
          (λ _. Changes d₀)
  unfolding claim_by_existing
  claim_by_existing-Decides none = does_bind (does_read _) λ declared.
      does_weaken (λ d h. h.0) (check_declared-Decides d₀ run q declared claim_new-Decides)
        (λ a d h. h)
  claim_by_existing-Decides (some e) =
      does_weaken (λ d h. (h.0, (existing-In q.operation_id q.idempotency_key d e (sym h.1)).0))
        (claim_existing-Decides d₀ run q e t) (λ a d h. h)

  claim_on_run-Decides : Decides d₀ run (claim_on_run run q max_attempts t)
  unfolding claim_on_run
  claim_on_run-Decides =
      does_if _ (λ _. does_return _ (λ d h. h.0))
        (λ _. does_bind (does_query _) λ existing. claim_by_existing-Decides existing)

positive-lt : (n : ℤ) (m : ℕ) → positive n ≡ some m → 0 < m
positive-lt (pos zero) m h = cc
positive-lt (pos (suc n)) m h = ground arith
positive-lt (negsuc n) m h = cc

validate-Yields : (q : ClaimRequest) → Yields (validate_effect_inputs q) (λ m. 0 < m)
unfolding validate_effect_inputs require_positive
validate-Yields q = yields_bind _ λ _. yields_bind _ λ _.
    yields_bind _
      λ _. yields_bind _ λ _. yields_bind _ λ _. yields_or_raise _ _ (positive-lt q.max_attempts)

validate-Follows : (q : ClaimRequest) → Follows (validate_effect_inputs q)
unfolding validate_effect_inputs
validate-Follows q = Follows-bind (Follows-text _) λ _. Follows-bind (Follows-text _) λ _.
    Follows-bind (Follows-text _)
      λ _. Follows-bind (Follows-text _) λ _. Follows-bind (Follows-text _) λ _. Follows-positive _

pub claim_effect-Follows : (q : ClaimRequest) → Follows (claim_effect q)
unfolding claim_effect
claim_effect-Follows q =
    Follows-with (validate-Follows q) (validate-Yields q) λ max_attempts some_attempts.
      Follows-bind Follows-now λ t. Follows-transaction λ d.
        does_bind (run_row-Does q.run_id)
          λ run. claim_on_run-Decides d run q max_attempts t some_attempts
