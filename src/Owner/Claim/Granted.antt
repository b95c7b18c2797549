-- ===== src/Owner/Claim/Granted.antt =====
-- What `claim_effect` (src/zworkbench/composition.py) has written when it grants a claim.
use zworkbench.Owner.Claim.Grants.{
  ClaimedFor, Grants, refuses, yields_pure, stop-Refuses, wait-Refuses, insert-Grants,
  existing-Grants,
}
use zworkbench.Owner.Claim.Token.{given_token, check_token, check_approval}
use zworkbench.Owner.Claim.{claim_by_existing, claim_effect, claim_new, claim_on_run}
use zworkbench.Owner.Claim.Bounds.{
  deny_out_of_bounds, check_capabilities, check_workspace, check_root, check_declared,
}
use zworkbench.Owner.Claim.Approved.{existing-In}
use zworkbench.Owner.Claim.Existing.{existing_effect}
use zworkbench.Owner.Claim.Request.{EffectClaim, ClaimRequest, executable}
use zworkbench.Common.{ℕ, String, ◌≡◌, refl, true, Option, some, List, [], ◌∷◌, sym, none}
use zworkbench.Common.Tables.{In}
use zworkbench.Json.{Fields, Value}
use zworkbench.Exec.{Exec, ok}
use zworkbench.Exec.Does.{Does, does_bind, does_if, does_weaken, does_query}
use zworkbench.Exec.Outcome.{does_any, does_ok}
use zworkbench.Owner.State.{Db, Run, Effect, Owner, Approval, Exposure}
use zworkbench.Owner.Core.Transactions.{does_transaction}

module _ (q : ClaimRequest) where
  -- A grant, whatever the database was.
  abbrev Always : Exec EffectClaim → Type 0
  Always m = Does (λ _. Unit {0}) m (Grants q)

  from_any : {P : Db → Type 0} {m : Exec EffectClaim} → Always m → Does P m (Grants q)
  from_any rest = does_weaken (λ d h. tt) rest (λ a d h. h)

  capabilities-Grants :
      (run : Run) (exposure : Fields) (names : List String) {rest : Exec EffectClaim}
      → Always rest
      → Always (check_capabilities run q exposure names rest)
  unfolding check_capabilities executable
  capabilities-Grants run exposure [] rest = rest
  capabilities-Grants run exposure (name ∷ names) rest =
      does_if _ (λ _. stop-Refuses q run _ _ _ refl)
        (λ _. capabilities-Grants run exposure names rest)

  root-Grants :
      (run : Run) (root : Value) {rest : Exec EffectClaim}
      → Always rest
      → Always (check_root run q root rest)
  unfolding check_root deny_out_of_bounds executable
  root-Grants run root rest = does_bind (does_any _) λ absolute.
      does_if _ (λ _. stop-Refuses q run _ _ _ refl)
        (λ _. does_bind (does_any _) λ found_resource. does_bind (does_any _) λ resource.
          does_bind (does_any _)
            λ resolved_root. does_if _ (λ _. rest) (λ _. stop-Refuses q run _ _ _ refl))

  workspace-Grants :
      (run : Run) (root : Option Value) {rest : Exec EffectClaim}
      → Always rest
      → Always (check_workspace run q root rest)
  unfolding check_workspace
  workspace-Grants run none rest = rest
  workspace-Grants run (some root) rest = does_if _ (λ _. root-Grants run root rest) (λ _. rest)

  declared-Grants :
      (run : Run) (declared : Option Exposure) {rest : Exec EffectClaim}
      → Always rest
      → Always (check_declared run q declared rest)
  unfolding check_declared executable
  declared-Grants run none rest = rest
  declared-Grants run (some declared) rest =
      does_if _ (λ _. stop-Refuses q run _ _ _ refl)
        (λ _. workspace-Grants run _ (capabilities-Grants run _ _ rest))

  token-Grants :
      (run : Run) (a : Approval) (token : Option String) (t : ℕ) {rest : Exec EffectClaim}
      → Always rest
      → Always (given_token run q a token t rest)
  unfolding given_token check_token executable
  token-Grants run a none t rest = wait-Refuses q run _
  token-Grants run a (some token) t rest =
      does_if _ (λ _. wait-Refuses q run _)
        (λ _.
          does_if _ (λ _. stop-Refuses q run _ _ _ refl)
            (λ _. does_bind (does_any _) λ digest. does_bind (does_any _) λ matches.
              does_if _ (λ _. stop-Refuses q run _ _ _ refl)
                (λ _.
                  does_if _ (λ _. stop-Refuses q run _ _ _ refl)
                    (λ _. does_bind (does_any _) λ _. rest))))

  approval-Grants :
      (run : Run) (found : Option Approval) (t : ℕ) {rest : Option String → Exec EffectClaim}
      → ((id : Option String) → Always (rest id))
      → Always (check_approval run q found t rest)
  unfolding check_approval executable
  approval-Grants run none t rest = wait-Refuses q run _
  approval-Grants run (some a) t rest =
      does_if _ (λ _. wait-Refuses q run _)
        (λ _.
          does_if _ (λ _. stop-Refuses q run _ _ _ refl)
            (λ _. token-Grants run a q.approval_token t (rest (some a.approval_id))))

  new-Grants : (run : Run) (max_attempts t : ℕ) → Always (claim_new run q max_attempts t)
  unfolding claim_new executable
  new-Grants run max_attempts t =
      does_if _ (λ _. stop-Refuses q run _ _ _ refl)
        (λ _.
          does_if _
            (λ _.
              does_bind (does_any _)
                λ found. approval-Grants run found t (λ id. insert-Grants q run max_attempts t id))
            (λ _. insert-Grants q run max_attempts t none))

  by_existing-Grants :
      (run : Run) (max_attempts t : ℕ) (existing : Option Effect)
      → Does
          (λ d. existing ≡ existing_effect q.operation_id q.idempotency_key d)
          (claim_by_existing run q max_attempts t existing)
          (Grants q)
  unfolding claim_by_existing
  by_existing-Grants run max_attempts t none =
      does_bind (does_any _)
        λ declared. declared-Grants run declared (new-Grants run max_attempts t)
  by_existing-Grants run max_attempts t (some e) =
      does_weaken (λ d h. (existing-In q.operation_id q.idempotency_key d e (sym h)).0)
        (existing-Grants q run e t) (λ a d h. h)

  claim_effect-Grants : Always (claim_effect q)
  unfolding claim_effect claim_on_run executable
  claim_effect-Grants = does_bind (does_any _) λ max_attempts. does_bind (does_any _) λ t.
      from_any (
        does_transaction (
          does_bind (does_any _) λ run.
            does_if _ (λ _. refuses q (yields_pure q _ refl))
              (λ _. does_bind (does_query _) λ existing.
                does_weaken (λ d h. h.1) (by_existing-Grants run max_attempts t existing)
                  (λ a d h. h))))

-- When `claim_effect` returns an executable claim, the database has a row that is claimed, with the
-- request's run, operation, key, class, action and resource, and the claim names its identity and
-- its attempt.
pub claim_effect_granted :
    (q : ClaimRequest) (s s' : Owner) (c : EffectClaim)
    → claim_effect q s ≡ (ok c, s')
    → executable c ≡ true
    → (e : Effect) × In e s'.db.effects
      × ClaimedFor q e
      × (c.effect_id ≡ some e.effect_id)
      × (c.attempt ≡ e.attempt)
claim_effect_granted q s s' c returned accepted =
    does_ok (claim_effect-Grants q) s s' c returned tt accepted
