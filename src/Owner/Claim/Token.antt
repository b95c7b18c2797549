-- ===== src/Owner/Claim/Token.antt =====
-- The checks of an approval and its one-use token in `claim_effect`
-- (src/zworkbench/composition.py).
use zworkbench.Owner.Claim.Request.{claim_request_code}
use zworkbench.Owner.Approvals.{approvals_code}
use zworkbench.Common.{
  ℕ, String, Bool, true, not, ◌||◌, Option, none, some, ◌==◌, leb, if◌then◌else◌, is_some,
}
use zworkbench.Common.Tables.{update}
use zworkbench.Json.{end}
use zworkbench.Exec.{when◌then◌else◌, Exec, type_error, pure, raise, write, ask, ◌>>=◌, ◌>>◌}
use zworkbench.Owner.State.{Db, Run, Approval, ApprovalStatus}
use zworkbench.Owner.Approvals.{has_approval_id, approval_scope_matches, same_approval_status}
use zworkbench.Owner.Claim.Request.{
  EffectClaim, ClaimRequest, refusal, stop_and_deny, wait_and_deny,
}

-- `ALLOWED_EFFECT_CLASSES`
unfoldable pub is_allowed_class : String → Bool
is_allowed_class c = c == "read-only" || c == "idempotent" || c == "approval-required"

unfoldable pub put_consumed : String → ℕ → Db → Db
put_consumed id timestamp d = record d {
  approvals =
      update (has_approval_id id)
        (λ a. record a { consumed_at = some timestamp; status = ApprovalStatus.consumed })
        d.approvals;
}

-- `expires_at is None or expires_at <= now`
unfoldable pub has_expired : Option ℕ → ℕ → Bool
has_expired none timestamp = true
has_expired (some t) timestamp = leb t timestamp

-- `secrets.compare_digest` raises a TypeError at `None`.
unfoldable pub token_matches : Option String → String → Exec Bool
token_matches none digest = raise type_error
token_matches (some hash) digest = pure (hash == digest)

unfoldable pub check_token :
    Run → ClaimRequest → Approval → String → ℕ → Exec EffectClaim → Exec EffectClaim
check_token run q a token timestamp rest =
    when is_some a.consumed_at
    then stop_and_deny run q "approval_token_replay" end (refusal "approval_token_replay")
    else (do
      digest ← ask (λ env. env.sha256 token)
      matches ← token_matches a.token_hash digest
      when not matches
          then stop_and_deny run q "approval_token_mismatch" end (refusal "approval_token_mismatch")
          else when has_expired a.expires_at timestamp
          then stop_and_deny run q "approval_expired" end (refusal "approval_expired")
          else (do write (put_consumed a.approval_id timestamp); rest))

unfoldable pub given_token :
    Run → ClaimRequest → Approval → Option String → ℕ → Exec EffectClaim → Exec EffectClaim
given_token run q a none timestamp rest = wait_and_deny run q "approval_token_missing"
given_token run q a (some token) timestamp rest =
    when token == ""
    then wait_and_deny run q "approval_token_missing"
    else check_token run q a token timestamp rest

unfoldable pub check_approval :
    Run → ClaimRequest → Option Approval → ℕ → (Option String → Exec EffectClaim) → Exec EffectClaim
check_approval run q none timestamp rest = wait_and_deny run q "approval_missing_or_not_approved"
check_approval run q (some a) timestamp rest =
    when not (same_approval_status a.status ApprovalStatus.approved)
    then wait_and_deny run q "approval_missing_or_not_approved"
    else when not (approval_scope_matches a q.action q.resource q.idempotency_key)
    then stop_and_deny run q "approval_scope_mismatch" end (refusal "approval_scope_mismatch")
    else given_token run q a q.approval_token timestamp (rest (some a.approval_id))

-- Opens the code of this module, for a run of it.
unfoldable pub claim_token_code : Unit {0}
unfolding claim_request_code approvals_code is_allowed_class put_consumed has_expired token_matches
    check_token given_token check_approval
claim_token_code = tt
