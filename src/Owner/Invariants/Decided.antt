-- ===== src/Owner/Invariants/Decided.antt =====
-- The approvals after a history of calls (src/zworkbench/composition.py): the stages of a row, and
-- the decisions that no later call changes.

use zworkbench.Owner.Aside.{Aside-SameCore}
use zworkbench.Owner.Claim.Existing.{put_retry}
use zworkbench.Owner.Claim.Token.{put_consumed}
use zworkbench.Owner.Runs.{add_run}
use zworkbench.Owner.Effects.{put_uncertain, put_reconciled, put_completed}
use zworkbench.Owner.Api.{Call, perform_all}
use zworkbench.Common.Unique.{In-update, In-append}
use zworkbench.Owner.Api.Follow.{perform_all-Changes}
use zworkbench.Common.Tables.{update, In, All-In}
use zworkbench.Owner.Invariants.Approvals.{
  approvals_after, found_approval, the_approval, Stage, ApprovalValid, ApprovalsValid,
  approvals_kept,
}
use zworkbench.Owner.Claim.Fresh.{add_effect}
use zworkbench.Owner.Core.{add_event, put_status, add_result}
use zworkbench.Owner.Approvals.{add_approval, put_denied, has_approval_id, put_approved}
use zworkbench.Common.{◌≡◌, refl, sym, subst, Bool, true, false, String, List, ◌⊎◌, inl, inr}
use zworkbench.Owner.State.{Env, Db, Approval, ApprovalStatus, new_owner}
use zworkbench.Owner.Change.{Change, Changes, here, next}
use zworkbench.Owner.Invariants.{after}

-- Denied or used up.
abbrev pub Closed : Approval → Type 0
Closed a = (a.status ≡ ApprovalStatus.denied) ⊎ (a.status ≡ ApprovalStatus.consumed)

pending_open :
    (s : ApprovalStatus)
    → s ≡ ApprovalStatus.pending
    → (s ≡ ApprovalStatus.denied) ⊎ (s ≡ ApprovalStatus.consumed)
    → ⊥
pending_open s p (inl a) = cc
pending_open s p (inr a) = cc

approved_open :
    (s : ApprovalStatus)
    → s ≡ ApprovalStatus.approved
    → (s ≡ ApprovalStatus.denied) ⊎ (s ≡ ApprovalStatus.consumed)
    → ⊥
approved_open s p (inl a) = cc
approved_open s p (inr a) = cc

stays :
    (d : Db) (id : String) (a x : Approval) (f : Approval → Approval)
    → ApprovalsValid d
    → In a d.approvals × (a.approval_id ≡ id)
    → (Closed a → ⊥)
    → Closed x
    → In x d.approvals
    → In x (update (has_approval_id id) f d.approvals)
stays d id a x f valid (i, key) not_closed closed j =
    In-update _ f d.approvals x j (differs (has_approval_id id x) refl)
  where
    differs : (b : Bool) → has_approval_id id x ≡ b → b ≡ false
    differs false t = refl
    differs true t =
        let row : x ≡ a =
          the_approval d a x valid i j (subst (λ k. has_approval_id k x ≡ true) (sym key) t) in
        absurd (not_closed (subst Closed row closed))

module _ (x : Approval) (closed : Closed x) where
  closed_kept : (d d' : Db) → Change d d' → ApprovalsValid d → In x d.approvals → In x d'.approvals
  unfolding add_run put_status add_event add_result add_approval put_approved put_denied
      put_consumed add_effect put_retry put_completed put_uncertain put_reconciled
  closed_kept d d' (Change.create r _ _) v i = i
  closed_kept d d' (Change.move id row status t _ _) v i = i
  closed_kept d d' (Change.rearm id row t _ _) v i = i
  closed_kept d d' (Change.log e payload _ _ _ _ _) v i = i
  closed_kept d d' (Change.result r value _ _ _) v i = i
  closed_kept d d' (Change.request q id t _) v i = In-append d.approvals _ x i
  closed_kept d d' (Change.approve id a hash expires t found s) v i =
      stays d id a x _ v (found_approval id d a found) (pending_open a.status s) closed i
  closed_kept d d' (Change.deny id a reason t found s) v i =
      stays d id a x _ v (found_approval id d a found) (pending_open a.status s) closed i
  closed_kept d d' (Change.consume a t j s _) v i =
      stays d a.approval_id a x _ v (j, refl) (approved_open a.status s) closed i
  closed_kept d d' (Change.claim q id max_attempts approval t bound free) v i = i
  closed_kept d d' (Change.retry e t j s left) v i = i
  closed_kept d d' (Change.complete id e receipt t found s) v i = i
  closed_kept d d' (Change.lose id e error t found s) v i = i
  closed_kept d d' (Change.reconcile id e outcome evidence t found s) v i = i
  closed_kept d d' (Change.other aside) v i =
      let same = Aside-SameCore d d' aside in subst (In x) (sym same.approvals) i

  closed_along :
      (d d' : Db)
      → Changes d d'
      → ApprovalsValid d
      → In x d.approvals
      → ApprovalsValid d' × In x d'.approvals
  closed_along d d' here v i = (v, i)
  closed_along d d'' (next {d'} cs c) v i =
      let (v', i') = closed_along d d' cs v i in
      (approvals_kept d' d'' c v', closed_kept d' d'' c v' i')

-- After any history of calls on a fresh owner, whatever calls follow, an approval that was denied,
-- or whose token was consumed, stands as it is.
pub decision_final :
    (env : Env) (calls more : List Call) (a : Approval)
    → In a (after env calls).approvals
    → (a.status ≡ ApprovalStatus.denied) ⊎ (a.status ≡ ApprovalStatus.consumed)
    → In a (perform_all more (perform_all calls (new_owner env))).db.approvals
decision_final env calls more a i closed =
    (closed_along a closed _ _ (perform_all-Changes more (perform_all calls (new_owner env)))
      (approvals_after env calls) i).1

-- After any history of calls on a fresh owner, a pending or denied approval has no token, an
-- approved or consumed one has a token's hash and a time of decision, and just a consumed one has a
-- time of consumption.
pub approval_staged :
    (env : Env) (calls : List Call) (a : Approval)
    → In a (after env calls).approvals
    → Stage a.status a.token_hash a.decided_at a.consumed_at
approval_staged env calls a i = All-In ApprovalValid _ a i (approvals_after env calls).1
