-- ===== src/Owner/Approvals/Follow.antt =====
-- The approval seam keeps to the contract of Owner/Change.
use zworkbench.Common.Tables.{find-holds}
use zworkbench.Owner.Core.Steps.{not-false, run_row-Does, append_event-Obeys}
use zworkbench.Common.Int.{ℤ}
use zworkbench.Exec.Does.{
  Does, does_bind, does_with, does_weaken, does_query, does_now, does_guard, does_or_raise,
  does_write, does_return, does_new_id, does_read,
}
use zworkbench.Common.{
  ℕ, Option, String, ◌≡◌, some, eq_iff, true, sym, ◌∙◌, subst, refl, ◌+◌, none, ◌*◌,
}
use zworkbench.Owner.State.{Db, ApprovalStatus, Approval}
use zworkbench.Owner.Change.{Change, Changes, next}
use zworkbench.Owner.Rules.{
  Follows, Obeys, Follows-bind, Follows-text, Follows-transaction, Follows-or_raise, Follows-now,
  Follows-draw, Follows-ask, Follows-pure,
}
use zworkbench.Owner.Approvals.{
  ApprovalRequest, existing_or_new, pending_row, same_approval_status, approve, find_approval,
  request_approval, deny_approval, pending,
}

approval_key :
    (id : String) (a : Approval) (d : Db)
    → find_approval id d ≡ some a
    → find_approval a.approval_id d ≡ some a
unfolding find_approval
approval_key id a d e =
    let same : a.approval_id ≡ id = (eq_iff _ _).0 (find-holds _ d.approvals a e) in
    subst (λ i. find_approval i d ≡ some a) (sym same) e

existing_or_new-Obeys :
    (q : ApprovalRequest) (t : ℕ) (existing : Option Approval)
    → Obeys (existing_or_new q t existing)
unfolding existing_or_new
existing_or_new-Obeys q t (some a) d =
    does_with (does_guard _ _)
      λ _ mine. does_with (does_guard _ _) λ _ scoped. does_return a (λ d' h. h)
existing_or_new-Obeys q t none d = does_bind does_new_id λ id. does_bind (does_query _) λ conflict.
    does_bind (does_guard _ _) λ _.
      does_bind
        (does_write {Q = Changes d} _ λ d' h. next h.0.0 (Change.request q id t (sym h.0.1 ∙ h.1)))
        λ _.
          does_bind (append_event-Obeys q.run_id "approval.requested" _ d)
            λ _. does_return _ (λ d' h. h)

pub request_approval-Follows : (q : ApprovalRequest) → Follows (request_approval q)
unfolding request_approval
request_approval-Follows q = Follows-bind (Follows-text _) λ _. Follows-bind (Follows-text _) λ _.
    Follows-bind (Follows-text _) λ _. Follows-bind (Follows-text _) λ _.
      Follows-bind (Follows-text _) λ _. Follows-bind Follows-now λ t. Follows-transaction λ d.
        does_bind (does_weaken (λ d' h. h) (run_row-Does q.run_id) (λ row d' h. h.0))
          λ row. does_bind (does_read _) λ existing. existing_or_new-Obeys q t existing d

pending-of : (s : ApprovalStatus) → same_approval_status s pending ≡ true → s ≡ pending
unfolding same_approval_status
pending-of pending h = refl
pending-of ApprovalStatus.approved h = cc
pending-of ApprovalStatus.denied h = cc
pending-of ApprovalStatus.consumed h = cc

pending_row-Does :
    (d₀ : Db) (id : String)
    → Does
        (Changes d₀)
        (pending_row id)
        (λ a d. Changes d₀ d × (find_approval id d ≡ some a) × (a.status ≡ pending))
unfolding pending_row
pending_row-Does d₀ id = does_bind (does_query _) λ found. does_bind (does_or_raise found _) λ a.
    does_with (does_guard _ _) λ _ decided.
      does_return a (λ d h. (h.0.0, sym h.0.1 ∙ h.1, pending-of a.status (not-false _ decided)))

pub approve-Follows : (id : String) (ttl : ℤ) → Follows (approve id ttl)
unfolding approve
approve-Follows id ttl = Follows-bind (Follows-or_raise _ _) λ n.
    Follows-bind (Follows-draw _) λ token. Follows-bind (Follows-ask _) λ hash.
      Follows-bind Follows-now λ t. Follows-bind Follows-now λ issued.
        Follows-bind
          (Follows-transaction λ d. does_bind (pending_row-Does d id) λ a.
            does_bind
              (does_write {Q = Changes d} _
                λ d' h. next h.0 (Change.approve id a hash (issued + n * 1000) t h.1 h.2))
              λ _.
                does_bind (append_event-Obeys a.run_id "approval.approved" _ d)
                  λ _. does_return a (λ d' h. h))
          λ a. Follows-pure _

pub deny_approval-Follows : (id reason : String) → Follows (deny_approval id reason)
unfolding deny_approval
deny_approval-Follows id reason = Follows-bind (Follows-text _) λ _. Follows-transaction λ d.
    does_bind (pending_row-Does d id) λ a. does_bind does_now λ t.
      does_bind (does_write {Q = Changes d} _ λ d' h. next h.0 (Change.deny id a reason t h.1 h.2))
        λ _. does_bind (append_event-Obeys a.run_id "approval.denied" _ d) λ _. does_read _
