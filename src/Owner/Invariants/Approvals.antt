-- ===== src/Owner/Invariants/Approvals.antt =====
-- The rows of `approvals` (src/zworkbench/composition.py): no two share a key, a token is held
-- while it may be used, and a decision that was denied or used up is final.
use zworkbench.Owner.Aside.{Aside-SameCore}
use zworkbench.Owner.Claim.Token.{put_consumed}
use zworkbench.Owner.Runs.{add_run}
use zworkbench.Owner.Claim.Fresh.{add_effect}
use zworkbench.Owner.Api.{Call}
use zworkbench.Owner.Effects.{put_uncertain, put_reconciled, put_completed}
use zworkbench.Owner.Core.{add_event, add_result, put_status}
use zworkbench.Common.Tables.{find-holds, find-In, All-append, All, update, In}
use zworkbench.Common.Unique.{
  Apart-update, exists-none, All-update-In, Apart-append, Apart, Apart-In,
}
use zworkbench.Owner.Approvals.{
  approval_conflict, ApprovalRequest, find_approval, has_approval_id, put_approved, put_denied,
  add_approval, new_approval,
}
use zworkbench.Owner.Claim.Existing.{put_retry}
use zworkbench.Common.{
  ◌≡◌, refl, sym, subst, true, false, String, ◌||◌, Option, none, some, List, inl, inr, ◌==◌,
  eq_iff, arith, ℕ, is_some,
}
use zworkbench.Owner.State.{Env, Db, Approval, ApprovalStatus}
use zworkbench.Owner.Change.{Change}
use zworkbench.Owner.Invariants.{after, always}

-- The identity, the operation and the idempotency key of the two rows differ.
abbrev pub RequestsApart : Approval → Approval → Type 0
RequestsApart a b =
    (a.approval_id == b.approval_id
      || (a.operation_id == b.operation_id || a.idempotency_key == b.idempotency_key))
    ≡ false

-- The columns that the decision and the use of the token fill.
abbrev pub Stage : ApprovalStatus → Option String → Option ℕ → Option ℕ → Type 0
Stage ApprovalStatus.pending token_hash decided_at consumed_at =
    (token_hash ≡ none) × (decided_at ≡ none) × (consumed_at ≡ none)
Stage ApprovalStatus.approved token_hash decided_at consumed_at =
    (is_some token_hash ≡ true) × (is_some decided_at ≡ true) × (consumed_at ≡ none)
Stage ApprovalStatus.denied token_hash decided_at consumed_at =
    (token_hash ≡ none) × (is_some decided_at ≡ true) × (consumed_at ≡ none)
Stage ApprovalStatus.consumed token_hash decided_at consumed_at =
    (is_some token_hash ≡ true) × (is_some decided_at ≡ true) × (is_some consumed_at ≡ true)

abbrev pub ApprovalValid : Approval → Type 0
ApprovalValid a = Stage a.status a.token_hash a.decided_at a.consumed_at

abbrev pub ApprovalsValid : Db → Type 0
ApprovalsValid d = Apart RequestsApart d.approvals × All ApprovalValid d.approvals

id_differs : (a b : Approval) → RequestsApart a b → a.approval_id ≡ b.approval_id → ⊥
id_differs a b apart same =
    let key : (a.approval_id == b.approval_id) ≡ true = (eq_iff _ _).1 same in ground arith

pub the_approval :
    (d : Db) (a x : Approval)
    → ApprovalsValid d
    → In a d.approvals
    → In x d.approvals
    → has_approval_id a.approval_id x ≡ true
    → x ≡ a
the_approval d a x valid i j same =
    let key : x.approval_id ≡ a.approval_id = (eq_iff _ _).0 same in
    elim (Apart-In RequestsApart d.approvals x a valid.0 j i) [
      | inl same_row ↦ same_row
      | inr (inl apart) ↦ absurd (id_differs x a apart key)
      | inr (inr apart) ↦ absurd (id_differs a x apart (sym key))
    ]

pub found_approval :
    (id : String) (d : Db) (a : Approval)
    → find_approval id d ≡ some a
    → In a d.approvals × (a.approval_id ≡ id)
unfolding find_approval
found_approval id d a found =
    (find-In _ d.approvals a found, (eq_iff _ _).0 (find-holds _ d.approvals a found))

-- An update of the row `a` that keeps the keys and leaves a valid row.
put_approval :
    (id : String) (d : Db) (a : Approval) (f : Approval → Approval)
    → ((x y : Approval) → RequestsApart x y → RequestsApart (f x) y)
    → ((x y : Approval) → RequestsApart x y → RequestsApart x (f y))
    → ApprovalsValid d
    → In a d.approvals × (a.approval_id ≡ id)
    → (ApprovalValid a → ApprovalValid (f a))
    → Apart RequestsApart (update (has_approval_id id) f d.approvals)
      × All ApprovalValid (update (has_approval_id id) f d.approvals)
put_approval id d a f left right valid (i, key) keep = (
  Apart-update RequestsApart _ f d.approvals left right valid.0,
  All-update-In ApprovalValid _ f d.approvals
      (λ x j same v.
        let row : x ≡ a =
          the_approval d a x valid i j (subst (λ k. has_approval_id k x ≡ true) (sym key) same) in
        subst (λ z. ApprovalValid (f z)) (sym row) (keep (subst ApprovalValid row v)))
      valid.1,
)

Stage-of :
    (a : Approval) (s : ApprovalStatus)
    → a.status ≡ s
    → ApprovalValid a
    → Stage s a.token_hash a.decided_at a.consumed_at
Stage-of a s same v = subst (λ z. Stage z a.token_hash a.decided_at a.consumed_at) same v

requested :
    (d : Db) (q : ApprovalRequest) (id : String) (t : ℕ)
    → approval_conflict id q.operation_id q.idempotency_key d ≡ false
    → ApprovalsValid d
    → ApprovalsValid (add_approval (new_approval q id t) d)
unfolding add_approval
requested d q id t free valid = (
  Apart-append RequestsApart d.approvals _ valid.0 (exists-none _ d.approvals free),
  All-append ApprovalValid d.approvals _ valid.1 (refl, refl, refl),
)

pub approvals_kept : (d d' : Db) → Change d d' → ApprovalsValid d → ApprovalsValid d'
unfolding add_run put_status add_event add_result put_approved put_denied put_consumed add_effect
    put_retry put_completed put_uncertain put_reconciled
approvals_kept d d' (Change.create r _ _) v = v
approvals_kept d d' (Change.move id row status t _ _) v = v
approvals_kept d d' (Change.rearm id row t _ _) v = v
approvals_kept d d' (Change.log e payload _ _ _ _ _) v = v
approvals_kept d d' (Change.result r value _ _ _) v = v
approvals_kept d d' (Change.request q id t free) v = requested d q id t free v
approvals_kept d d' (Change.approve id a hash expires t found s) v =
    put_approval id d a _ (λ x y h. h) (λ x y h. h) v (found_approval id d a found)
      (λ ok. (refl, refl, (Stage-of a _ s ok).2))
approvals_kept d d' (Change.deny id a reason t found s) v =
    put_approval id d a _ (λ x y h. h) (λ x y h. h) v (found_approval id d a found)
      (λ ok. ((Stage-of a _ s ok).0, refl, (Stage-of a _ s ok).2))
approvals_kept d d' (Change.consume a t i s _) v =
    put_approval a.approval_id d a _ (λ x y h. h) (λ x y h. h) v (i, refl)
      (λ ok. ((Stage-of a _ s ok).0, (Stage-of a _ s ok).1, refl))
approvals_kept d d' (Change.claim q id max_attempts approval t bound free) v = v
approvals_kept d d' (Change.retry e t i s left) v = v
approvals_kept d d' (Change.complete id e receipt t found s) v = v
approvals_kept d d' (Change.lose id e error t found s) v = v
approvals_kept d d' (Change.reconcile id e outcome evidence t found s) v = v
approvals_kept d d' (Change.other aside) v =
    let same = Aside-SameCore d d' aside in
    subst (λ rows. Apart RequestsApart rows × All ApprovalValid rows) (sym same.approvals) v

pub approvals_after : (env : Env) (calls : List Call) → ApprovalsValid (after env calls)
approvals_after env calls = always ApprovalsValid approvals_kept (tt, tt) env calls
