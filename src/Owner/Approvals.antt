-- ===== src/Owner/Approvals.antt =====
-- The approval seam: `request_approval`, `approve` and `deny_approval` of
-- src/zworkbench/composition.py.
pub mod Follow
use zworkbench.Owner.Core.{core_code}
use zworkbench.Common.{
  ℕ, String, Bool, true, false, not, ◌&&◌, ◌||◌, ◌+◌, ◌*◌, Option, none, some, [], ◌∷◌, ◌++◌, ◌==◌,
}
use zworkbench.Common.Int.{ℤ, positive}
use zworkbench.Common.Tables.{find, update, exists}
use zworkbench.Json.{text, int, end, field}
use zworkbench.Exec.{
  Exec, approval_error, not_found, pure, query, write, draw, ask, raise_if, or_raise, ◌>>=◌, ◌>>◌,
  now, new_id,
}
use zworkbench.Owner.State.{Db, Approval, ApprovalStatus, pending, approved, denied, consumed}
use zworkbench.Owner.Core.{transaction, require_text, run_row, append_event}

abbrev pub has_approval_id : String → Approval → Bool
has_approval_id id a = a.approval_id == id

unfoldable pub find_approval : String → Db → Option Approval
find_approval id d = find (has_approval_id id) d.approvals

-- The approval of an operation, `WHERE operation_id = ?`.
unfoldable pub approval_of : String → Db → Option Approval
approval_of operation_id d = find (λ a. a.operation_id == operation_id) d.approvals

-- `_approval_scope_matches`
unfoldable pub approval_scope_matches : Approval → String → String → String → Bool
approval_scope_matches a action resource idempotency_key =
    a.action == action && (a.resource == resource && a.idempotency_key == idempotency_key)

unfoldable pub same_approval_status : ApprovalStatus → ApprovalStatus → Bool
same_approval_status pending pending = true
same_approval_status approved approved = true
same_approval_status denied denied = true
same_approval_status consumed consumed = true
same_approval_status _ _ = false

unfoldable pub add_approval : Approval → Db → Db
add_approval a d = record d { approvals = d.approvals ++ a ∷ [] }

-- The primary key and the two unique columns.
abbrev pub approval_conflict : String → String → String → Db → Bool
approval_conflict id operation_id idempotency_key d =
    exists
      (λ a.
        a.approval_id == id
        || (a.operation_id == operation_id || a.idempotency_key == idempotency_key))
      d.approvals

-- The arguments of `request_approval`.
pub record ApprovalRequest : Type 0 where
  pub run_id : String
  pub operation_id : String
  pub action : String
  pub resource : String
  pub idempotency_key : String
  pub reason : String

abbrev pub new_approval : ApprovalRequest → String → ℕ → Approval
new_approval q id timestamp = record {
  approval_id = id;
  run_id = q.run_id;
  operation_id = q.operation_id;
  action = q.action;
  resource = q.resource;
  idempotency_key = q.idempotency_key;
  reason = q.reason;
  status = pending;
  token_hash = none;
  expires_at = none;
  created_at = timestamp;
  decided_at = none;
  decision_reason = none;
  consumed_at = none;
}

unfoldable pub existing_or_new : ApprovalRequest → ℕ → Option Approval → Exec Approval
existing_or_new q timestamp (some a) = do
  raise_if (not (a.run_id == q.run_id)) approval_error
  raise_if (not (approval_scope_matches a q.action q.resource q.idempotency_key)) approval_error
  pure a
existing_or_new q timestamp none = do
  approval_id ← new_id
  conflict ← query (approval_conflict approval_id q.operation_id q.idempotency_key)
  raise_if conflict approval_error
  write (add_approval (new_approval q approval_id timestamp))
  append_event q.run_id "approval.requested" (
      field "approval_id" (text approval_id) (
        field "operation_id" (text q.operation_id) (
          field "action" (text q.action) (
            field "resource" (text q.resource)
              (field "idempotency_key" (text q.idempotency_key) end)))))
  pure (new_approval q approval_id timestamp)

unfoldable pub request_approval : ApprovalRequest → Exec Approval
request_approval q = do
  require_text q.operation_id
  require_text q.action
  require_text q.resource
  require_text q.idempotency_key
  require_text q.reason
  timestamp ← now
  transaction (do
    run_row q.run_id
    existing ← query (approval_of q.operation_id)
    existing_or_new q timestamp existing)

-- What `approve` returns.
pub record Grant : Type 0 where
  pub approval_id : String
  pub operation_id : String
  pub token : String
  pub expires_at : ℕ

unfoldable pub put_approved : String → String → ℕ → ℕ → Db → Db
put_approved id token_hash expires_at timestamp d = record d {
  approvals =
      update (has_approval_id id)
        (λ a. record a {
          status = approved;
          token_hash = some token_hash;
          expires_at = some expires_at;
          decided_at = some timestamp;
        })
        d.approvals;
}

-- The row to decide on, which must be pending.
unfoldable pub pending_row : String → Exec Approval
pending_row id = do
  found ← query (find_approval id)
  row ← or_raise found not_found
  raise_if (not (same_approval_status row.status pending)) approval_error
  pure row

unfoldable pub approve : String → ℤ → Exec Grant
approve approval_id ttl_seconds = do
  ttl ← or_raise (positive ttl_seconds) approval_error
  token ← draw (λ env n. env.token_urlsafe n)
  token_hash ← ask (λ env. env.sha256 token)
  timestamp ← now
  issued ← now
  let expires_at : ℕ = issued + ttl * 1000
  row ← transaction (do
    row ← pending_row approval_id
    write (put_approved approval_id token_hash expires_at timestamp)
    append_event row.run_id "approval.approved" (
        field "approval_id" (text approval_id)
          (field "operation_id" (text row.operation_id) (field "expires_at" (int expires_at) end)))
    pure row)
  pure (record {
    approval_id = approval_id;
    operation_id = row.operation_id;
    token = token;
    expires_at = expires_at;
  })

unfoldable pub put_denied : String → String → ℕ → Db → Db
put_denied id reason timestamp d = record d {
  approvals =
      update (has_approval_id id)
        (λ a. record a {
          status = denied;
          decided_at = some timestamp;
          decision_reason = some reason;
        })
        d.approvals;
}

unfoldable pub deny_approval : String → String → Exec (Option Approval)
deny_approval approval_id reason = do
  require_text reason
  transaction (do
    row ← pending_row approval_id
    timestamp ← now
    write (put_denied approval_id reason timestamp)
    append_event row.run_id "approval.denied" (
        field "approval_id" (text approval_id)
          (field "operation_id" (text row.operation_id) (field "reason" (text reason) end)))
    query (find_approval approval_id))

-- Opens the code of this module, for a run of it.
unfoldable pub approvals_code : Unit {0}
unfolding core_code find_approval approval_of approval_scope_matches same_approval_status
    add_approval existing_or_new request_approval put_approved pending_row approve put_denied
    deny_approval
approvals_code = tt
