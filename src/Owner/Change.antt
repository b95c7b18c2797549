-- ===== src/Owner/Change.antt =====
-- What one statement of the owner may do to the database: the abstract contract of
-- src/zworkbench/composition.py, with the guard that each change stands under. The tables beside the
-- core ones are in Owner/Aside.
use zworkbench.Owner.Aside.{Aside}
use zworkbench.Common.{ℕ, ◌+◌, ◌<◌, String, false, ◌≡◌, true, Option, some, ◌⊎◌, ◌==◌}
use zworkbench.Common.Tables.{exists, In}
use zworkbench.Json.{Value, canonical_json}
use zworkbench.Credentials.{raw_credential}
use zworkbench.Owner.State.{
  Db, Run, RunStatus, created, running, Approval, ApprovalStatus, Effect, EffectStatus, Event,
  ResultRow,
}
use zworkbench.Owner.Core.{
  has_run_id, find_run, find_effect, allowed, same_status, add_event, add_result, put_status,
  is_evidence_source,
}
use zworkbench.Owner.Runs.{add_run}
use zworkbench.Owner.Approvals.{
  ApprovalRequest, new_approval, approval_conflict, add_approval, find_approval, put_approved,
  put_denied,
}
use zworkbench.Owner.Claim.Request.{ClaimRequest}
use zworkbench.Owner.Claim.Existing.{put_retry}
use zworkbench.Owner.Claim.Token.{put_consumed, has_expired}
use zworkbench.Owner.Claim.Fresh.{add_effect, new_effect, effect_conflict}
use zworkbench.Owner.Effects.{Outcome, put_completed, put_uncertain, put_reconciled, physical_count}

pub data Change : Db → Db → Type 0 where
  create :
      {d : Db} (r : Run)
      → exists (has_run_id r.run_id) d.runs ≡ false
      → r.status ≡ created
      → Change d (add_run r d)
  move :
      {d : Db} (id : String) (row : Run) (status : RunStatus) (t : ℕ)
      → find_run id d ≡ some row
      → allowed row.status status ≡ true
      → Change d (put_status id status t d)
  rearm :
      {d : Db} (id : String) (row : Run) (t : ℕ)
      → find_run id d ≡ some row
      → same_status row.status running ≡ false
      → Change d (put_status id running t d)
  log :
      {d : Db} (e : Event) (payload : Value)
      → e.payload ≡ canonical_json payload
      → raw_credential payload ≡ false
      → is_evidence_source e.evidence_source ≡ true
      → exists (λ f. f.event_id == e.event_id) d.events ≡ false
      → exists (has_run_id e.run_id) d.runs ≡ true
      → Change d (add_event e d)
  result :
      {d : Db} (r : ResultRow) (value : Value)
      → r.value ≡ canonical_json value
      → raw_credential value ≡ false
      → is_evidence_source r.evidence_source ≡ true
      → Change d (add_result r d)
  request :
      {d : Db} (q : ApprovalRequest) (id : String) (t : ℕ)
      → approval_conflict id q.operation_id q.idempotency_key d ≡ false
      → Change d (add_approval (new_approval q id t) d)
  approve :
      {d : Db} (id : String) (a : Approval) (hash : String) (expires t : ℕ)
      → find_approval id d ≡ some a
      → a.status ≡ ApprovalStatus.pending
      → Change d (put_approved id hash expires t d)
  deny :
      {d : Db} (id : String) (a : Approval) (reason : String) (t : ℕ)
      → find_approval id d ≡ some a
      → a.status ≡ ApprovalStatus.pending
      → Change d (put_denied id reason t d)
  consume :
      {d : Db} (a : Approval) (t : ℕ)
      → In a d.approvals
      → a.status ≡ ApprovalStatus.approved
      → has_expired a.expires_at t ≡ false
      → Change d (put_consumed a.approval_id t d)
  claim :
      {d : Db} (q : ClaimRequest) (id : String) (max_attempts : ℕ) (approval : Option String)
      (t : ℕ)
      → 0 < max_attempts
      → effect_conflict id q approval d ≡ false
      → Change d (add_effect (new_effect q id max_attempts approval t) d)
  retry :
      {d : Db} (e : Effect) (t : ℕ)
      → In e d.effects
      → e.status ≡ EffectStatus.retryable
      → e.attempt < e.max_attempts
      → Change d (put_retry e.effect_id (e.attempt + 1) t d)
  complete :
      {d : Db} (id : String) (e : Effect) (receipt : Value) (t : ℕ)
      → find_effect id d ≡ some e
      → e.status ≡ EffectStatus.claimed
      → Change d (put_completed id receipt t d)
  lose :
      {d : Db} (id : String) (e : Effect) (error : Value) (t : ℕ)
      → find_effect id d ≡ some e
      → e.status ≡ EffectStatus.claimed
      → Change d (put_uncertain id error t d)
  reconcile :
      {d : Db} (id : String) (e : Effect) (outcome : Outcome) (evidence : Value) (t : ℕ)
      → find_effect id d ≡ some e
      → (e.status ≡ EffectStatus.uncertain) ⊎ (e.status ≡ EffectStatus.retryable)
      → Change d
          (put_reconciled id outcome (physical_count outcome e.physical_effect_count) evidence t d)
  other : {d d' : Db} → Aside d d' → Change d d'

pub data Changes (d : Db) : Db → Type 0 where
  here : Changes d d
  next : {d' d'' : Db} → Changes d d' → Change d' d'' → Changes d d''

pub Changes-trans : {d d' d'' : Db} → Changes d d' → Changes d' d'' → Changes d d''
Changes-trans r here = r
Changes-trans r (next q c) = next (Changes-trans r q) c

pub one : {d d' : Db} → Change d d' → Changes d d'
one c = next here c
