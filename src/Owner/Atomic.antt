-- ===== src/Owner/Atomic.antt =====
-- One transaction, all or nothing (src/zworkbench/composition.py, `_transaction`): a method that
-- checks its arguments and then runs one transaction writes nothing when it raises.
pub mod Calls
use zworkbench.Owner.Claim.Request.{ClaimRequest}
use zworkbench.Common.Int.{ℤ}
use zworkbench.Owner.Exposures.{get_declared_exposure, declare_exposure}
use zworkbench.Owner.Claim.{validate_effect_inputs, claim_effect}
use zworkbench.Owner.Retries.{record_retry_consumption, declare_retry_budget}
use zworkbench.Owner.Core.{
  require_authenticated_caller, reject_raw_credentials, require_text, require_connection,
  atomically, validate_evidence_source, transaction, require_positive, roll_back,
}
use zworkbench.Owner.Approvals.{ApprovalRequest, approve, request_approval, deny_approval}
use zworkbench.Owner.Ledgers.{
  record_provider_attempt, record_run_restart, record_provider_access_gate,
  declare_run_restart_budget,
}
use zworkbench.Owner.Runs.{
  begin_recovery, start_run, get_run, fail_run, safe_stop_run, restart_run, create_run,
  complete_run,
}
use zworkbench.Owner.Judgment.{reconcile_identity, safe_stop_on_identity_violation}
use zworkbench.Owner.Api.{Call, perform}
use zworkbench.Owner.Evidence.{record_event, require_given, record_result, record_replay_metadata}
use zworkbench.Owner.Auth.{enable_caller_auth, authenticate_caller, register_caller, reopen, close}
use zworkbench.Owner.Effects.{
  Outcome, complete_effect, not_applied, reconcile_effect, applied, mark_effect_uncertain,
  check_evidence,
}
use zworkbench.Common.{ℕ, String, ◌≡◌, Bool, true, false, Option, none, some, refl, ◌∙◌, subst}
use zworkbench.Json.{Value, Fields}
use zworkbench.Exec.{
  Exec, Error, Result, ok, err, pure, raise, query, draw, ask, or_raise, raise_if, ◌>>=◌, continue,
  now, new_id, write, when◌then◌else◌,
}
use zworkbench.Owner.State.{Owner, Db}
use zworkbench.Owner.Auth
use zworkbench.Owner.Evidence
use zworkbench.Owner.Effects
use zworkbench.Owner.Exposures
use zworkbench.Owner.Claim
use zworkbench.Owner.Approvals

-- The action does not write.
pub record Quiet {A : Type 0} (m : Exec A) : Type 0 where
  pub at : (s : Owner) → (m s).1.db ≡ s.db

-- Where the result is an error, the database is the one before.
abbrev pub UndoneAt : {A : Type 0} → Result A → Db → Db → Type 0
UndoneAt (ok a) d d' = Unit
UndoneAt (err e) d d' = d' ≡ d

pub record Undone {A : Type 0} (m : Exec A) : Type 0 where
  pub at : (s : Owner) → UndoneAt (m s).0 s.db (m s).1.db

module _ {A : Type 0} where
  pub Quiet-pure : (a : A) → Quiet (pure a)
  unfolding pure
  Quiet-pure a = record { at = λ s. refl }

  pub Quiet-draw : (f : _ → ℕ → A) → Quiet (draw f)
  unfolding draw
  Quiet-draw f = record { at = λ s. refl }

  pub Quiet-ask : (f : _ → A) → Quiet (ask f)
  unfolding ask
  Quiet-ask f = record { at = λ s. refl }

  pub Quiet-or_raise : (o : Option A) (e : Error) → Quiet (or_raise o e)
  unfolding or_raise
  Quiet-or_raise none e = record { at = λ s. refl }
  Quiet-or_raise (some a) e = record { at = λ s. refl }

pub Quiet-guard : (b : Bool) (e : Error) → Quiet (raise_if b e)
unfolding raise_if
Quiet-guard true e = record { at = λ s. refl }
Quiet-guard false e = record { at = λ s. refl }

pub Quiet-now : Quiet now
unfolding now
Quiet-now = Quiet-draw _

Quiet-connection : Quiet require_connection
unfolding require_connection
Quiet-connection = record { at = λ s. refl }

pub Quiet-caller : Quiet require_authenticated_caller
unfolding require_authenticated_caller
Quiet-caller = record { at = λ s. refl }

pub Quiet-text : (s : String) → Quiet (require_text s)
unfolding require_text
Quiet-text s = Quiet-guard _ _

pub Quiet-positive : (n : _) → Quiet (require_positive n)
unfolding require_positive
Quiet-positive n = Quiet-or_raise _ _

pub Quiet-credentials : (v : Value) → Quiet (reject_raw_credentials v)
unfolding reject_raw_credentials
Quiet-credentials v = Quiet-guard _ _

pub Quiet-source : (v : String) → Quiet (validate_evidence_source v)
unfolding validate_evidence_source
Quiet-source v = Quiet-guard _ _

module _ {A B : Type 0} where
  Quiet-continue :
      (f : A → Exec B)
      → ((a : A) → Quiet (f a))
      → (d : Db) (r : Result A) (s : Owner) → s.db ≡ d
      → (continue r f s).1.db ≡ d
  Quiet-continue f k d (ok a) s e = (k a).at s ∙ e
  Quiet-continue f k d (err x) s e = e

  pub Quiet-bind :
      {m : Exec A} {f : A → Exec B} → Quiet m → ((a : A) → Quiet (f a)) → Quiet (m >>= f)
  unfolding ◌>>=◌
  Quiet-bind {m} {f} first k = record {
    at = λ s. Quiet-continue f k s.db (m s).0 (m s).1 (first.at s);
  }

  Undone-continue :
      (f : A → Exec B)
      → ((a : A) → Undone (f a))
      → (d : Db) (r : Result A) (s : Owner) → s.db ≡ d
      → UndoneAt (continue r f s).0 d (continue r f s).1.db
  Undone-continue f k d (ok a) s e = subst (λ z. UndoneAt (f a s).0 z (f a s).1.db) e ((k a).at s)
  Undone-continue f k d (err x) s e = e

  pub Undone-bind :
      {m : Exec A} {f : A → Exec B} → Quiet m → ((a : A) → Undone (f a)) → Undone (m >>= f)
  unfolding ◌>>=◌
  Undone-bind {m} {f} first k = record {
    at = λ s. Undone-continue f k s.db (m s).0 (m s).1 (first.at s);
  }

  finished :
      (f : A → B) (d : Db) (r : Result A) (s : Owner)
      → UndoneAt r d s.db
      → UndoneAt (continue r (λ a. pure (f a)) s).0 d (continue r (λ a. pure (f a)) s).1.db
  unfolding pure
  finished f d (ok a) s h = tt
  finished f d (err e) s h = h

  pub Undone-then : {m : Exec A} (f : A → B) → Undone m → Undone (m >>= λ a. pure (f a))
  unfolding ◌>>=◌
  Undone-then {m} f first = record { at = λ s. finished f s.db (m s).0 (m s).1 (first.at s) }

module _ {A : Type 0} where
  rolled_back :
      (d : Db) (r : Result A) (s : Owner) → UndoneAt (roll_back d r s).0 d (roll_back d r s).1.db
  rolled_back d (ok a) s = tt
  rolled_back d (err e) s = refl

  Undone-atomically : (m : Exec A) → Undone (atomically m)
  unfolding atomically
  Undone-atomically m = record { at = λ s. rolled_back s.db (m s).0 (m s).1 }

  pub Undone-transaction : (m : Exec A) → Undone (transaction m)
  unfolding transaction
  Undone-transaction m =
      Undone-bind Quiet-connection λ _. Undone-bind Quiet-caller λ _. Undone-atomically m

pub ruleset undone_rules = (
  Quiet-bind, Quiet-pure, Quiet-draw, Quiet-ask, Quiet-or_raise, Quiet-guard, Quiet-now,
  Quiet-caller, Quiet-text, Quiet-positive, Quiet-credentials, Quiet-source, Undone-bind,
  Undone-then, Undone-transaction,
)
