-- ===== src/Owner/Core/Transactions.antt =====
-- `_transaction` (src/zworkbench/composition.py): a body that returns has its result, and a body that
-- raises leaves nothing behind.
use zworkbench.Owner.Core.{
  require_authenticated_caller, append_event, roll_back, atomically, transaction, record_result_tx,
}
use zworkbench.Common.{String, true, false, Bool, if◌then◌else◌, not, ◌&&◌, is_some, Option}
use zworkbench.Json.{Fields, Value}
use zworkbench.Owner.State.{Owner, Db}
use zworkbench.Exec.{Exec, Result, ok, err, caller_auth_error}
use zworkbench.Exec.Does.{Does, Post, does_bind, does_weaken}
use zworkbench.Owner.Change.{here}
use zworkbench.Owner.Core.Steps.{Framed, append_event-Does, does_connection, record_result_tx-Does}

module _ {A : Type 0} where
  kept_result :
      (Q : A → Db → Type 0) (d : Db) (r : Result A) (s : Owner)
      → Post Q r s.db
      → Post Q (roll_back d r s).0 (roll_back d r s).1.db
  kept_result Q d (ok a) s h = h
  kept_result Q d (err e) s h = tt

module _ {A : Type 0} {P : Db → Type 0} {Q : A → Db → Type 0} where
  pub does_atomically : {m : Exec A} → Does P m Q → Does P (atomically m) Q
  unfolding atomically
  does_atomically {m} triple = record {
    run = λ s h. kept_result Q s.db (m s).0 (m s).1 (triple.run s h);
  }

pub does_caller : {P : Db → Type 0} → Does P require_authenticated_caller (λ _ d. P d)
unfolding require_authenticated_caller
does_caller {P} = record {
  run = λ s h. asked (s.caller_auth_required && not (is_some s.caller_session)) s h;
}
  where
    asked :
        (b : Bool) (s : Owner)
        → P s.db
        → Post (λ _. P) (if b then err caller_auth_error else ok tt) s.db
    asked true s h = tt
    asked false s h = h

module _ {A : Type 0} {P : Db → Type 0} {Q : A → Db → Type 0} where
  pub does_transaction : {m : Exec A} → Does P m Q → Does P (transaction m) Q
  unfolding transaction
  does_transaction triple =
      does_bind does_connection λ _. does_bind does_caller λ _. does_atomically triple

-- What the ledger of events leaves alone.
pub append_event-Keeps :
    {F : Db → Type 0}
    → Framed F
    → (run_id event_type : String) (payload : Fields)
    → Does F (append_event run_id event_type payload) (λ _. F)
append_event-Keeps framed run_id event_type payload = record {
  run = λ s h.
      (does_weaken (λ d k. k) (append_event-Does framed s.db run_id event_type payload)
          (λ a d k. k.1)).run
        s (here, h);
}

pub record_result_tx-Keeps :
    {F : Db → Type 0}
    → Framed F
    → (run_id kind : String) (value : Value) (source_id : Option String) (source : String)
    → Does F (record_result_tx run_id kind value source_id source) (λ _. F)
record_result_tx-Keeps framed run_id kind value source_id source = record {
  run = λ s h.
      (does_weaken (λ d k. k) (record_result_tx-Does framed s.db run_id kind value source_id source)
          (λ a d k. k.1)).run
        s (here, h);
}
